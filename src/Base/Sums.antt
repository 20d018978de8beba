-- ===== src/Base/Sums.antt =====
-- Sums over the numbers below a bound.
use Prim.Native.Nat.{ℕ, zero, suc, ◌+◌, ◌<◌}
use mathlib.Core.Path.{◌≡◌, refl, sym, subst}
use mathlib.Core.Logic.{◌≢◌, inl, inr}
use native.Mathlib.Omega.{arith}
use llm_engine.Base.Tests.{◌==◌, if◌then◌else◌, Bool-cases}

unfoldable pub sum_below : ℕ → (ℕ → ℕ) → ℕ
sum_below zero f = 0
sum_below (suc n) f = f n + sum_below n f

pub sum_below-add :
    (n : ℕ) (f g : ℕ → ℕ) → sum_below n (λ b. f b + g b) ≡ sum_below n f + sum_below n g
unfolding sum_below
sum_below-add zero f g = omega arith
sum_below-add (suc n) f g = omega (arith, sum_below-add n f g)

pub sum_below-cong :
    (n : ℕ) (f g : ℕ → ℕ) → ((i : ℕ) → i < n → f i ≡ g i) → sum_below n f ≡ sum_below n g
unfolding sum_below
sum_below-cong zero f g h = refl
sum_below-cong (suc n) f g h =
    omega (arith, h n (omega arith), sum_below-cong n f g (λ i k. h i (omega arith)))

-- One term grows.
pub sum_below-change :
    (n p d : ℕ) (f g : ℕ → ℕ)
    → p < n
    → f p + d ≡ g p
    → ((i : ℕ) → i ≢ p → f i ≡ g i)
    → sum_below n f + d ≡ sum_below n g
unfolding sum_below
sum_below-change zero p d f g k e h = absurd (omega arith)
sum_below-change (suc n) p d f g k e h = elim (Bool-cases (n == p)) [
  | inl hit ↦
      let same : n ≡ p = ground arith in
      omega (
        arith,
        subst (λ i. f i + d ≡ g i) (sym same) e,
        sum_below-cong n f g (λ i l. h i (λ q. omega arith)),
      )
  | inr miss ↦ omega (arith, h n (λ q. ground arith), sum_below-change n p d f g (ground arith) e h)
]

pub sum_below-zero : (n : ℕ) (f : ℕ → ℕ) → sum_below n f ≡ 0 → (i : ℕ) → i < n → f i ≡ 0
unfolding sum_below
sum_below-zero zero f e i k = absurd (omega arith)
sum_below-zero (suc n) f e i k = elim (Bool-cases (i == n)) [
  | inl hit ↦ let same : n ≡ i = ground arith in subst (λ j. f j ≡ 0) same (omega arith)
  | inr miss ↦ sum_below-zero n f (omega arith) i (ground arith)
]

pub sum_below-const :
    (n : ℕ) → sum_below n (λ i. if i == 0 then 0 else 1) + 1 ≡ (if n == 0 then 1 else n)
unfolding sum_below
sum_below-const zero = refl
sum_below-const (suc n) = ground (arith, sum_below-const n)
