-- ===== src/Tokenizer/Bits.antt =====
-- Facts on the bit operations of the UTF-8 code.
use Prim.Native.Nat.{bit_and, bit_or, digits, bit_and-bitwise, bit_or-bitwise}
use llm_engine.Base.{
  below, below_at, ℕ, zero, suc, ◌+◌, ◌*◌, ◌/◌, ◌%◌, ◌≤◌, ◌<◌, min, max, ◌≡◌, refl, ap, ◌∙◌, ◌==◌,
  arith,
}

abbrev or_digits : ℕ → ℕ → ℕ → ℕ
or_digits fuel x y = digits (λ y. y) max fuel x y

or_digits-fuel : (k l x y : ℕ) → x ≤ k → x ≤ l → or_digits k x y ≡ or_digits l x y
or_digits-fuel k l zero y p q = go k l
  where
    go : (k l : ℕ) → or_digits k zero y ≡ or_digits l zero y
    go zero zero = refl
    go zero (suc l) = refl
    go (suc k) zero = refl
    go (suc k) (suc l) = refl
or_digits-fuel zero l (suc x) y p q = absurd (omega arith)
or_digits-fuel (suc k) zero (suc x) y p q = absurd (omega arith)
or_digits-fuel (suc k) (suc l) (suc x) y p q =
    omega (arith, or_digits-fuel k l (suc x / 2) (y / 2) (omega arith) (omega arith))

zero_or : (y : ℕ) → bit_or 0 y ≡ y
zero_or y = bit_or-bitwise 0 y

or_lowest : (x y : ℕ) → bit_or x y ≡ bit_or (x / 2) (y / 2) * 2 + max (x % 2) (y % 2)
or_lowest zero y = omega (arith, zero_or y, zero_or (y / 2))
or_lowest (suc x) y = omega (
  arith,
  bit_or-bitwise (suc x) y,
  bit_or-bitwise (suc x / 2) (y / 2),
  or_digits-fuel x (suc x / 2) (suc x / 2) (y / 2) (omega arith) (omega arith),
)

or_zero : (fuel x : ℕ) → x ≤ fuel → bit_or x 0 ≡ x
or_zero fuel zero h = zero_or 0
or_zero zero (suc x) h = absurd (omega arith)
or_zero (suc fuel) (suc x) h =
    omega (arith, or_lowest (suc x) 0, or_zero fuel (suc x / 2) (omega arith))

or_even : (x y : ℕ) → bit_or (x * 2) y ≡ bit_or x (y / 2) * 2 + y % 2
or_even x y = omega (arith, or_lowest (x * 2) y, same)
  where
    same : bit_or (x * 2 / 2) (y / 2) ≡ bit_or x (y / 2)
    same = ap (λ k. bit_or k (y / 2)) (omega arith)

-- Six digits are appended.
pub bit_or-shift : (x y : ℕ) → y < 64 → bit_or (x * 64) y ≡ x * 64 + y
bit_or-shift x y h = omega (
  arith,
  ap (λ k. bit_or k y) (the_eq x),
  or_even (x * 32) y,
  ap (λ k. bit_or k (y / 2)) (eq32 x),
  or_even (x * 16) (y / 2),
  ap (λ k. bit_or k (y / 2 / 2)) (eq16 x),
  or_even (x * 8) (y / 2 / 2),
  ap (λ k. bit_or k (y / 2 / 2 / 2)) (eq8 x),
  or_even (x * 4) (y / 2 / 2 / 2),
  ap (λ k. bit_or k (y / 2 / 2 / 2 / 2)) (eq4 x),
  or_even (x * 2) (y / 2 / 2 / 2 / 2),
  or_even x (y / 2 / 2 / 2 / 2 / 2),
  last,
)
  where
    the_eq : (x : ℕ) → x * 64 ≡ x * 32 * 2
    the_eq x = omega arith

    eq32 : (x : ℕ) → x * 32 ≡ x * 16 * 2
    eq32 x = omega arith

    eq16 : (x : ℕ) → x * 16 ≡ x * 8 * 2
    eq16 x = omega arith

    eq8 : (x : ℕ) → x * 8 ≡ x * 4 * 2
    eq8 x = omega arith

    eq4 : (x : ℕ) → x * 4 ≡ x * 2 * 2
    eq4 x = omega arith

    last : bit_or x (y / 2 / 2 / 2 / 2 / 2 / 2) ≡ x
    last = ap (bit_or x) (none_left y h) ∙ or_zero x x (omega arith)
      where
        none_left : (y : ℕ) → y < 64 → y / 2 / 2 / 2 / 2 / 2 / 2 ≡ 0
        none_left y h = omega arith

abbrev conj : ℕ → ℕ → ℕ → ℕ
conj fuel x y = digits (λ y. 0) min fuel x y

conj-fuel : (k l x y : ℕ) → x ≤ k → x ≤ l → conj k x y ≡ conj l x y
conj-fuel k l zero y p q = go k l
  where
    go : (k l : ℕ) → conj k zero y ≡ conj l zero y
    go zero zero = refl
    go zero (suc l) = refl
    go (suc k) zero = refl
    go (suc k) (suc l) = refl
conj-fuel zero l (suc x) y p q = absurd (omega arith)
conj-fuel (suc k) zero (suc x) y p q = absurd (omega arith)
conj-fuel (suc k) (suc l) (suc x) y p q =
    omega (arith, conj-fuel k l (suc x / 2) (y / 2) (omega arith) (omega arith))

zero_and : (y : ℕ) → bit_and 0 y ≡ 0
zero_and y = bit_and-bitwise 0 y

and_lowest : (x y : ℕ) → bit_and x y ≡ bit_and (x / 2) (y / 2) * 2 + min (x % 2) (y % 2)
and_lowest zero y = omega (arith, zero_and y, zero_and (y / 2))
and_lowest (suc x) y = omega (
  arith,
  bit_and-bitwise (suc x) y,
  bit_and-bitwise (suc x / 2) (y / 2),
  conj-fuel x (suc x / 2) (suc x / 2) (y / 2) (omega arith) (omega arith),
)

and_zero : (fuel x : ℕ) → x ≤ fuel → bit_and x 0 ≡ 0
and_zero fuel zero h = zero_and 0
and_zero zero (suc x) h = absurd (omega arith)
and_zero (suc fuel) (suc x) h =
    omega (arith, and_lowest (suc x) 0, and_zero fuel (suc x / 2) (omega arith))

-- A mask of low digits is a remainder.
pub mask_seven : (x : ℕ) → bit_and x 7 ≡ x % 8
mask_seven x = omega (
  arith,
  and_lowest x 7,
  and_lowest (x / 2) 3,
  and_lowest (x / 2 / 2) 1,
  and_zero (x / 2 / 2 / 2) (x / 2 / 2 / 2) (omega arith),
)

pub mask_fifteen : (x : ℕ) → bit_and x 15 ≡ x % 16
mask_fifteen x = omega (arith, and_lowest x 15, mask_seven (x / 2))

pub mask_31 : (x : ℕ) → bit_and x 31 ≡ x % 32
mask_31 x = omega (arith, and_lowest x 31, mask_fifteen (x / 2))

pub mask_63 : (x : ℕ) → bit_and x 63 ≡ x % 64
mask_63 x = omega (arith, and_lowest x 63, mask_31 (x / 2))

-- The marks of the bytes of a sequence.
pub marks :
    (x : ℕ)
    → (x < 64 → bit_or 128 x ≡ 128 + x)
      × (x < 32 → bit_or 192 x ≡ 192 + x)
      × (x < 16 → bit_or 224 x ≡ 224 + x)
      × (x < 8 → bit_or 240 x ≡ 240 + x)
unfolding below
marks x = (
  (λ h. ground (arith, below_at 64 (λ x. bit_or 128 x == 128 + x) x refl h)),
  (λ h. ground (arith, below_at 32 (λ x. bit_or 192 x == 192 + x) x refl h)),
  (λ h. ground (arith, below_at 16 (λ x. bit_or 224 x == 224 + x) x refl h)),
  (λ h. ground (arith, below_at 8 (λ x. bit_or 240 x == 240 + x) x refl h)),
)
