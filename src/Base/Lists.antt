-- ===== src/Base/Lists.antt =====
-- Lists measured, indexed and counted by native numbers, under the library's names.
use Prim.Native.Nat.{ℕ, zero, suc, ◌+◌, ◌-◌, min}
use mathlib.Core.Path.{◌≡◌, refl, sym, ap, ◌∙◌}
use mathlib.Core.List.{List, [], ◌∷◌, ◌++◌}
use mathlib.Core.Option.{Option, none, some}
use native.Mathlib.Omega.{arith}
use llm_engine.Base.Tests.{◌==◌, if◌then◌else◌}

module _ {ℓ} {A : Type ℓ} where
  abbrev pub length : List A → ℕ
  length [] = 0
  length (x ∷ xs) = suc (length xs)

  abbrev pub get_elem? : List A → ℕ → Option A
  get_elem? [] i = none
  get_elem? (x ∷ xs) zero = some x
  get_elem? (x ∷ xs) (suc i) = get_elem? xs i

  abbrev pub get_or : List A → ℕ → A → A
  get_or [] i d = d
  get_or (x ∷ xs) zero d = x
  get_or (x ∷ xs) (suc i) d = get_or xs i d

  -- A write out of bounds changes nothing.
  abbrev pub set : List A → ℕ → A → List A
  set [] i v = []
  set (x ∷ xs) zero v = v ∷ xs
  set (x ∷ xs) (suc i) v = x ∷ set xs i v

  abbrev pub take : ℕ → List A → List A
  take zero xs = []
  take (suc n) [] = []
  take (suc n) (x ∷ xs) = x ∷ take n xs

  abbrev pub drop : ℕ → List A → List A
  drop zero xs = xs
  drop (suc n) [] = []
  drop (suc n) (x ∷ xs) = drop n xs

  abbrev pub All {κ} : (A → Type κ) → List A → Type κ
  All P [] = Unit
  All P (x ∷ xs) = P x × All P xs

module _ {ℓ} {A : Type ℓ} where
  pub length-append : (xs ys : List A) → length (xs ++ ys) ≡ length xs + length ys
  length-append [] ys = omega arith
  length-append (x ∷ xs) ys = omega (arith, length-append xs ys)

  pub length-set : (xs : List A) (i : ℕ) (v : A) → length (set xs i v) ≡ length xs
  length-set [] i v = refl
  length-set (x ∷ xs) zero v = refl
  length-set (x ∷ xs) (suc i) v = ap suc (length-set xs i v)

  pub length-take : (n : ℕ) (xs : List A) → length (take n xs) ≡ min n (length xs)
  length-take zero xs = omega arith
  length-take (suc n) [] = omega arith
  length-take (suc n) (x ∷ xs) = omega (arith, length-take n xs)

suc-add : (n m : ℕ) → suc n + m ≡ suc (n + m)
suc-add n m = omega arith

module _ {ℓ} {A : Type ℓ} where
  pub take-drop : (n : ℕ) (s : List A) → take n s ++ drop n s ≡ s
  take-drop zero s = refl
  take-drop (suc n) [] = refl
  take-drop (suc n) (c ∷ s) = ap (λ l. c ∷ l) (take-drop n s)

  take-nil : (n : ℕ) → take {A = A} n [] ≡ []
  take-nil zero = refl
  take-nil (suc n) = refl

  drop-nil : (n : ℕ) → drop {A = A} n [] ≡ []
  drop-nil zero = refl
  drop-nil (suc n) = refl

  pub take-add : (n m : ℕ) (s : List A) → take (n + m) s ≡ take n s ++ take m (drop n s)
  take-add zero m s = ap (λ k. take k s) (omega arith)
  take-add (suc n) m [] = take-nil (suc n + m) ∙ sym (take-nil m)
  take-add (suc n) m (c ∷ s) =
      ap (λ k. take k (c ∷ s)) (suc-add n m) ∙ ap (λ l. c ∷ l) (take-add n m s)

  pub drop-add : (n m : ℕ) (s : List A) → drop (n + m) s ≡ drop m (drop n s)
  drop-add zero m s = ap (λ k. drop k s) (omega arith)
  drop-add (suc n) m [] = drop-nil (suc n + m) ∙ sym (drop-nil m)
  drop-add (suc n) m (c ∷ s) = ap (λ k. drop k (c ∷ s)) (suc-add n m) ∙ drop-add n m s

  pub length-drop : (n : ℕ) (s : List A) → length (drop n s) ≡ length s - n
  length-drop zero s = omega arith
  length-drop (suc n) [] = omega arith
  length-drop (suc n) (c ∷ s) = omega (arith, length-drop n s)

-- How often a number stands in a list.
abbrev pub count : ℕ → List ℕ → ℕ
count a [] = 0
count a (x ∷ xs) = (if x == a then 1 else 0) + count a xs

-- The list without its first `a`.
abbrev pub erase : ℕ → List ℕ → List ℕ
erase a [] = []
erase a (x ∷ xs) = if x == a then xs else x ∷ erase a xs

pub count-append : (q : ℕ) (ps rest : List ℕ) → count q (ps ++ rest) ≡ count q ps + count q rest
count-append q [] rest = omega arith
count-append q (p ∷ ps) rest = omega (arith, count-append q ps rest)

pub count-erase :
    (a b : ℕ) (xs : List ℕ) → count a (erase b xs) ≡ (if a == b then count a xs - 1 else count a xs)
count-erase a b [] = ground arith
count-erase a b (x ∷ xs) = ground (arith, count-erase a b xs)

pub length-erase : (b : ℕ) (xs : List ℕ) → length (erase b xs) + min 1 (count b xs) ≡ length xs
length-erase b [] = omega arith
length-erase b (x ∷ xs) = ground (arith, length-erase b xs)
