-- ===== src/Sampler/Order.antt =====
-- src/model/sampler.cpp: `argmax`, and the order of the tokens by probability.
use llm_engine.Base.{
  ℕ, zero, suc, ◌+◌, ◌-◌, ◌≤◌, ◌<◌, ◌≡◌, refl, ap, ◌∙◌, false, List, [], ◌∷◌, if◌then◌else◌, ltb,
  ◌==◌, length, All, arith, Bool-cases, inl, inr,
}
use llm_engine.Sampler.Defs.{argmax_from, argmax, by_prob, insert_by, sort_by, iota}

-- The best of the tokens below `i`, the first of equals.
pub record Highest (logits : ℕ → ℕ) (i best : ℕ) : Type 0 where
  pub inside : best < i
  pub highest : (j : ℕ) → j < i → logits j ≤ logits best
  pub first : (j : ℕ) → j < best → logits j < logits best

argmax_from-Highest :
    (n i best : ℕ) (logits : ℕ → ℕ)
    → Highest logits i best
    → Highest logits (i + n) (argmax_from n i best logits)
unfolding argmax_from
argmax_from-Highest zero i best logits b = record {
  inside = omega (arith, b.inside);
  highest = λ j h. b.highest j (omega arith);
  first = b.first;
}
argmax_from-Highest (suc n) i best logits b =
    let next = if ltb (logits best) (logits i) then i else best in
    let better : Highest logits (suc i) next = elim (Bool-cases (ltb (logits best) (logits i))) [
      | inl more ↦ rw more (record {
        inside = omega arith;
        highest = λ j h. elim (Bool-cases (j == i)) [
          | inl e ↦ let same : j ≡ i = ground arith in rw same (omega arith)
          | inr ne ↦ ground (arith, b.highest j, more)
        ];
        first = λ j h. ground (arith, b.highest j, more);
      })
      | inr less ↦ rw less (record {
        inside = omega (arith, b.inside);
        highest = λ j h. elim (Bool-cases (j == i)) [
          | inl e ↦ let same : j ≡ i = ground arith in rw same (ground (arith, less))
          | inr ne ↦ ground (arith, b.highest j)
        ];
        first = b.first;
      })
    ] in
    let rest = argmax_from-Highest n (suc i) next logits better in
    record {
      inside = omega (arith, rest.inside);
      highest = λ j h. rest.highest j (omega arith);
      first = rest.first;
    }

-- For a vocabulary that is not empty, `argmax` gives a token of it whose logit is the highest, and
-- higher than that of each token before it.
pub argmax-Highest :
    (logits : ℕ → ℕ) (vocab : ℕ) → 0 < vocab → Highest logits vocab (argmax logits vocab)
unfolding argmax
argmax-Highest logits vocab pos =
    let b = argmax_from-Highest (vocab - 1) 1 0 logits (record {
      inside = omega arith;
      highest = λ j h. let z : j ≡ 0 = omega arith in rw z (omega arith);
      first = λ j h. absurd (omega arith);
    }) in
    record {
      inside = omega (arith, b.inside);
      highest = λ j h. b.highest j (omega arith);
      first = b.first;
    }

-- No later token is better than an earlier one.
abbrev pub Sorted : (ℕ → ℕ) → List ℕ → Type 0
Sorted p [] = Unit
Sorted p (x ∷ xs) = All (λ y. by_prob p y x ≡ false) xs × Sorted p xs

-- The weight of the tokens of a list.
unfoldable pub mass : (ℕ → ℕ) → List ℕ → ℕ
mass p [] = 0
mass p (x ∷ xs) = p x + mass p xs

-- The weight of those that are better than `i`.
unfoldable pub better_mass : (ℕ → ℕ) → ℕ → List ℕ → ℕ
better_mass p i [] = 0
better_mass p i (x ∷ xs) = (if by_prob p x i then p x else 0) + better_mass p i xs

insert_by-better_mass :
    (p : ℕ → ℕ) (i x : ℕ) (ys : List ℕ)
    → better_mass p i (insert_by p x ys) ≡ (if by_prob p x i then p x else 0) + better_mass p i ys
unfolding better_mass insert_by
insert_by-better_mass p i x [] = refl
insert_by-better_mass p i x (y ∷ ys) = elim (Bool-cases (by_prob p y x)) [
  | inl behind ↦ rw behind (omega (arith, insert_by-better_mass p i x ys))
  | inr front ↦ rw front refl
]

pub sort_by-better_mass :
    (p : ℕ → ℕ) (i : ℕ) (xs : List ℕ) → better_mass p i (sort_by p xs) ≡ better_mass p i xs
unfolding better_mass sort_by
sort_by-better_mass p i [] = refl
sort_by-better_mass p i (x ∷ xs) =
    omega (arith, insert_by-better_mass p i x (sort_by p xs), sort_by-better_mass p i xs)

insert_by-All :
    (P : ℕ → Type 0) (p : ℕ → ℕ) (x : ℕ) (ys : List ℕ) → P x → All P ys → All P (insert_by p x ys)
unfolding insert_by
insert_by-All P p x [] h a = (h, tt)
insert_by-All P p x (y ∷ ys) h (b, a) = elim (Bool-cases (by_prob p y x)) [
  | inl behind ↦ rw behind (b, insert_by-All P p x ys h a)
  | inr front ↦ rw front (h, (b, a))
]

not_better_trans :
    (p : ℕ → ℕ) (x y : ℕ) (ys : List ℕ)
    → by_prob p y x ≡ false
    → All (λ z. by_prob p z y ≡ false) ys
    → All (λ z. by_prob p z x ≡ false) ys
not_better_trans p x y [] h a = tt
not_better_trans p x y (z ∷ ys) h (b, a) = (ground (arith, h, b), not_better_trans p x y ys h a)

insert_by-Sorted : (p : ℕ → ℕ) (x : ℕ) (ys : List ℕ) → Sorted p ys → Sorted p (insert_by p x ys)
unfolding insert_by
insert_by-Sorted p x [] s = (tt, tt)
insert_by-Sorted p x (y ∷ ys) (a, s) = elim (Bool-cases (by_prob p y x)) [
  | inl behind ↦ rw behind (
    insert_by-All (λ z. by_prob p z y ≡ false) p x ys (ground (arith, behind)) a,
    insert_by-Sorted p x ys s,
  )
  | inr front ↦ rw front ((front, not_better_trans p x y ys front a), (a, s))
]

pub sort_by-Sorted : (p : ℕ → ℕ) (xs : List ℕ) → Sorted p (sort_by p xs)
unfolding sort_by
sort_by-Sorted p [] = tt
sort_by-Sorted p (x ∷ xs) = insert_by-Sorted p x (sort_by p xs) (sort_by-Sorted p xs)

pub sort_by-All : (P : ℕ → Type 0) (p : ℕ → ℕ) (xs : List ℕ) → All P xs → All P (sort_by p xs)
unfolding sort_by
sort_by-All P p [] a = tt
sort_by-All P p (x ∷ xs) (h, a) = insert_by-All P p x (sort_by p xs) h (sort_by-All P p xs a)

length-insert_by : (p : ℕ → ℕ) (x : ℕ) (ys : List ℕ) → length (insert_by p x ys) ≡ suc (length ys)
unfolding insert_by
length-insert_by p x [] = refl
length-insert_by p x (y ∷ ys) = elim (Bool-cases (by_prob p y x)) [
  | inl behind ↦ rw behind (ap suc (length-insert_by p x ys))
  | inr front ↦ rw front refl
]

pub length-sort_by : (p : ℕ → ℕ) (xs : List ℕ) → length (sort_by p xs) ≡ length xs
unfolding sort_by
length-sort_by p [] = refl
length-sort_by p (x ∷ xs) = length-insert_by p x (sort_by p xs) ∙ ap suc (length-sort_by p xs)

pub length-iota : (i n : ℕ) → length (iota i n) ≡ n
unfolding iota
length-iota i zero = refl
length-iota i (suc n) = ap suc (length-iota (suc i) n)

pub iota-All : (i n : ℕ) → All (λ j. j < i + n) (iota i n)
unfolding iota
iota-All i zero = tt
iota-All i (suc n) = (omega arith, weaken (iota (suc i) n) (iota-All (suc i) n))
  where
    weaken : (xs : List ℕ) → All (λ j. j < suc i + n) xs → All (λ j. j < i + suc n) xs
    weaken [] a = tt
    weaken (x ∷ xs) (h, a) = (omega arith, weaken xs a)
