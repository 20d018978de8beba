-- ===== src/Sampler/Steps.antt =====
-- src/model/sampler.cpp, `Sampler::sample` and `Sampler::sample_step`: what every token that is drawn has.
use llm_engine.Base.{
  ℕ, zero, suc, ◌+◌, ◌-◌, ◌≤◌, ◌<◌, ◌≡◌, refl, sym, ap, subst, ◌∙◌, true, false, List, [], ◌∷◌,
  Option, none, some, leb, length, take, All, arith, Bool-cases, inl, inr, if◌then◌else◌, ltb,
}
use mathlib.Core.Bool.{true≢false}
use llm_engine.Sequence.{StepSlice}
use llm_engine.Scheduler.Slices.{total_logits}
use llm_engine.Sampler.Defs.{
  by_prob, iota, walk, nucleus, pick, sample_nucleus, Choice, sample_random, sample, sample_rows,
}
use llm_engine.Sampler.Order.{
  Highest, argmax-Highest, Sorted, better_mass, sort_by-better_mass, sort_by-Sorted, sort_by-All,
  iota-All,
}
use llm_engine.Sampler.Nucleus.{order, length-order, widen-nucleus}

-- The loop of `sample` that widens the window stops, and the token that nucleus sampling returns is
-- the one that a walk over all tokens, sorted by their probabilities, leads to.
pub sample_nucleus-nucleus :
    (p : ℕ → ℕ) (top_p vocab : ℕ) (draw : ℕ → ℕ)
    → sample_nucleus p top_p vocab draw
      ≡ pick p (nucleus p top_p (order p vocab)).0 (draw (nucleus p top_p (order p vocab)).1) 0
unfolding sample_nucleus
sample_nucleus-nucleus p top_p vocab draw =
    ap (λ f. pick p f.0 (draw f.1) 0)
      (widen-nucleus vocab p top_p vocab 64 (omega arith) (omega arith))

pick-All :
    (P : ℕ → Type 0) (p : ℕ → ℕ) (xs : List ℕ) (r last : ℕ)
    → All P xs
    → P last
    → P (pick p xs r last)
unfolding pick
pick-All P p [] r last ps q = q
pick-All P p (x ∷ xs) r last (q', ps) q = elim (Bool-cases (leb r (p x))) [
  | inl here ↦ rw here q'
  | inr on ↦ rw on (pick-All P p xs (r - p x) x ps q')
]

take-All : (P : ℕ → Type 0) (k : ℕ) (xs : List ℕ) → All P xs → All P (take k xs)
take-All P zero xs ps = tt
take-All P (suc k) [] ps = tt
take-All P (suc k) (x ∷ xs) (q, ps) = (q, take-All P k xs ps)

-- None of the tokens behind `i` is better.
better_mass-behind :
    (p : ℕ → ℕ) (i : ℕ) (xs : List ℕ) → All (λ y. by_prob p y i ≡ false) xs → better_mass p i xs ≡ 0
unfolding better_mass
better_mass-behind p i [] ps = refl
better_mass-behind p i (x ∷ xs) (behind, ps) = rw (behind, better_mass-behind p i xs ps) refl

by_prob-itself : (p : ℕ → ℕ) (x : ℕ) → by_prob p x x ≡ false
by_prob-itself p x = ground arith

better_mass-≤ :
    (p : ℕ → ℕ) (i x : ℕ) (xs : List ℕ) → better_mass p i (x ∷ xs) ≤ p x + better_mass p i xs
unfolding better_mass
better_mass-≤ p i x xs = ground arith

better_mass-first :
    (p : ℕ → ℕ) (x : ℕ) (xs : List ℕ) → Sorted p (x ∷ xs) → better_mass p x (x ∷ xs) ≡ 0
unfolding better_mass
better_mass-first p x xs (behind, rest) =
    rw (by_prob-itself p x, better_mass-behind p x xs behind) refl

-- The token `i`, when the tokens that are better than it weigh less than `top_p` with `cum`.
abbrev Early : (ℕ → ℕ) → ℕ → List ℕ → ℕ → ℕ → Type 0
Early p top_p xs cum i = better_mass p i xs + cum < top_p

Early-first :
    (p : ℕ → ℕ) (top_p x : ℕ) (xs : List ℕ) (cum : ℕ)
    → Sorted p (x ∷ xs)
    → cum < top_p
    → Early p top_p (x ∷ xs) cum x
Early-first p top_p x xs cum s low = omega (arith, better_mass-first p x xs s)

Early-later :
    (p : ℕ → ℕ) (top_p x : ℕ) (xs : List ℕ) (cum i : ℕ)
    → Early p top_p xs (cum + p x) i
    → Early p top_p (x ∷ xs) cum i
Early-later p top_p x xs cum i e = omega (arith, better_mass-≤ p i x xs)

pick-here :
    (p : ℕ → ℕ) (x : ℕ) (xs : List ℕ) (r last : ℕ) → leb r (p x) ≡ true → pick p (x ∷ xs) r last ≡ x
unfolding pick
pick-here p x xs r last here = rw here refl

pick-on :
    (p : ℕ → ℕ) (x : ℕ) (xs : List ℕ) (r last : ℕ)
    → leb r (p x) ≡ false
    → pick p (x ∷ xs) r last ≡ pick p xs (r - p x) x
unfolding pick
pick-on p x xs r last on = rw on refl

pick-one : (p : ℕ → ℕ) (x r last : ℕ) → pick p (x ∷ []) r last ≡ x
unfolding pick
pick-one p x r last = ground arith

-- What the walk has added up before it reaches the token that is drawn is below `top_p`.
pick-Early :
    (p : ℕ → ℕ) (top_p : ℕ) (x : ℕ) (xs : List ℕ) (cum r last : ℕ)
    → Sorted p (x ∷ xs)
    → cum < top_p
    → Early p top_p (x ∷ xs) cum (pick p (take (walk p top_p (x ∷ xs) cum).0 (x ∷ xs)) r last)
unfolding walk
pick-Early p top_p x [] cum r last s low = elim (Bool-cases (leb top_p (cum + p x))) [
  | inl closed ↦ rw (closed, pick-one p x r last) (Early-first p top_p x [] cum s low)
  | inr more ↦ rw (more, pick-one p x r last) (Early-first p top_p x [] cum s low)
]
pick-Early p top_p x (y ∷ ys) cum r last s low = elim (Bool-cases (leb top_p (cum + p x))) [
  | inl closed ↦ rw (closed, pick-one p x r last) (Early-first p top_p x (y ∷ ys) cum s low)
  | inr more ↦
      let next = pick-Early p top_p y ys (cum + p x) (r - p x) x s.1 (ground (arith, more)) in
      let tail = take (walk p top_p (y ∷ ys) (cum + p x)).0 (y ∷ ys) in
      rw more (elim (Bool-cases (leb r (p x))) [
        | inl here ↦
            subst (Early p top_p (x ∷ y ∷ ys) cum) (sym (pick-here p x tail r last here))
              (Early-first p top_p x (y ∷ ys) cum s low)
        | inr on ↦
            subst (Early p top_p (x ∷ y ∷ ys) cum) (sym (pick-on p x tail r last on))
              (Early-later p top_p x (y ∷ ys) cum _ next)
      ])
]

nucleus-Early :
    (p : ℕ → ℕ) (top_p : ℕ) (xs : List ℕ) (r : ℕ)
    → Sorted p xs
    → 0 < top_p
    → 0 < length xs
    → Early p top_p xs 0 (pick p (nucleus p top_p xs).0 r 0)
unfolding nucleus
nucleus-Early p top_p [] r s pos some_token = absurd (omega arith)
nucleus-Early p top_p (x ∷ xs) r s pos some_token = pick-Early p top_p x xs 0 r 0 s pos

iota-inside : (vocab : ℕ) → All (λ i. i < vocab) (iota 0 vocab)
iota-inside vocab = subst (λ n. All (λ j. j < n) (iota 0 vocab)) (omega arith) (iota-All 0 vocab)

order-All : (p : ℕ → ℕ) (vocab : ℕ) → All (λ i. i < vocab) (order p vocab)
unfolding order
order-All p vocab = sort_by-All (λ i. i < vocab) p (iota 0 vocab) (iota-inside vocab)

-- The weight of the tokens of a list that are more probable than `i`.
unfoldable pub heavier_mass : (ℕ → ℕ) → ℕ → List ℕ → ℕ
heavier_mass p i [] = 0
heavier_mass p i (x ∷ xs) = (if ltb (p i) (p x) then p x else 0) + heavier_mass p i xs

heavier-better_mass : (p : ℕ → ℕ) (i : ℕ) (xs : List ℕ) → heavier_mass p i xs ≤ better_mass p i xs
unfolding heavier_mass better_mass
heavier-better_mass p i [] = omega arith
heavier-better_mass p i (x ∷ xs) = ground (arith, heavier-better_mass p i xs)

-- What a token that nucleus sampling draws has: it is one of the vocabulary, and the tokens that are
-- more probable than it hold less than `top_p`.
pub record Drawn (p : ℕ → ℕ) (top_p vocab i : ℕ) : Type 0 where
  pub inside : i < vocab
  pub early : heavier_mass p i (iota 0 vocab) < top_p

pub sample_nucleus-Drawn :
    (p : ℕ → ℕ) (top_p vocab : ℕ) (draw : ℕ → ℕ)
    → 0 < vocab
    → 0 < top_p
    → Drawn p top_p vocab (sample_nucleus p top_p vocab draw)
unfolding order nucleus
sample_nucleus-Drawn p top_p vocab draw pos top =
    let xs = order p vocab in
    let i = pick p (nucleus p top_p xs).0 (draw (nucleus p top_p xs).1) 0 in
    let early =
      nucleus-Early p top_p xs (draw (nucleus p top_p xs).1) (sort_by-Sorted p (iota 0 vocab)) top
        (omega (arith, length-order p vocab)) in
    let inside : i < vocab =
      pick-All (λ j. j < vocab) p (nucleus p top_p xs).0 (draw (nucleus p top_p xs).1) 0
        (take-All (λ j. j < vocab) (walk p top_p xs 0).0 xs (order-All p vocab)) pos in
    subst (Drawn p top_p vocab) (sym (sample_nucleus-nucleus p top_p vocab draw)) record {
      inside = inside;
      early = omega (
        arith,
        early,
        sort_by-better_mass p i (iota 0 vocab),
        heavier-better_mass p i (iota 0 vocab),
      );
    }

-- A token that `sample` returns: it is one of the vocabulary, the first of the highest logits for a
-- greedy request, and drawn as above for one with a `top_p` below 1.
pub record Chosen (logits : ℕ → ℕ) (vocab : ℕ) (c : Choice) (i : ℕ) : Type 0 where
  pub inside : i < vocab
  pub best : c.greedy ≡ true → Highest logits vocab i
  pub drawn :
      (top_p : ℕ) → c.greedy ≡ false → c.top_p ≡ some top_p → Drawn (c.softmax logits) top_p vocab i

-- What a request's `top_p` is checked to be.
abbrev pub PositiveTop : Choice → Type 0
PositiveTop c = (top_p : ℕ) → c.top_p ≡ some top_p → 0 < top_p

sample_random-inside :
    (p : ℕ → ℕ) (vocab : ℕ) (draw : ℕ → ℕ) (total : ℕ) (top_p : Option ℕ)
    → 0 < vocab
    → ((t : ℕ) → top_p ≡ some t → 0 < t)
    → sample_random p vocab draw total top_p < vocab
unfolding sample_random
sample_random-inside p vocab draw total none pos top =
    pick-All (λ j. j < vocab) p (iota 0 vocab) (draw total) 0 (iota-inside vocab) pos
sample_random-inside p vocab draw total (some t) pos top =
    let d = sample_nucleus-Drawn p t vocab draw pos (top t refl) in d.inside

pub sample-Chosen :
    (logits : ℕ → ℕ) (vocab : ℕ) (c : Choice)
    → 0 < vocab
    → PositiveTop c
    → Chosen logits vocab c (sample logits vocab c)
unfolding sample sample_random
sample-Chosen logits vocab c pos top = elim (Bool-cases c.greedy) [
  | inl greedy ↦
      let b = argmax-Highest logits vocab pos in
      simp greedy record {
        inside = b.inside;
        best = λ _. b;
        drawn = λ _ e _. absurd (true≢false (sym greedy ∙ e));
      }
  | inr random ↦ simp random record {
    inside = sample_random-inside (c.softmax logits) vocab c.draw c.total c.top_p pos top;
    best = λ e. absurd (true≢false (sym e ∙ random));
    drawn = λ t _ e. rw e (sample_nucleus-Drawn (c.softmax logits) t vocab c.draw pos (top t e));
  }
]

-- What `sample_step` returns, from a row on: one token for each slice that needs logits, in their order,
-- each chosen from the row of its own slice.
pub data Rows (logits : ℕ → ℕ → ℕ) (vocab : ℕ) (choice : ℕ → ℕ → Choice)
    : ℕ → List StepSlice → List ℕ → Type 0 where
  done : {row : ℕ} → Rows logits vocab choice row [] []
  skipped :
      {row : ℕ} {sl : StepSlice} {slices : List StepSlice} {toks : List ℕ}
      → sl.needs_logits ≡ false
      → Rows logits vocab choice row slices toks
      → Rows logits vocab choice row (sl ∷ slices) toks
  sampled :
      {row : ℕ} {sl : StepSlice} {slices : List StepSlice} {tok : ℕ} {toks : List ℕ}
      → sl.needs_logits ≡ true
      → Chosen (logits row) vocab (choice row sl.seq) tok
      → Rows logits vocab choice (suc row) slices toks
      → Rows logits vocab choice row (sl ∷ slices) (tok ∷ toks)

-- With a vocabulary that is not empty and no `top_p` of 0, the sampler returns one token for each
-- slice that needs logits, in their order, each from its own row and for the parameters of its own
-- sequence. The token is one of the vocabulary; for a greedy request it is the first of the highest
-- logits; for any other with a `top_p` below 1 the tokens with a strictly higher probability hold
-- less than `top_p`.
pub sample_rows-Rows :
    (logits : ℕ → ℕ → ℕ) (vocab : ℕ) (choice : ℕ → ℕ → Choice) (row : ℕ) (slices : List StepSlice)
    → 0 < vocab
    → ((r s : ℕ) → PositiveTop (choice r s))
    → Rows logits vocab choice row slices (sample_rows logits vocab choice row slices)
unfolding sample_rows
sample_rows-Rows logits vocab choice row [] pos top = done
sample_rows-Rows logits vocab choice row (sl ∷ slices) pos top = elim (Bool-cases sl.needs_logits) [
  | inl need ↦ simp need (
      sampled need (sample-Chosen (logits row) vocab (choice row sl.seq) pos (top row sl.seq))
        (sample_rows-Rows logits vocab choice (suc row) slices pos top))
  | inr none_needed ↦
      simp none_needed
        (skipped none_needed (sample_rows-Rows logits vocab choice row slices pos top))
]

pub length-sample_rows :
    (logits : ℕ → ℕ → ℕ) (vocab : ℕ) (choice : ℕ → ℕ → Choice) (row : ℕ) (slices : List StepSlice)
    → length (sample_rows logits vocab choice row slices) ≡ total_logits slices
unfolding sample_rows total_logits
length-sample_rows logits vocab choice row [] = refl
length-sample_rows logits vocab choice row (sl ∷ slices) = elim (Bool-cases sl.needs_logits) [
  | inl need ↦ rw need (omega (arith, length-sample_rows logits vocab choice (suc row) slices))
  | inr none_needed ↦
      rw none_needed (omega (arith, length-sample_rows logits vocab choice row slices))
]
