-- ===== src/Sampler/Defs.antt =====
-- include/engine/sampler.h and src/model/sampler.cpp: greedy choice, nucleus sampling and the rows of a
-- step.
--
-- A logit and a probability are numbers: the probabilities are weights, in units in which the program's
-- sums are exact, and `top_p` is a weight too. `exp` and the division by the sum are an argument, and
-- so is the random number, a function of the bound it is drawn below.
use llm_engine.Base.{
  ℕ, zero, suc, ◌+◌, ◌-◌, ◌*◌, Bool, List, [], ◌∷◌, Option, none, some, if◌then◌else◌, ltb, leb,
  ◌==◌, ◌&&◌, ◌||◌, take,
}
use llm_engine.Sequence.{StepSlice}

-- The loop of `argmax`, from `i` on.
unfoldable pub argmax_from : ℕ → ℕ → ℕ → (ℕ → ℕ) → ℕ
argmax_from zero i best logits = best
argmax_from (suc n) i best logits =
    argmax_from n (suc i) (if ltb (logits best) (logits i) then i else best) logits

unfoldable pub argmax : (ℕ → ℕ) → ℕ → ℕ
unfolding argmax_from
argmax logits vocab = argmax_from (vocab - 1) 1 0 logits

abbrev pub by_prob : (ℕ → ℕ) → ℕ → ℕ → Bool
by_prob p a b = ltb (p b) (p a) || p a == p b && ltb a b

unfoldable pub insert_by : (ℕ → ℕ) → ℕ → List ℕ → List ℕ
insert_by p x [] = x ∷ []
insert_by p x (y ∷ ys) =
    let rest = insert_by p x ys in if by_prob p y x then y ∷ rest else x ∷ y ∷ ys

-- `std::sort` by `by_prob`.
unfoldable pub sort_by : (ℕ → ℕ) → List ℕ → List ℕ
unfolding insert_by
sort_by p [] = []
sort_by p (x ∷ xs) = insert_by p x (sort_by p xs)

unfoldable pub iota : ℕ → ℕ → List ℕ
iota i zero = []
iota i (suc n) = i ∷ iota (suc i) n

-- The first `k` places of `idx_`: `by_prob` is a total order, so `std::nth_element` and `std::sort` of
-- the range leave there what a full sort does.
unfoldable pub window : (ℕ → ℕ) → ℕ → ℕ → List ℕ
unfolding sort_by iota
window p vocab k = take k (sort_by p (iota 0 vocab))

-- `keep` and `cum`.
unfoldable pub walk : (ℕ → ℕ) → ℕ → List ℕ → ℕ → ℕ × ℕ
walk p top_p [] cum = (0, cum)
walk p top_p (i ∷ idx) cum =
    let rest = walk p top_p idx (cum + p i) in
    if leb top_p (cum + p i) then (1, cum + p i) else (suc rest.0, rest.1)

-- The nucleus of a list of tokens, and its `cum`.
unfoldable pub nucleus : (ℕ → ℕ) → ℕ → List ℕ → List ℕ × ℕ
nucleus p top_p idx = let found = walk p top_p idx 0 in (take found.0 idx, found.1)

-- The body of the loop that widens the window, for `k` tokens; `wider` is what the next round finds.
unfoldable pub widen_at : (ℕ → ℕ) → ℕ → ℕ → ℕ → List ℕ × ℕ → List ℕ × ℕ
widen_at p top_p vocab k wider =
    let idx = window p vocab k in
    let keep = (walk p top_p idx 0).0 in
    if ltb keep k || k == vocab then nucleus p top_p idx else wider

-- The loop.
unfoldable pub widen : ℕ → (ℕ → ℕ) → ℕ → ℕ → ℕ → List ℕ × ℕ
widen zero p top_p vocab k = ([], 0)
widen (suc fuel) p top_p vocab k =
    let k' = if leb vocab k then vocab else k in
    let wider = widen fuel p top_p vocab (k' * 4) in widen_at p top_p vocab k' wider

-- `for (...) { r -= p; if (r <= 0) return i; }`, and the last index.
unfoldable pub pick : (ℕ → ℕ) → List ℕ → ℕ → ℕ → ℕ
pick p [] r last = last
pick p (i ∷ idx) r last = let rest = pick p idx (r - p i) i in if leb r (p i) then i else rest

unfoldable pub sample_nucleus : (ℕ → ℕ) → ℕ → ℕ → (ℕ → ℕ) → ℕ
sample_nucleus p top_p vocab draw =
    let (kept, cum) = widen (suc vocab) p top_p vocab 64 in pick p kept (draw cum) 0

-- What the parameters of a request ask for.
pub record Choice : Type 0 where
  pub greedy : Bool
  pub softmax : (ℕ → ℕ) → ℕ → ℕ
  -- `none` is 1 or more
  pub top_p : Option ℕ
  pub draw : ℕ → ℕ
  -- the sum of all probabilities
  pub total : ℕ

-- The part of `sample` for a request that is not greedy.
unfoldable pub sample_random : (ℕ → ℕ) → ℕ → (ℕ → ℕ) → ℕ → Option ℕ → ℕ
sample_random p vocab draw total none = pick p (iota 0 vocab) (draw total) 0
sample_random p vocab draw total (some top_p) = sample_nucleus p top_p vocab draw

unfoldable pub sample : (ℕ → ℕ) → ℕ → Choice → ℕ
sample logits vocab c =
    if c.greedy
    then argmax logits vocab
    else sample_random (c.softmax logits) vocab c.draw c.total c.top_p

-- The rows of logits, from `row` on, and what each sequence asks for at its row.
unfoldable pub sample_rows : (ℕ → ℕ → ℕ) → ℕ → (ℕ → ℕ → Choice) → ℕ → List StepSlice → List ℕ
sample_rows logits vocab choice row [] = []
sample_rows logits vocab choice row (sl ∷ slices) =
    let here = sample_rows logits vocab choice (suc row) slices in
    let skipped = sample_rows logits vocab choice row slices in
    if sl.needs_logits then sample (logits row) vocab (choice row sl.seq) ∷ here else skipped
