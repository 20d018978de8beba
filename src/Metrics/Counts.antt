-- ===== src/Metrics/Counts.antt =====
-- include/engine/metrics.h and src/api/metrics.cpp, `Histogram`: what the page says of the values.
use llm_engine.Base.{
  ℕ, zero, suc, ◌+◌, ◌≤◌, ◌≡◌, refl, ap, ◌∙◌, true, false, List, [], ◌∷◌, if◌then◌else◌, ltb, leb,
  length, All, arith, Bool-cases, inl, inr,
}
use llm_engine.Metrics.Histogram.{
  Histogram, zeros, histogram, bucket_of, increment, observe, bucket_lines, line_inf, Page, render,
}

-- The values that are no more than a bound.
unfoldable pub at_most : ℕ → List ℕ → ℕ
at_most b [] = 0
at_most b (v ∷ vs) = (if leb v b then 1 else 0) + at_most b vs

unfoldable pub observe_all : Histogram → List ℕ → Histogram
observe_all h [] = h
observe_all h (v ∷ vs) = observe_all (observe h v) vs

-- Lines of the page by what they count.
unfoldable pub lines_by : (ℕ → ℕ) → List ℕ → List (ℕ × ℕ)
lines_by f [] = []
lines_by f (b ∷ bs) = (b, f b) ∷ lines_by f bs

line-ap : (b : ℕ) {m n : ℕ} {ls ks : List (ℕ × ℕ)} → m ≡ n → ls ≡ ks → (b, m) ∷ ls ≡ (b, n) ∷ ks
line-ap b e f = rw (e, f) refl

lines_by-ap : (f g : ℕ → ℕ) (bs : List ℕ) → ((b : ℕ) → f b ≡ g b) → lines_by f bs ≡ lines_by g bs
unfolding lines_by
lines_by-ap f g [] same = refl
lines_by-ap f g (b ∷ bs) same = line-ap b (same b) (lines_by-ap f g bs same)

abbrev pub Ascending : List ℕ → Type 0
Ascending [] = Unit
Ascending (b ∷ bs) = All (λ c. b ≤ c) bs × Ascending bs

-- Lines, after one more value.
unfoldable added : ℕ → List (ℕ × ℕ) → List (ℕ × ℕ)
added v [] = []
added v ((b, n) ∷ ls) = (b, n + (if leb v b then 1 else 0)) ∷ added v ls

added-lines_by :
    (v : ℕ) (f : ℕ → ℕ) (bs : List ℕ)
    → added v (lines_by f bs) ≡ lines_by (λ b. f b + (if leb v b then 1 else 0)) bs
unfolding added lines_by
added-lines_by v f [] = refl
added-lines_by v f (b ∷ bs) =
    ap (λ l. (b, f b + (if leb v b then 1 else 0)) ∷ l) (added-lines_by v f bs)

-- One more value before bounds that are all above it.
added-above :
    (v cum : ℕ) (bs cs : List ℕ)
    → All (λ b. v ≤ b) bs
    → bucket_lines (suc cum) bs cs ≡ added v (bucket_lines cum bs cs)
unfolding bucket_lines added
added-above v cum [] cs above = refl
added-above v cum (b ∷ bs) [] above = refl
added-above v cum (b ∷ bs) (c ∷ cs) (ab, above) =
    let e : leb v b ≡ true = ground arith in
    let n : suc cum + c ≡ suc (cum + c) = omega arith in
    let n' : suc (cum + c) ≡ cum + c + 1 = omega arith in
    rw (e, n) (line-ap b n' (added-above v (cum + c) bs cs above))

All-above : (v b : ℕ) (bs : List ℕ) → v ≤ b → All (λ c. b ≤ c) bs → All (λ c. v ≤ c) bs
All-above v b [] h a = tt
All-above v b (x ∷ bs) h (a, rest) = (omega arith, All-above v b bs h rest)

-- Counting a value in its bucket adds it to the lines of the bounds that are not below it.
bucket_lines-increment :
    (v cum : ℕ) (bs cs : List ℕ)
    → Ascending bs
    → bucket_lines cum bs (increment (bucket_of bs v) cs) ≡ added v (bucket_lines cum bs cs)
unfolding bucket_lines added increment bucket_of
bucket_lines-increment v cum [] cs asc = refl
bucket_lines-increment v cum (b ∷ bs) [] asc = refl
bucket_lines-increment v cum (b ∷ bs) (c ∷ cs) (above, asc) = elim (Bool-cases (ltb b v)) [
  | inl past ↦
      let e : leb v b ≡ false = ground arith in
      let n : cum + c ≡ cum + c + 0 = omega arith in
      rw (past, e) (line-ap b n (bucket_lines-increment v (cum + c) bs cs asc))
  | inr here ↦
      let e : leb v b ≡ true = ground arith in
      let n : cum + suc c ≡ suc (cum + c) = omega arith in
      let n' : suc (cum + c) ≡ cum + c + 1 = omega arith in
      rw (here, e, n)
        (line-ap b n'
          (added-above v (cum + c) bs cs (All-above v b bs (ground (arith, here)) above)))
]

lines_by-observe_all :
    (h : Histogram) (f : ℕ → ℕ) (vs : List ℕ)
    → Ascending h.buckets
    → bucket_lines 0 h.buckets h.counts ≡ lines_by f h.buckets
    → bucket_lines 0 h.buckets (observe_all h vs).counts
      ≡ lines_by (λ b. f b + at_most b vs) h.buckets
unfolding observe_all at_most observe
lines_by-observe_all h f [] asc e = e ∙ lines_by-ap f (λ b. f b + 0) h.buckets (λ b. omega arith)
lines_by-observe_all h f (v ∷ vs) asc e =
    let g : ℕ → ℕ = λ b. f b + (if leb v b then 1 else 0) in
    let one =
      bucket_lines-increment v 0 h.buckets h.counts asc
      ∙ ap (added v) e
      ∙ added-lines_by v f h.buckets in
    lines_by-observe_all (observe h v) g vs asc one
    ∙ lines_by-ap (λ b. g b + at_most b vs) (λ b. f b + ((if leb v b then 1 else 0) + at_most b vs))
        h.buckets (λ b. omega arith)

buckets-observe_all : (h : Histogram) (vs : List ℕ) → (observe_all h vs).buckets ≡ h.buckets
unfolding observe_all observe
buckets-observe_all h [] = refl
buckets-observe_all h (v ∷ vs) = buckets-observe_all (observe h v) vs

count-observe_all : (h : Histogram) (vs : List ℕ) → (observe_all h vs).count ≡ h.count + length vs
unfolding observe_all observe
count-observe_all h [] = omega arith
count-observe_all h (v ∷ vs) = omega (arith, count-observe_all (observe h v) vs)

line_inf-suc : (cum : ℕ) (cs : List ℕ) → line_inf (suc cum) cs ≡ suc (line_inf cum cs)
unfolding line_inf
line_inf-suc cum [] = refl
line_inf-suc cum (c ∷ cs) =
    let n : suc cum + c ≡ suc (cum + c) = omega arith in rw n (line_inf-suc (cum + c) cs)

-- There is one more count than bounds, so that every value is counted.
line_inf-increment :
    (v cum : ℕ) (bs cs : List ℕ)
    → length cs ≡ suc (length bs)
    → line_inf cum (increment (bucket_of bs v) cs) ≡ suc (line_inf cum cs)
unfolding line_inf increment bucket_of
line_inf-increment v cum bs [] len = absurd (omega arith)
line_inf-increment v cum [] (c ∷ cs) len =
    let n : cum + suc c ≡ suc (cum + c) = omega arith in rw n (line_inf-suc (cum + c) cs)
line_inf-increment v cum (b ∷ bs) (c ∷ cs) len = elim (Bool-cases (ltb b v)) [
  | inl past ↦ rw past (line_inf-increment v (cum + c) bs cs (omega arith))
  | inr here ↦
      let n : cum + suc c ≡ suc (cum + c) = omega arith in rw (here, n) (line_inf-suc (cum + c) cs)
]

length-increment : (i : ℕ) (cs : List ℕ) → length (increment i cs) ≡ length cs
unfolding increment
length-increment i [] = refl
length-increment zero (c ∷ cs) = refl
length-increment (suc i) (c ∷ cs) = omega (arith, length-increment i cs)

line_inf-observe_all :
    (h : Histogram) (vs : List ℕ)
    → length h.counts ≡ suc (length h.buckets)
    → line_inf 0 (observe_all h vs).counts ≡ line_inf 0 h.counts + length vs
unfolding observe_all observe
line_inf-observe_all h [] len = omega arith
line_inf-observe_all h (v ∷ vs) len =
    let len' = length-increment (bucket_of h.buckets v) h.counts ∙ len in
    omega (
      arith,
      line_inf-observe_all (observe h v) vs len',
      line_inf-increment v 0 h.buckets h.counts len,
    )

lines-zeros : (bs : List ℕ) → bucket_lines 0 bs (zeros (suc (length bs))) ≡ lines_by (λ b. 0) bs
unfolding bucket_lines lines_by
lines-zeros [] = refl
lines-zeros (b ∷ bs) = ap (λ l. (b, 0) ∷ l) (lines-zeros bs)

line_inf-zeros : (n : ℕ) → line_inf 0 (zeros n) ≡ 0
unfolding line_inf
line_inf-zeros zero = refl
line_inf-zeros (suc n) = line_inf-zeros n

length-zeros : (n : ℕ) → length (zeros n) ≡ n
length-zeros zero = refl
length-zeros (suc n) = ap suc (length-zeros n)

page-ap :
    {l l' : List (ℕ × ℕ)} {i i' c c' : ℕ}
    → l ≡ l'
    → i ≡ i'
    → c ≡ c'
    → let page : Page = record { lines = l; inf = i; count_line = c } in
      page ≡ record { lines = l'; inf = i'; count_line = c' }
page-ap e f g = rw (e, f, g) refl

-- The page of a histogram whose bounds ascend says, for each bound, how many of the values observed
-- so far are no more than it, and in all how many there are, both in the line for `+Inf` and in the
-- count.
pub render-observe_all :
    (bs vs : List ℕ)
    → Ascending bs
    → render (observe_all (histogram bs) vs)
      ≡ record { lines = lines_by (λ b. at_most b vs) bs; inf = length vs; count_line = length vs }
unfolding render histogram
render-observe_all bs vs asc =
    let h = histogram bs in
    let seen = observe_all h vs in
    let lines =
      lines_by-observe_all h (λ b. 0) vs asc (lines-zeros bs)
      ∙ lines_by-ap (λ b. 0 + at_most b vs) (λ b. at_most b vs) bs (λ b. omega arith) in
    page-ap (ap (λ l. bucket_lines 0 l seen.counts) (buckets-observe_all h vs) ∙ lines)
      (omega (
        arith,
        line_inf-observe_all h vs (length-zeros (suc (length bs))),
        line_inf-zeros (suc (length bs)),
      ))
      (omega (arith, count-observe_all h vs))
