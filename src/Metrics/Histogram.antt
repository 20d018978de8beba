-- ===== src/Metrics/Histogram.antt =====
-- include/engine/metrics.h and src/api/metrics.cpp, `Histogram`: its bounds and values are numbers of some
-- unit, and what `render` prints is a record of the counts in the text. The line for the sum, which rounds it to
-- six digits, is left out.
use llm_engine.Base.{ℕ, zero, suc, ◌+◌, List, [], ◌∷◌, if◌then◌else◌, ltb, length}

pub record Histogram : Type 0 where
  pub buckets : List ℕ
  pub counts : List ℕ
  pub sum : ℕ
  pub count : ℕ

abbrev pub zeros : ℕ → List ℕ
zeros zero = []
zeros (suc n) = 0 ∷ zeros n

unfoldable pub histogram : List ℕ → Histogram
histogram buckets = record {
  buckets = buckets;
  counts = zeros (suc (length buckets));
  sum = 0;
  count = 0;
}

-- `i` after the loop of `observe`.
unfoldable pub bucket_of : List ℕ → ℕ → ℕ
bucket_of [] v = 0
bucket_of (b ∷ bs) v = let next = bucket_of bs v in if ltb b v then suc next else 0

-- `counts_[i]++`.
unfoldable pub increment : ℕ → List ℕ → List ℕ
increment i [] = []
increment zero (c ∷ cs) = suc c ∷ cs
increment (suc i) (c ∷ cs) = c ∷ increment i cs

unfoldable pub observe : Histogram → ℕ → Histogram
observe h v = record h {
  counts = increment (bucket_of h.buckets v) h.counts;
  sum = h.sum + v;
  count = suc h.count;
}

-- The lines `_bucket{le="..."}`, from `cum` on: the bound and the number.
unfoldable pub bucket_lines : ℕ → List ℕ → List ℕ → List (ℕ × ℕ)
bucket_lines cum [] cs = []
bucket_lines cum (b ∷ bs) [] = []
bucket_lines cum (b ∷ bs) (c ∷ cs) = (b, cum + c) ∷ bucket_lines (cum + c) bs cs

-- The number in the line for `+Inf`: `cum`, and then what is counted last.
unfoldable pub line_inf : ℕ → List ℕ → ℕ
line_inf cum [] = cum
line_inf cum (c ∷ cs) = line_inf (cum + c) cs

pub record Page : Type 0 where
  pub lines : List (ℕ × ℕ)
  pub inf : ℕ
  pub count_line : ℕ

unfoldable pub render : Histogram → Page
render h = record {
  lines = bucket_lines 0 h.buckets h.counts;
  inf = line_inf 0 h.counts;
  count_line = h.count;
}
