-- ===== src/Metrics/Tests.antt =====
-- A small histogram.
use llm_engine.Base.{ℕ, ◌≡◌, refl, List, [], ◌∷◌, length, arith}
use llm_engine.Metrics.Histogram.{
  histogram, bucket_of, increment, observe, bucket_lines, line_inf, render,
}
use llm_engine.Metrics.Counts.{at_most, observe_all, lines_by, render-observe_all}

abbrev bounds : List ℕ
bounds = 5 ∷ 10 ∷ 25 ∷ []

abbrev values : List ℕ
values = 7 ∷ 5 ∷ 30 ∷ 10 ∷ []

counted : (observe_all (histogram bounds) values).counts ≡ 1 ∷ 2 ∷ 0 ∷ 1 ∷ []
unfolding observe_all histogram observe bucket_of increment
counted = refl

printed : (render (observe_all (histogram bounds) values)).lines ≡ (5, 1) ∷ (10, 3) ∷ (25, 3) ∷ []
unfolding observe_all histogram observe bucket_of increment render bucket_lines line_inf
printed = refl

render-observe_all_example : render (observe_all (histogram bounds) values) ≡ record {
  lines = lines_by (λ b. at_most b values) bounds;
  inf = length values;
  count_line = length values;
}
render-observe_all_example =
    render-observe_all bounds values
      ((omega arith, (omega arith, tt)), ((omega arith, tt), (tt, tt)))
