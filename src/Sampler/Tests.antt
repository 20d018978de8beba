-- ===== src/Sampler/Tests.antt =====
-- Tokens that are drawn from small vocabularies.
use mathlib.Core.Option.{some-injective}
use llm_engine.Base.{
  ℕ, ◌<◌, ◌≡◌, refl, Bool, true, false, List, [], ◌∷◌, some, if◌then◌else◌, ◌==◌, subst, arith,
}
use llm_engine.Sequence.{StepSlice}
use llm_engine.Sampler.Defs.{
  argmax, argmax_from, sort_by, iota, window, walk, nucleus, widen_at, widen, pick, sample_nucleus,
  Choice, sample, sample_random, sample_rows,
}
use llm_engine.Sampler.Nucleus.{order}
use llm_engine.Sampler.Steps.{Rows, PositiveTop, sample_nucleus-nucleus, sample_rows-Rows}

-- The probabilities of five tokens, in tenths.
weights : ℕ → ℕ
weights i = if i == 1 then 4 else if i == 3 then 3 else 1

-- The two most probable tokens hold 7 tenths.
two_kept : nucleus weights 6 (order weights 5) ≡ (1 ∷ 3 ∷ [], 7)
unfolding nucleus order sort_by walk iota weights
two_kept = refl

ties : order weights 5 ≡ 1 ∷ 3 ∷ 0 ∷ 2 ∷ 4 ∷ []
unfolding order sort_by iota weights
ties = refl

drawn_second : sample_nucleus weights 6 5 (λ cum. 5) ≡ 3
unfolding sample_nucleus widen widen_at nucleus walk window sort_by iota pick weights
drawn_second = refl

-- Sequence 0 is greedy.
abbrev choices : ℕ → ℕ → Choice
choices row s = record {
  greedy = s == 0;
  softmax = λ l. l;
  top_p = some 6;
  draw = λ cum. 5;
  total = 10;
}

choices-PositiveTop : (row s : ℕ) → PositiveTop (choices row s)
choices-PositiveTop row s = λ t e. subst (λ n. 0 < n) (some-injective 6 t e) (omega arith)

abbrev slice : ℕ → Bool → StepSlice
slice s need = record { seq = s; start = 0; len = 1; needs_logits = need; is_prefill = false }

abbrev slices : List StepSlice
slices = slice 0 true ∷ slice 1 false ∷ slice 1 true ∷ []

two_rows : sample_rows (λ row. weights) 5 choices 0 slices ≡ 1 ∷ 3 ∷ []
unfolding sample_rows sample sample_random argmax sample_nucleus argmax_from widen widen_at nucleus
    walk window sort_by iota pick weights
two_rows = refl

sample_nucleus-nucleus_example :
    sample_nucleus weights 6 5 (λ cum. 5) ≡ pick weights (nucleus weights 6 (order weights 5)).0 5 0
sample_nucleus-nucleus_example = sample_nucleus-nucleus weights 6 5 (λ cum. 5)

sample_rows-Rows_example :
    Rows (λ row. weights) 5 choices 0 slices (sample_rows (λ row. weights) 5 choices 0 slices)
sample_rows-Rows_example =
    sample_rows-Rows (λ row. weights) 5 choices 0 slices (omega arith) choices-PositiveTop
