-- ===== src/Engine/Sampled.antt =====
-- The sampler (src/model/sampler.cpp) as what the engine's step loop (src/api/engine.cpp) calls after the
-- model's forward pass.
use mathlib.Core.Option.{some-injective}
use llm_engine.Base.{ℕ, ◌≡◌, sym, ap, ◌∙◌, List, Option, some, none, length}
use llm_engine.Sequence.{StepInput, StepSlice}
use llm_engine.Scheduler.Slices.{total_logits}
use llm_engine.Sampler.Defs.{Choice, sample_rows}
use llm_engine.Sampler.Steps.{length-sample_rows}
use llm_engine.Engine.Serve.{OneEach}

-- The forward pass gives the logits of the rows of a step, or throws; the rows are sampled as the requests'
-- parameters say.
unfoldable pub sample_step :
    ℕ → (ℕ → ℕ → Choice) → List StepSlice → Option (ℕ → ℕ → ℕ) → Option (List ℕ)
sample_step vocab choice slices none = none
sample_step vocab choice slices (some logits) = some (sample_rows logits vocab choice 0 slices)

-- The sampler gives one token for each row of logits, whatever the logits and the parameters are.
pub sample_step-OneEach :
    (forward : StepInput → Option (ℕ → ℕ → ℕ)) (vocab : ℕ) (choice : ℕ → ℕ → Choice)
    → OneEach (λ step. sample_step vocab choice step.slices (forward step))
unfolding sample_step
sample_step-OneEach forward vocab choice step toks e = one_each (forward step) e
  where
    one_each :
        (row : Option (ℕ → ℕ → ℕ))
        → sample_step vocab choice step.slices row ≡ some toks
        → length toks ≡ total_logits step.slices
    one_each none given = cc
    one_each (some logits) given =
        ap length (sym (some-injective _ _ given))
        ∙ length-sample_rows logits vocab choice 0 step.slices
