-- ===== src/Engine/Limits.antt =====
-- src/api/engine.cpp, `validate`: the limits on a request's tokens.
use llm_engine.Base.{ℕ, ◌+◌, ◌-◌, ◌*◌, ◌≤◌, ◌<◌, ◌≡◌, ◌↔◌, arith}
use native.Mathlib.Nat.{div-lt_iff_lt-mul}
use llm_engine.KvCache.{KvCacheManager, blocks_needed}
use llm_engine.Sequence.{SamplingParams}
use llm_engine.Engine.Defs.{Verdict, validate}

-- The tokens that fit a pool are those whose blocks it has.
blocks_needed_iff : (n bs blocks : ℕ) → 0 < bs → (n ≤ blocks * bs) ↔ (blocks_needed n bs ≤ blocks)
unfolding blocks_needed
blocks_needed_iff n bs blocks pos =
    let (up, down) = div-lt_iff_lt-mul {k = bs} {x = n + bs - 1} {y = blocks + 1} pos in
    ((λ h. omega (arith, down (grind (arith, h)))), (λ h. grind (arith, up (omega (arith, h)))))

-- A prompt and the tokens that it may generate fit the pool and the model's context.
abbrev pub Fits : KvCacheManager → ℕ → ℕ → ℕ → Type 0
Fits kv model_max prompt_tokens max_tokens =
    (0 < prompt_tokens)
    × (0 < max_tokens)
    × (blocks_needed (prompt_tokens + max_tokens) kv.block_size ≤ kv.num_blocks)
    × (prompt_tokens + max_tokens ≤ model_max)

-- For a pool of positive block size, `validate` finds no reason against a request exactly if the
-- prompt is not empty, `max_tokens` is positive, the pool has the blocks for the prompt and all
-- tokens that may be generated, and the model's context holds them.
pub validate-Fits :
    (kv : KvCacheManager) (model_max prompt_tokens : ℕ) (params : SamplingParams)
    → 0 < kv.block_size
    → (validate kv model_max prompt_tokens params ≡ Verdict.runs)
      ↔ Fits kv model_max prompt_tokens params.max_tokens
unfolding validate
validate-Fits kv model_max p params pos =
    let (up, down) = blocks_needed_iff (p + params.max_tokens) kv.block_size kv.num_blocks pos in
    ((λ e. ground (arith, up)), (λ (a, b, c, d). ground (arith, down c)))
