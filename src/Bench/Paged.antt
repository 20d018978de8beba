-- ===== src/Bench/Paged.antt =====
-- bench/kv_waste.cpp, `run_paged`: the loop that drives the scheduler. The sequences that it makes, with
-- random tokens, are an argument.
use llm_engine.Base.{
  ℕ, zero, suc, ◌+◌, ◌*◌, Bool, false, List, [], ◌∷◌, ◌++◌, if◌then◌else◌, ltb, ◌==◌, ◌&&◌, not,
  length, Checked, ok, ◌>>=◌,
}
use llm_engine.Sequence.{Sequence, StepInput, num_tokens}
use llm_engine.KvCache.{fresh_pool}
use llm_engine.Scheduler.Defs.{Scheduler, SchedulerConfig, add}
use llm_engine.Scheduler.Step.{schedule}
use llm_engine.Scheduler.Done.{on_step_done}
use llm_engine.Scheduler.Runs.{start}
use llm_engine.Engine.Loop.{has_work}

pub record Paged : Type 0 where
  pub sched : Scheduler
  pub idle_steps : ℕ
  -- `used` and `allocated` of each step
  pub util : List (ℕ × ℕ)
  pub resident_sum : ℕ
  pub active_sum : ℕ
  pub peak_resident : ℕ
  pub steps : ℕ
  -- the loop was left
  pub stalled : Bool

-- `used` and `allocated`.
unfoldable pub residents : Scheduler → ℕ → List ℕ → ℕ × ℕ
residents s block_size [] = (0, 0)
residents s block_size (p ∷ ps) =
    let (used, allocated) = residents s block_size ps in
    (num_tokens (s.seqs p) + used, length (s.seqs p).block_table.blocks * block_size + allocated)

unfoldable pub count_round : ℕ → StepInput → Scheduler → Paged → Paged
count_round block_size step s r =
    let n = length s.running in
    let (used, allocated) = residents s block_size s.running in
    record r {
      sched = s;
      idle_steps = 0;
      util = if ltb 0 allocated then r.util ++ ((used, allocated) ∷ []) else r.util;
      resident_sum = r.resident_sum + n;
      active_sum = r.active_sum + step.num_decode_tokens;
      peak_resident = if ltb r.peak_resident n then n else r.peak_resident;
      steps = suc r.steps;
    }

abbrev pub same_tokens : ℕ → List ℕ
same_tokens zero = []
same_tokens (suc n) = 42 ∷ same_tokens n

-- The body of the loop.
unfoldable pub paged_round : ℕ → ℕ → Paged → Checked Paged
paged_round block_size now r = schedule now r.sched >>= λ (step, s).
    let r' = count_round block_size step s r in
    let done = on_step_done now step (same_tokens step.num_logits) s >>= λ s'.
    ok (record r' { sched = s' }) in
    if length step.slices == 0
    then ok (record r {
      sched = s;
      idle_steps = suc r.idle_steps;
      stalled = ltb 1000 (suc r.idle_steps);
    })
    else done

-- The first rounds of the loop, as many as are asked for.
unfoldable pub paged_rounds : ℕ → ℕ → (ℕ → ℕ) → Paged → Checked Paged
paged_rounds zero block_size clock r = ok r
paged_rounds (suc n) block_size clock r =
    let more = paged_round block_size (clock n) r >>= λ r'. paged_rounds n block_size clock r' in
    if has_work r.sched && not r.stalled then more else ok r

unfoldable pub add_all : Scheduler → ℕ → List ℕ → Scheduler
add_all s now [] = s
add_all s now (p ∷ ps) = add_all (add s now p) now ps

-- The requests are `ps`, in the order in which they are made.
unfoldable pub run_paged :
    ℕ → ℕ → ℕ → Bool → (ℕ → ℕ) → SchedulerConfig → (ℕ → Sequence) → List ℕ → Checked Paged
run_paged n num_blocks block_size prefix_caching clock cfg seqs ps =
    let sch = start cfg (fresh_pool num_blocks block_size prefix_caching) seqs in
    paged_rounds n block_size clock record {
      sched = add_all sch (clock n) ps;
      idle_steps = 0;
      util = [];
      resident_sum = 0;
      active_sum = 0;
      peak_resident = 0;
      steps = 0;
      stalled = false;
    }
