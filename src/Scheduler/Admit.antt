-- ===== src/Scheduler/Admit.antt =====
-- src/scheduler/scheduler.cpp, `Scheduler::admit_one`.
use llm_engine.Base.{
  ℕ, zero, suc, ◌+◌, ◌-◌, Bool, true, false, List, [], ◌∷◌, ◌++◌, none, some, min, max, Checked, ok,
  assert_failed, ◌>>=◌, ◌>>◌, assert, if◌then◌else◌, ltb, leb, ◌==◌, not, ◌||◌, update, length,
  get_elem?,
}
use llm_engine.KvCache.{BlockTable, is_empty, allocate_prompt}
use llm_engine.Sequence.{Sequence, SeqStatus, StepInput, num_tokens}
use llm_engine.Scheduler.Defs.{Scheduler, put_seq, put_table, add_prefill_slice, admission_fits}

-- What `admit_one` changes: the scheduler, the step under construction and the budget.
pub record Progress : Type 0 where
  pub sched : Scheduler
  pub step : StepInput
  pub budget : ℕ

-- `waiting_.erase(waiting_.begin() + i)`
unfoldable pub remove_at : ℕ → List ℕ → List ℕ
remove_at i [] = []
remove_at zero (p ∷ ps) = ps
remove_at (suc i) (p ∷ ps) = p ∷ remove_at i ps

abbrev pub chunk_len : Progress → ℕ → ℕ
chunk_len w p =
    let q = w.sched.seqs p in
    min (num_tokens q - q.num_computed) (min w.budget w.sched.cfg.prefill_chunk_size)

-- The queues and counters once the sequence at position `i` has its slice.
abbrev pub enter : Scheduler → ℕ → ℕ → Scheduler
enter s i p = record (put_seq s p (record (s.seqs p) { status = SeqStatus.running })) {
  waiting = remove_at i s.waiting;
  running = s.running ++ (p ∷ []);
  stats = record (s.stats) {
    admitted = s.stats.admitted + 1;
    max_wait_steps = max s.stats.max_wait_steps (s.seqs p).wait_steps;
  };
}

-- A sequence that holds its blocks gets its first chunk and leaves the queue, unless the chunk is
-- empty.
unfoldable pub start_chunk : Progress → ℕ → ℕ → Bool × Progress
start_chunk w i p =
    let len = chunk_len w p in
    if len == 0 then (false, w) else (
      true,
      record {
        sched = enter w.sched i p;
        step = add_prefill_slice w.sched w.step p len;
        budget = w.budget - len;
      },
    )

-- The sequence with its new table: `cached` tokens need not be computed.
abbrev pub schedule_first : Sequence → BlockTable → ℕ → ℕ → Sequence
schedule_first q bt now cached = record q {
  block_table = bt;
  num_computed = min cached (num_tokens q - 1);
  t_first_scheduled = if q.t_first_scheduled == 0 then now else q.t_first_scheduled;
}

-- `waiting_[i]` has no blocks: `none` if it cannot be admitted now. The empty prompt, for which the
-- source would compute from position -1, is taken for a failed assertion.
unfoldable pub allocate_for : Scheduler → ℕ → ℕ → Checked (Bool × Scheduler)
allocate_for s now p = if not (admission_fits s p) then ok (false, s) else do
  (cached, kv, bt) ← allocate_prompt s.kv (s.seqs p).block_table (s.seqs p).tokens
  elim cached [
    | none ↦ ok (false, put_table s p kv bt)
    | some n ↦ do
      assert (ltb 0 (num_tokens (s.seqs p)))
      ok (true, record s { kv = kv; seqs = update s.seqs p (schedule_first (s.seqs p) bt now n) })
  ]

-- The sequence at position `i`, once its allocation has been tried; `later` is the rest of the loop.
unfoldable pub admit_allocated :
    Progress
    → ℕ
    → ℕ
    → (Progress → Checked (Bool × Progress))
    → Bool × Scheduler
    → Checked (Bool × Progress)
admit_allocated w i p later (true, s) = ok (start_chunk (record w { sched = s }) i p)
admit_allocated w i p later (false, s) =
    if leb s.cfg.starvation_wait_steps (s.seqs p).wait_steps
    then ok (false, record w { sched = s })
    else later (record w { sched = s })

-- The loop over positions `i`, `i + 1`, … of the queue.
unfoldable pub admit_scan : ℕ → ℕ → ℕ → Progress → Checked (Bool × Progress)
admit_scan zero now i w = ok (false, w)
admit_scan (suc rounds) now i w = elim (get_elem? w.sched.waiting i) [
  | none ↦ ok (false, w)
  | some p ↦ if not (is_empty (w.sched.seqs p).block_table) then ok (start_chunk w i p) else do
    tried ← allocate_for w.sched now p
    admit_allocated w i p (λ w'. admit_scan rounds now (i + 1) w') tried
]

abbrev pub lookahead : Scheduler → ℕ
lookahead s =
    if leb s.cfg.admission_lookahead 1 then 1 else min (length s.waiting) s.cfg.admission_lookahead

unfoldable pub admit_one : ℕ → Progress → Checked (Bool × Progress)
admit_one now w =
    if length w.sched.waiting == 0 || w.budget == 0
    then ok (false, w)
    else if leb w.sched.cfg.max_num_seqs (length w.sched.running)
    then ok (false, w)
    else admit_scan (lookahead w.sched) now 0 w

-- `while (admit_one(step, budget)) {}`: each round takes a request off the queue.
unfoldable pub admit_all : ℕ → ℕ → Progress → Checked Progress
admit_all zero now w = assert_failed
admit_all (suc fuel) now w = do
  (admitted, w') ← admit_one now w
  elim admitted [ true ↦ admit_all fuel now w' | false ↦ ok w' ]
