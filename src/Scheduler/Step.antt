-- ===== src/Scheduler/Step.antt =====
-- src/scheduler/scheduler.cpp, `Scheduler::schedule`.
use llm_engine.Base.{
  ℕ, zero, suc, ◌+◌, ◌-◌, Bool, true, false, List, [], ◌∷◌, ◌++◌, none, some, Checked, ok,
  assert_failed, ◌>>=◌, if◌then◌else◌, ltb, leb, ◌==◌, not, ◌&&◌, ◌||◌, update, length, get_elem?,
  take,
}
use llm_engine.KvCache.{ensure_slot}
use llm_engine.Sequence.{
  Sequence, FinishReason, StepInput, StepSlice, num_tokens, is_finished, prefill_done, empty_step,
}
use llm_engine.KvCache.{is_empty}
use llm_engine.Scheduler.Defs.{
  Scheduler, put_table, add_prefill_slice, evict_for_memory, forget, retire,
}
use llm_engine.Scheduler.Admit.{Progress, chunk_len, remove_at, admit_all}

-- The resident sequences that compute more than one token next.
unfoldable pub mid_prefill : (ℕ → Sequence) → List ℕ → List ℕ
mid_prefill seqs [] = []
mid_prefill seqs (p ∷ ps) =
    if is_finished (seqs p) || prefill_done (seqs p)
    then mid_prefill seqs ps
    else p ∷ mid_prefill seqs ps

-- Those that decode.
unfoldable pub decoding : (ℕ → Sequence) → List ℕ → List ℕ
decoding seqs [] = []
decoding seqs (p ∷ ps) =
    if not (is_finished (seqs p)) && prefill_done (seqs p)
    then p ∷ decoding seqs ps
    else decoding seqs ps

-- The scheduler, and the two candidate lists of a step.
pub record Candidates : Type 0 where
  pub sched : Scheduler
  pub prefill : List ℕ
  pub decode : List ℕ

unfoldable pub split_resident : Scheduler → Candidates
split_resident s = record {
  sched = s;
  prefill = mid_prefill s.seqs s.running;
  decode = decoding s.seqs s.running;
}

-- The body of the loop over `decode` at position `i`, for sequence `p`: a slot for its next token,
-- or a victim; and the next position.
unfoldable pub place : Candidates → ℕ → ℕ → Checked (ℕ × Candidates)
place c i p = do
  (fits, kv, bt) ← ensure_slot c.sched.kv (c.sched.seqs p).block_table (num_tokens (c.sched.seqs p))
  let s = put_table c.sched p kv bt
  if fits then ok (i + 1, record c { sched = s }) else do
    evicted ← evict_for_memory s
    elim evicted [
      | some (victim, s') ↦ ok (
        i,
        record { sched = s'; prefill = forget victim c.prefill; decode = forget victim c.decode },
      )
      | none ↦ ok (i, record c { sched = s; decode = remove_at i c.decode })
    ]

-- `for (i = 0; i < decode.size();)`.
unfoldable pub place_all : ℕ → ℕ → Candidates → Checked Candidates
place_all zero i c = assert_failed
place_all (suc fuel) i c = elim (get_elem? c.decode i) [
  | none ↦ ok c
  | some p ↦ do (i', c') ← place c i p; place_all fuel i' c'
]

-- The prefill chunk of one sequence that is part-way through its prompt.
unfoldable pub add_chunk : Progress → ℕ → Progress
add_chunk w p =
    let len = chunk_len w p in
    if len == 0
    then w
    else record w { step = add_prefill_slice w.sched w.step p len; budget = w.budget - len }

unfoldable pub add_chunks : List ℕ → Progress → Progress
add_chunks [] w = w
add_chunks (p ∷ ps) w = add_chunks ps (add_chunk w p)

-- Who has waited past the deadline and holds no blocks.
unfoldable pub is_expired : Scheduler → ℕ → ℕ → Bool
is_expired s now p =
    ltb s.cfg.max_queue_wait (now - (s.seqs p).t_arrival) && is_empty (s.seqs p).block_table

unfoldable pub expired : Scheduler → ℕ → List ℕ → List ℕ
expired s now [] = []
expired s now (p ∷ ps) = if is_expired s now p then p ∷ expired s now ps else expired s now ps

unfoldable pub patient : Scheduler → ℕ → List ℕ → List ℕ
patient s now [] = []
patient s now (p ∷ ps) = if is_expired s now p then patient s now ps else p ∷ patient s now ps

abbrev pub count_timeout : Scheduler → Scheduler
count_timeout s = record s { stats = record (s.stats) { timed_out = s.stats.timed_out + 1 } }

unfoldable pub retire_expired : List ℕ → ℕ → Scheduler → Checked Scheduler
retire_expired [] now s = ok s
retire_expired (p ∷ ps) now s = do
  s' ← retire (count_timeout s) now p FinishReason.timeout
  retire_expired ps now s'

unfoldable pub abandon_expired : ℕ → Scheduler → Checked Scheduler
abandon_expired now s =
    if s.cfg.max_queue_wait == 0
    then ok s
    else retire_expired (expired s now s.waiting) now
        (record s { waiting = patient s now s.waiting })

-- `for (auto& w : waiting_) w->wait_steps++`
unfoldable pub age : List ℕ → (ℕ → Sequence) → ℕ → Sequence
age [] seqs = seqs
age (p ∷ ps) seqs =
    age ps (update seqs p (record (seqs p) { wait_steps = (seqs p).wait_steps + 1 }))

-- Static batching: the batch is closed once it is full, or memory keeps the next request out.
unfoldable pub close_batch : Progress → Progress
close_batch w =
    let s = w.sched in
    if not s.cfg.continuous
      && not (length s.waiting == 0)
      && (leb s.cfg.max_num_seqs (length s.running)
          || (ltb 0 w.budget && not (length s.running == 0)))
    then record w { sched = record s { static_batch_open = false } }
    else w

-- The head request is larger than the whole pool: nothing runs, and it cannot be admitted.
unfoldable pub reject_head : ℕ → Bool → Scheduler → Checked Scheduler
reject_head now idle s = if not (length s.running == 0) || not idle then ok s else elim s.waiting [
  | [] ↦ ok s
  | p ∷ ps ↦ retire (record s { waiting = ps }) now p FinishReason.abort
]

-- Step 4: deadlines, then admission; `idle` says that nothing decodes.
unfoldable pub admit : ℕ → Bool → Bool → Progress → Checked Progress
admit now may_admit idle w = do
  s ← abandon_expired now w.sched
  if not may_admit then ok (record w { sched = s }) else do
    w' ←
        admit_all (suc (length s.waiting)) now
          (record w { sched = record s { seqs = age s.waiting s.seqs } })
    let closed = close_batch w'
    s' ← reject_head now idle closed.sched
    ok (record closed { sched = s' })

abbrev pub decode_slice : Sequence → ℕ → StepSlice
decode_slice q p = record {
  seq = p;
  start = q.num_computed;
  len = 1;
  needs_logits = true;
  is_prefill = false;
}

-- A decode slice for each sequence.
unfoldable pub add_decodes : (ℕ → Sequence) → List ℕ → StepInput → StepInput
add_decodes seqs [] step = step
add_decodes seqs (p ∷ ps) step = add_decodes seqs ps (record {
  slices = step.slices ++ (decode_slice (seqs p) p ∷ []);
  num_prefill_tokens = step.num_prefill_tokens;
  num_decode_tokens = step.num_decode_tokens + 1;
  num_logits = step.num_logits + 1;
})

-- Static batching: a drained batch reopens.
abbrev pub reopen : Scheduler → Scheduler
reopen s =
    if not s.cfg.continuous && length s.running == 0
    then record s { static_batch_open = true }
    else s

abbrev pub count_step : Scheduler → Scheduler
count_step s = record s { stats = record (s.stats) { steps = s.stats.steps + 1 } }

-- Step 3: the slices of the resident sequences, and the budget that decoding takes.
unfoldable pub build : Candidates → Progress
build c =
    add_chunks c.prefill
      (record { sched = c.sched; step = empty_step; budget = c.sched.cfg.max_num_batched_tokens })

unfoldable pub schedule : ℕ → Scheduler → Checked (StepInput × Scheduler)
schedule now s = do
  let opened = reopen (count_step s)
  let may_admit = opened.cfg.continuous || opened.static_batch_open
  let split = split_resident opened
  c ← place_all (suc (length split.decode + length opened.running)) 0 split
  let w = build c
  let decode = take w.budget c.decode
  w' ← admit now may_admit (length decode == 0) (record w { budget = w.budget - length decode })
  ok (add_decodes w'.sched.seqs decode w'.step, w'.sched)
