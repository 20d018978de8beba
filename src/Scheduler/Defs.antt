-- ===== src/Scheduler/Defs.antt =====
-- include/engine/scheduler.h and src/scheduler/scheduler.cpp: the state, and the operations on single
-- requests.
--
-- `seqs` is the store of the shared `Sequence` objects; the queues hold pointers. Each call of the
-- clock gets the time `now` of the step. A call of a sequence's callback is an entry of `events`.
use llm_engine.Base.{
  ℕ, ◌+◌, ◌/◌, Bool, true, false, List, [], ◌∷◌, ◌++◌, Option, none, some, Checked, ok, ◌>>=◌,
  if◌then◌else◌, leb, ◌==◌, update, length,
}
use llm_engine.KvCache
use llm_engine.KvCache.{
  KvCacheManager, BlockTable, num_available_blocks, blocks_needed, lookup_cached_prefix,
}
use llm_engine.Sequence.{
  Sequence, SeqStatus, FinishReason, StepSlice, StepInput, num_tokens, is_finished,
}

pub record SchedulerConfig : Type 0 where
  pub continuous : Bool
  pub max_num_seqs : ℕ
  pub max_num_batched_tokens : ℕ
  pub prefill_chunk_size : ℕ
  pub admission_lookahead : ℕ
  pub starvation_wait_steps : ℕ
  -- 0 disables the deadline
  pub max_queue_wait : ℕ
  -- `none` is a negative number: one block per resident sequence
  pub watermark_blocks : Option ℕ

pub record SchedulerStats : Type 0 where
  pub steps : ℕ
  pub preemptions : ℕ
  pub admitted : ℕ
  pub finished : ℕ
  pub timed_out : ℕ
  pub recomputed_tokens : ℕ
  pub max_wait_steps : ℕ

-- A call `on_token(seq, token, reason)`; `none` is the token -1.
pub record Event : Type 0 where
  pub seq : ℕ
  pub token : Option ℕ
  pub reason : FinishReason

pub record Scheduler : Type 0 where
  pub cfg : SchedulerConfig
  pub kv : KvCacheManager
  pub seqs : ℕ → Sequence
  pub waiting : List ℕ
  pub running : List ℕ
  pub static_batch_open : Bool
  pub stats : SchedulerStats
  pub events : List Event

abbrev pub put_seq : Scheduler → ℕ → Sequence → Scheduler
put_seq s p q = record s { seqs = update s.seqs p q }

-- A write of the pool and of a sequence's table.
abbrev pub put_table : Scheduler → ℕ → KvCacheManager → BlockTable → Scheduler
put_table s p kv bt = record s {
  kv = kv;
  seqs = update s.seqs p (record (s.seqs p) { block_table = bt });
}

-- `if (s->on_token) s->on_token(*s, token, reason)`
abbrev pub notify : Scheduler → ℕ → Option ℕ → FinishReason → Scheduler
notify s p token reason =
    let event : Event = record { seq = p; token = token; reason = reason } in
    record s { events = s.events ++ (if (s.seqs p).on_token then event ∷ [] else []) }

unfoldable pub add : Scheduler → ℕ → ℕ → Scheduler
add s now p =
    record (put_seq s p (record (s.seqs p) { status = SeqStatus.waiting; t_arrival = now })) {
      waiting = s.waiting ++ (p ∷ []);
    }

abbrev pub count_finished : Scheduler → Scheduler
count_finished s = record s { stats = record (s.stats) { finished = s.stats.finished + 1 } }

-- `kv_.free(s->block_table)`
unfoldable pub free_table : Scheduler → ℕ → Checked Scheduler
free_table s p = do (kv, bt) ← KvCache.free s.kv (s.seqs p).block_table; ok (put_table s p kv bt)

abbrev pub mark_finished : Sequence → ℕ → FinishReason → Sequence
mark_finished q now r = record q { status = SeqStatus.finished; finish = r; t_finish = now }

unfoldable pub retire : Scheduler → ℕ → ℕ → FinishReason → Checked Scheduler
retire s now p r = do
  s' ← free_table (put_seq s p (mark_finished (s.seqs p) now r)) p
  ok (notify (count_finished s') p none r)

-- The first pointer whose sequence has the id, and the list without it.
unfoldable pub take_id : (ℕ → Sequence) → ℕ → List ℕ → Option (ℕ × List ℕ)
take_id seqs id [] = none
take_id seqs id (p ∷ ps) =
    let rest = take_id seqs id ps in
    if (seqs p).id == id
    then some (p, ps)
    else elim rest [ none ↦ none | some (q, qs) ↦ some (q, p ∷ qs) ]

unfoldable pub abort : Scheduler → ℕ → ℕ → Checked Scheduler
abort s now id = elim (take_id s.seqs id s.waiting) [
  | some (p, rest) ↦ retire (record s { waiting = rest }) now p FinishReason.abort
  | none ↦ elim (take_id s.seqs id s.running) [
    | some (p, rest) ↦ retire (record s { running = rest }) now p FinishReason.abort
    | none ↦ ok s
  ]
]

abbrev pub bool_num : Bool → ℕ
bool_num true = 1
bool_num false = 0

abbrev pub prefill_slice : Sequence → ℕ → ℕ → StepSlice
prefill_slice q p len = record {
  seq = p;
  start = q.num_computed;
  len = len;
  needs_logits = q.num_computed + len == num_tokens q;
  is_prefill = true;
}

unfoldable pub add_prefill_slice : Scheduler → StepInput → ℕ → ℕ → StepInput
add_prefill_slice s step p len =
    let sl = prefill_slice (s.seqs p) p len in
    record {
      slices = step.slices ++ (sl ∷ []);
      num_prefill_tokens = step.num_prefill_tokens + len;
      num_decode_tokens = step.num_decode_tokens;
      num_logits = step.num_logits + bool_num sl.needs_logits;
    }

-- `num_available_blocks() - (needed - reused) >= watermark`, with no subtraction.
unfoldable pub admission_fits : Scheduler → ℕ → Bool
admission_fits s p =
    let watermark : ℕ = elim s.cfg.watermark_blocks [ none ↦ length s.running | some w ↦ w ] in
    let bs = s.kv.block_size in
    let q = s.seqs p in
    if watermark == 0
    then true
    else leb (watermark + blocks_needed (num_tokens q) bs)
        (num_available_blocks s.kv + lookup_cached_prefix s.kv q.tokens / bs)

-- The last pointer of the list that passes the test, and the list without it: `for (i = size; i-- > 0;)`.
unfoldable pub take_last : (ℕ → Bool) → List ℕ → Option (ℕ × List ℕ)
take_last test [] = none
take_last test (p ∷ ps) = elim (take_last test ps) [
  | some (q, qs) ↦ some (q, p ∷ qs)
  | none ↦ if test p then some (p, ps) else none
]

-- `std::remove`: the list without the victim.
unfoldable pub forget : ℕ → List ℕ → List ℕ
forget victim [] = []
forget victim (p ∷ ps) = if p == victim then forget victim ps else p ∷ forget victim ps

-- The fields that a preemption resets.
abbrev pub reset : Sequence → Sequence
reset q = record q {
  num_computed = 0;
  num_preemptions = q.num_preemptions + 1;
  status = SeqStatus.waiting;
}

-- Back to the front of the queue, with nothing computed.
unfoldable pub requeue : Scheduler → ℕ → Scheduler
requeue s p = record (put_seq s p (reset (s.seqs p))) {
  waiting = p ∷ s.waiting;
  stats = record (s.stats) {
    recomputed_tokens = s.stats.recomputed_tokens + (s.seqs p).num_computed;
    preemptions = s.stats.preemptions + 1;
  };
}

unfoldable pub preempt : Scheduler → ℕ → List ℕ → Checked Scheduler
preempt s p rest = do s' ← free_table (record s { running = rest }) p; ok (requeue s' p)

unfoldable pub drop_finished : Scheduler → ℕ → List ℕ → Checked Scheduler
drop_finished s p rest = do s' ← free_table (record s { running = rest }) p; ok (count_finished s')

-- The victim and the scheduler without it; `none` is `false`, nothing could be freed. The caller
-- removes the victim from its two lists.
unfoldable pub evict_for_memory : Scheduler → Checked (Option (ℕ × Scheduler))
evict_for_memory s = elim (take_last (λ p. is_finished (s.seqs p)) s.running) [
  | some (p, rest) ↦ do s' ← drop_finished s p rest; ok (some (p, s'))
  | none ↦ elim (take_last (λ p. true) s.running) [
    | some (p, rest) ↦ do s' ← preempt s p rest; ok (some (p, s'))
    | none ↦ ok none
  ]
]
