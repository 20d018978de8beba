-- ===== src/Engine/Loop.antt =====
-- include/engine/engine.h and src/api/engine.cpp: the thread of the engine, `start`, `stop`, `drain`,
-- `abort`, `refresh_gauges`, `run` and `run_loop`.
--
-- `turn` is the part of the loop between two points at which other threads can be noticed: the top of
-- the loop, the wait on the condition variable, and the passes of the loop that releases what is left.
-- The log of the scheduler is its calls of the wrapped callbacks. `stop` and `drain` set the flags, and
-- `join_thread` and `drained` are their ends, once the thread is out of `run`; std::terminate is
-- `assert_failed`. The latency histograms and the float gauges are left out.
use llm_engine.Base.{
  ℕ, ◌+◌, ◌-◌, ◌%◌, ◌^◌, Bool, true, false, List, [], ◌∷◌, ◌++◌, Option, none, some, Checked, ok,
  assert_failed, ◌>>=◌, if◌then◌else◌, ◌==◌, not, ◌&&◌, ◌||◌, update, length,
}
use llm_engine.KvCache.{KvCacheManager, num_available_blocks}
use llm_engine.Sequence.{Sequence, FinishReason, StepInput, StepSlice}
use llm_engine.Scheduler.Defs.{Scheduler, Event, add, abort}
use llm_engine.Scheduler.Step.{schedule}
use llm_engine.Scheduler.Done.{on_step_done}
use llm_engine.Engine.Defs.{Engine}

-- The counters that the wrapped callbacks write.
pub record Counters : Type 0 where
  pub generated_tokens_total : ℕ
  pub requests_finished : ℕ
  pub requests_aborted : ℕ
  pub requests_timed_out : ℕ

pub record Gauges : Type 0 where
  pub queue_depth : ℕ
  pub running_seqs : ℕ
  pub kv_blocks_free : ℕ
  -- a 32-bit pattern
  pub kv_blocks_used : ℕ
  pub kv_blocks_cached : ℕ
  pub steps_total : ℕ
  pub preemptions_total : ℕ
  pub requests_queue_timeout_total : ℕ
  pub kv_accounting_ok : Bool
  pub recomputed_tokens_total : ℕ
  pub prefix_cache_queries : ℕ
  pub prefix_cache_hit_blocks : ℕ
  pub prefix_cache_total_blocks : ℕ
  pub kv_evictions : ℕ

-- Where the engine thread is: at the top of the loop, in the wait, in the loop that releases what is
-- left, or out of `run`; `joined` is no thread, before the first start or after a join.
pub data Place : Type 0 where
  top idle releasing gone joined : Place

pub record Host : Type 0 where
  pub engine : Engine
  pub sched : Scheduler
  pub place : Place
  pub running : Bool
  pub draining : Bool
  pub ready : Bool
  pub invariants_ok : Bool
  pub fatal_error : Bool
  pub abort_inbox : List ℕ
  pub last_progress : ℕ
  pub counters : Counters
  pub gauges : Gauges

-- `thread_ = std::thread(...)`, which terminates the program if `thread_` was not joined.
unfoldable pub launch : ℕ → Host → Place → Checked Host
launch now h Place.joined = ok (record h {
  running = true;
  engine = record (h.engine) { accepting = true };
  place = Place.top;
  last_progress = now;
})
launch now h _ = assert_failed

unfoldable pub start : ℕ → Host → Checked Host
start now h = if h.running then ok h else launch now h h.place

unfoldable pub stop : Host → Host
stop h = record h { running = false; engine = record (h.engine) { accepting = false } }

unfoldable pub drain : Host → Host
drain h = record h { draining = true; engine = record (h.engine) { accepting = false } }

-- The join at the end of `stop`: nothing happens as long as the thread runs.
unfoldable pub join_at : Host → Place → Host
join_at h Place.gone = record h { place = Place.joined }
join_at h _ = h

unfoldable pub join_thread : Host → Host
unfolding join_at
join_thread h = join_at h h.place

-- The end of `drain`: the join, and `running_ = false` after it.
unfoldable pub drained_at : Host → Place → Host
drained_at h Place.gone = record h { place = Place.joined; running = false }
drained_at h Place.joined = record h { running = false }
drained_at h _ = h

unfoldable pub drained : Host → Host
unfolding drained_at
drained h = drained_at h h.place

unfoldable pub request_abort : Host → ℕ → Host
request_abort h id = record h { abort_inbox = h.abort_inbox ++ (id ∷ []) }

abbrev pub mark_progress : ℕ → Host → Host
mark_progress now h = record h { last_progress = now }

-- `num_used_blocks` in the 32-bit arithmetic of the source.
abbrev pub used32 : KvCacheManager → ℕ
used32 kv = (kv.num_blocks + 2 ^ 32 - num_available_blocks kv) % 2 ^ 32

unfoldable pub balanced : KvCacheManager → Bool
balanced kv = (num_available_blocks kv + used32 kv) % 2 ^ 32 == kv.num_blocks

unfoldable pub refresh_gauges : Host → Host
unfolding balanced
refresh_gauges h =
    let kv = h.sched.kv in
    let fine = balanced kv in
    record h {
      invariants_ok = if fine then h.invariants_ok else false;
      gauges = record {
        queue_depth = length h.sched.waiting;
        running_seqs = length h.sched.running;
        kv_blocks_free = length kv.free_list;
        kv_blocks_used = used32 kv;
        kv_blocks_cached = length kv.lru;
        steps_total = h.sched.stats.steps;
        preemptions_total = h.sched.stats.preemptions;
        requests_queue_timeout_total = h.sched.stats.timed_out;
        kv_accounting_ok = fine;
        recomputed_tokens_total = h.sched.stats.recomputed_tokens;
        prefix_cache_queries = kv.stats.prefix_queries;
        prefix_cache_hit_blocks = kv.stats.prefix_hit_blocks;
        prefix_cache_total_blocks = kv.stats.prefix_total_blocks;
        kv_evictions = kv.stats.evictions;
      };
    }

-- The wrapped callback: `queued_--` for a request that ends, which was counted when it came.
unfoldable pub hear : Event → Counters × ℕ → Counters × ℕ
hear e (c, queued) = elim e.token [
  | some tok ↦ (record c { generated_tokens_total = c.generated_tokens_total + 1 }, queued)
  | none ↦ elim e.reason [
    | FinishReason.timeout ↦
        (record c { requests_timed_out = c.requests_timed_out + 1 }, queued - 1)
    | FinishReason.abort ↦ (record c { requests_aborted = c.requests_aborted + 1 }, queued - 1)
    | _ ↦ (record c { requests_finished = c.requests_finished + 1 }, queued - 1)
  ]
]

unfoldable pub hear_all : List Event → Counters × ℕ → Counters × ℕ
hear_all [] c = c
hear_all (e ∷ es) c = hear_all es (hear e c)

-- The callbacks that the scheduler made, with the log taken.
unfoldable pub told : Host → Scheduler → Host
unfolding hear_all
told h s =
    let (counters, queued) = hear_all s.events (h.counters, h.engine.queued) in
    record h {
      sched = record s { events = [] };
      counters = counters;
      engine = record (h.engine) { queued = queued };
    }

unfoldable pub has_work : Scheduler → Bool
has_work s = not (length s.waiting == 0) || not (length s.running == 0)

unfoldable pub is_idle : Host → Bool
is_idle h = not (has_work h.sched) && length h.engine.inbox == 0 && length h.abort_inbox == 0

-- A request from the inbox, its callback wrapped.
unfoldable pub pull_all : ℕ → List Sequence → Scheduler → Scheduler
pull_all now [] s = s
pull_all now (q ∷ qs) s =
    pull_all now qs
      (add (record s { seqs = update s.seqs q.id (record q { on_token = true }) }) now q.id)

unfoldable pub abort_all : ℕ → List ℕ → Scheduler → Checked Scheduler
abort_all now [] s = ok s
abort_all now (id ∷ ids) s = do s' ← abort s now id; abort_all now ids s'

unfoldable pub seq_ids : Scheduler → List ℕ → List ℕ
seq_ids s [] = []
seq_ids s (p ∷ ps) = (s.seqs p).id ∷ seq_ids s ps

unfoldable pub slice_ids : Scheduler → List StepSlice → List ℕ
slice_ids s [] = []
slice_ids s (sl ∷ sls) = (s.seqs sl.seq).id ∷ slice_ids s sls

-- The loop is left: the resident requests are aborted, and the releasing loop begins.
unfoldable pub leave : ℕ → Host → Checked Host
leave now h = do
  s ← abort_all now (seq_ids h.sched h.sched.running) h.sched
  ok (record (told h s) { place = Place.releasing })

abbrev pub failed : Host → Host
failed h = record h {
  fatal_error = true;
  engine = record (h.engine) { accepting = false };
  ready = false;
  running = false;
}

-- The `catch` of `run`.
unfoldable pub die : ℕ → Host → Checked Host
die now h = leave now (failed h)

abbrev pub at_top : Host → Host
at_top h = record h { place = Place.top }

-- A planned step: `none` is an exception of the model or the sampler.
unfoldable pub forward : (StepInput → Option (List ℕ)) → ℕ → StepInput → Host → Checked Host
forward model now step h = elim (model step) [
  | none ↦ die now h
  | some sampled ↦ do
    s ← on_step_done now step sampled h.sched
    ok (at_top (refresh_gauges (mark_progress now (told h s))))
]

unfoldable pub plan_step : (StepInput → Option (List ℕ)) → ℕ → Host → Checked Host
plan_step model now h = schedule now h.sched >>= λ (step, s).
    let h' = told h s in
    if length step.slices == 0
    then ok
        (at_top (if has_work s then refresh_gauges h' else mark_progress now (refresh_gauges h')))
    else forward model now step h'

-- Both inboxes are empty once they were read.
abbrev pub emptied : Host → Host
emptied h = record h { engine = record (h.engine) { inbox = [] }; abort_inbox = [] }

-- What arrived is pulled in, and a step is made.
unfoldable pub pull_and_step : (StepInput → Option (List ℕ)) → ℕ → Host → Checked Host
pull_and_step model now h =
    abort_all now h.abort_inbox (pull_all now h.engine.inbox h.sched) >>= λ s.
    let h' = told (emptied h) s in
    if has_work s
    then plan_step model now h'
    else ok (at_top (refresh_gauges (mark_progress now h')))

-- One pass of `while (scheduler_.num_waiting() > 0)`.
unfoldable pub release : ℕ → Host → Checked Host
release now h =
    if length h.sched.waiting == 0
    then ok (record (refresh_gauges h) { place = Place.gone })
    else schedule now h.sched >>= λ (step, s). abort_all now (slice_ids s step.slices) s >>= λ s'.
        let h' = told h s' in
        if length step.slices == 0
        then ok (record (refresh_gauges h') { place = Place.gone })
        else ok h'

-- What the thread does at its place.
unfoldable pub turn_at : (StepInput → Option (List ℕ)) → ℕ → Host → Place → Checked Host
turn_at model now h Place.top =
    if not h.running || is_idle h && h.draining
    then leave now h
    else if is_idle h
    then ok (record (mark_progress now h) { place = Place.idle })
    else pull_and_step model now h
turn_at model now h Place.idle =
    if not h.running
    then leave now h
    else if is_idle h
    then ok (at_top (refresh_gauges (mark_progress now h)))
    else pull_and_step model now h
turn_at model now h Place.releasing = release now h
turn_at model now h Place.gone = ok h
turn_at model now h Place.joined = ok h

unfoldable pub turn : (StepInput → Option (List ℕ)) → ℕ → Host → Checked Host
unfolding turn_at
turn model now h = turn_at model now h h.place
