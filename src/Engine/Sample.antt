-- ===== src/Engine/Sample.antt =====
-- A small engine, for tests.
use llm_engine.Base.{ℕ, true, false, [], ◌∷◌, none}
use llm_engine.KvCache.{fresh_pool, empty_table}
use llm_engine.Sequence.{Sequence, SeqStatus, FinishReason, SamplingParams}
use llm_engine.Scheduler.Defs.{SchedulerConfig}
use llm_engine.Scheduler.Runs
use llm_engine.Scheduler.Runs.{start-Sound, Untouched}
use llm_engine.Engine.Defs.{Engine}
use llm_engine.Engine.Loop.{Host, Place, Counters, Gauges}

abbrev pub params : SamplingParams
params = record { max_tokens = 4; stop_ids = 9 ∷ []; ignore_eos = false }

abbrev pub engine : Engine
engine = record {
  max_queue_depth = 2;
  accepting = true;
  queued = 0;
  next_id = 1;
  inbox = [];
  stop_ids = 2 ∷ 9 ∷ [];
  requests_total = 0;
  prompt_tokens_total = 0;
  requests_rejected_overload = 0;
}

abbrev pub config : SchedulerConfig
config = record {
  continuous = true;
  max_num_seqs = 2;
  max_num_batched_tokens = 8;
  prefill_chunk_size = 4;
  admission_lookahead = 2;
  starvation_wait_steps = 3;
  max_queue_wait = 9;
  watermark_blocks = none;
}

-- What the store holds where no request was put yet.
abbrev pub unused : ℕ → Sequence
unused p = record {
  id = p;
  tokens = 5 ∷ [];
  prompt_len = 1;
  num_computed = 0;
  block_table = empty_table;
  params = params;
  status = SeqStatus.waiting;
  finish = FinishReason.unfinished;
  num_preemptions = 0;
  wait_steps = 0;
  t_arrival = 0;
  t_first_scheduled = 0;
  t_first_token = 0;
  t_finish = 0;
  token_times = [];
  on_token = true;
}

abbrev pub no_counters : Counters
no_counters = record {
  generated_tokens_total = 0;
  requests_finished = 0;
  requests_aborted = 0;
  requests_timed_out = 0;
}

abbrev pub no_gauges : Gauges
no_gauges = record {
  queue_depth = 0;
  running_seqs = 0;
  kv_blocks_free = 0;
  kv_blocks_used = 0;
  kv_blocks_cached = 0;
  steps_total = 0;
  preemptions_total = 0;
  requests_queue_timeout_total = 0;
  kv_accounting_ok = true;
  recomputed_tokens_total = 0;
  prefix_cache_queries = 0;
  prefix_cache_hit_blocks = 0;
  prefix_cache_total_blocks = 0;
  kv_evictions = 0;
}

abbrev pub host : Host
host = record {
  engine = engine;
  sched = Runs.start config (fresh_pool 8 2 true) unused;
  place = Place.top;
  running = true;
  draining = false;
  ready = true;
  invariants_ok = true;
  fatal_error = false;
  abort_inbox = [];
  last_progress = 1;
  counters = no_counters;
  gauges = no_gauges;
}
