-- ===== src/Engine/Defs.antt =====
-- include/engine/engine.h and src/api/engine.cpp: `validate` and `submit`, with the part of the engine's
-- state that they use. The texts that a client gets are left out, and a call of `submit` is one step
-- (Engine/Overlap holds its steps, for calls that run at once).
use llm_engine.Base.{
  ℕ, ◌+◌, Bool, List, [], ◌∷◌, ◌++◌, Option, none, some, if◌then◌else◌, ltb, leb, ◌==◌, not, ◌&&◌,
  length,
}
use llm_engine.KvCache.{KvCacheManager, capacity_tokens, empty_table}
use llm_engine.Sequence.{Sequence, SamplingParams, SeqStatus, FinishReason}
use llm_engine.Scheduler.{contains}

-- Why a request can never run; `runs` is the empty string.
pub data Verdict : Type 0 where
  runs empty_prompt no_max_tokens over_capacity over_context : Verdict

unfoldable pub validate : KvCacheManager → ℕ → ℕ → SamplingParams → Verdict
validate kv model_max prompt_tokens params =
    let need = prompt_tokens + params.max_tokens in
    if prompt_tokens == 0
    then Verdict.empty_prompt
    else if params.max_tokens == 0
    then Verdict.no_max_tokens
    else if ltb (capacity_tokens kv) need
    then Verdict.over_capacity
    else if ltb model_max need
    then Verdict.over_context
    else Verdict.runs

pub data SubmitStatus : Type 0 where
  accepted draining overloaded invalid : SubmitStatus

pub record SubmitResult : Type 0 where
  pub status : SubmitStatus
  pub seq : Option Sequence
  pub retry_after_seconds : ℕ

pub record Engine : Type 0 where
  -- 0 disables the limit
  pub max_queue_depth : ℕ
  pub accepting : Bool
  pub queued : ℕ
  pub next_id : ℕ
  pub inbox : List Sequence
  pub stop_ids : List ℕ
  pub requests_total : ℕ
  pub prompt_tokens_total : ℕ
  pub requests_rejected_overload : ℕ

-- The stop tokens of the tokenizer that the request does not name yet.
unfoldable pub add_stops : List ℕ → List ℕ → List ℕ
add_stops [] have = have
add_stops (id ∷ ids) have = add_stops ids (if contains have id then have else have ++ (id ∷ []))

unfoldable pub new_sequence : Engine → List ℕ → SamplingParams → Bool → Sequence
new_sequence e prompt params on_token = record {
  id = e.next_id;
  tokens = prompt;
  prompt_len = length prompt;
  num_computed = 0;
  block_table = empty_table;
  params = record params { stop_ids = add_stops e.stop_ids params.stop_ids };
  status = SeqStatus.waiting;
  finish = FinishReason.unfinished;
  num_preemptions = 0;
  wait_steps = 0;
  t_arrival = 0;
  t_first_scheduled = 0;
  t_first_token = 0;
  t_finish = 0;
  token_times = [];
  on_token = on_token;
}

abbrev pub refused : SubmitStatus → ℕ → SubmitResult
refused status retry = record { status = status; seq = none; retry_after_seconds = retry }

unfoldable pub submit : Engine → List ℕ → SamplingParams → Bool → SubmitResult × Engine
submit e prompt params on_token =
    let s = new_sequence e prompt params on_token in
    if not e.accepting
    then (refused SubmitStatus.draining 0, e)
    else if ltb 0 e.max_queue_depth && leb e.max_queue_depth e.queued
    then (
      refused SubmitStatus.overloaded 1,
      record e { requests_rejected_overload = e.requests_rejected_overload + 1 },
    )
    else (
      record { status = SubmitStatus.accepted; seq = some s; retry_after_seconds = 0 },
      record e {
        next_id = e.next_id + 1;
        requests_total = e.requests_total + 1;
        prompt_tokens_total = e.prompt_tokens_total + length prompt;
        inbox = e.inbox ++ (s ∷ []);
        queued = e.queued + 1;
      },
    )
