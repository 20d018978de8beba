-- ===== src/Sequence.antt =====
-- include/engine/sequence.h: requests, and the slices of a forward pass.
--
-- A sequence is a shared object; a pointer to it is a number. Times are ticks of the clock, and 0 is
-- the time point that was never set. The sampling parameters that only the sampler reads
-- (`temperature`, `top_p`, `seed`) are left out.
use llm_engine.Base.{ℕ, ◌+◌, ◌-◌, Bool, true, false, List, [], leb, length}
use llm_engine.KvCache.{BlockTable}

pub record SamplingParams : Type 0 where
  pub max_tokens : ℕ
  pub stop_ids : List ℕ
  pub ignore_eos : Bool

pub data SeqStatus : Type 0 where
  waiting running finished : SeqStatus

pub data FinishReason : Type 0 where
  unfinished stop length_cap abort timeout : FinishReason

pub record Sequence : Type 0 where
  pub id : ℕ
  pub tokens : List ℕ
  pub prompt_len : ℕ
  pub num_computed : ℕ
  pub block_table : BlockTable
  pub params : SamplingParams
  pub status : SeqStatus
  pub finish : FinishReason
  pub num_preemptions : ℕ
  pub wait_steps : ℕ
  pub t_arrival : ℕ
  pub t_first_scheduled : ℕ
  pub t_first_token : ℕ
  pub t_finish : ℕ
  pub token_times : List ℕ
  -- whether a callback is set
  pub on_token : Bool

abbrev pub num_tokens : Sequence → ℕ
num_tokens s = length s.tokens

abbrev pub num_generated : Sequence → ℕ
num_generated s = num_tokens s - s.prompt_len

abbrev pub prefill_done : Sequence → Bool
prefill_done s = leb (num_tokens s) (s.num_computed + 1)

abbrev pub status_finished : SeqStatus → Bool
status_finished SeqStatus.waiting = false
status_finished SeqStatus.running = false
status_finished SeqStatus.finished = true

abbrev pub is_finished : Sequence → Bool
is_finished s = status_finished s.status

pub record StepSlice : Type 0 where
  pub seq : ℕ
  pub start : ℕ
  pub len : ℕ
  pub needs_logits : Bool
  pub is_prefill : Bool

pub record StepInput : Type 0 where
  pub slices : List StepSlice
  pub num_prefill_tokens : ℕ
  pub num_decode_tokens : ℕ
  pub num_logits : ℕ

abbrev pub empty_step : StepInput
empty_step = record { slices = []; num_prefill_tokens = 0; num_decode_tokens = 0; num_logits = 0 }

abbrev pub step_tokens : StepInput → ℕ
step_tokens step = step.num_prefill_tokens + step.num_decode_tokens
