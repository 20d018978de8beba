-- ===== src/Server/Handle.antt =====
-- src/api/server.cpp, `handle`, `parse_params` and the probes: how a request is answered.
--
-- What the JSON library reads in a body is an argument; a field of the wrong type, on which the code
-- throws outside its handlers of exceptions, is left out. A request's calls of the engine are three: the
-- first check, the submission, and the look at `fatal_error`; what other threads do between them are
-- functions of the engine's state. Texts of errors are left out.
use llm_engine.Base.{
  ℕ, ◌+◌, Bool, true, false, List, [], ◌∷◌, Option, none, some, if◌then◌else◌, not, ◌&&◌, ◌||◌,
  length,
}
use llm_engine.Base.Options.{◌>>=◌}
use llm_engine.Sequence.{Sequence, SamplingParams}
use llm_engine.Tokenizer.Vocab.{Tokenizer}
use llm_engine.Tokenizer.Encode.{encode_for_generation}
use llm_engine.Tokenizer.Chat.{ChatMessage, apply_chat_template}
use llm_engine.Engine.Defs.{Verdict, validate, SubmitStatus, SubmitResult, submit}
use llm_engine.Engine.Loop.{Host}
use llm_engine.Engine.Health.{health}

-- `body["prompt"]`
pub data PromptField : Type 0 where
  absent : PromptField
  ids : List ℕ → PromptField
  text : List ℕ → PromptField
  -- neither text nor an array of numbers
  other : PromptField

-- A body that is an object. `messages` and `prompt_token_ids` are `none` where reading them throws.
pub record Body : Type 0 where
  pub messages : Option (List ChatMessage)
  pub has_prompt_token_ids : Bool
  pub prompt_token_ids : Option (List ℕ)
  pub prompt : PromptField
  pub stream : Bool
  -- a negative number is 0
  pub max_tokens : Option ℕ
  pub ignore_eos : Option Bool
  pub stop_token_ids : Option (List ℕ)

abbrev pub value_or {ℓ} : {A : Type ℓ} → Option A → A → A
value_or none d = d
value_or (some a) d = a

unfoldable pub parse_params : Body → SamplingParams
parse_params b = record {
  max_tokens = value_or b.max_tokens 128;
  stop_ids = value_or b.stop_token_ids [];
  ignore_eos = value_or b.ignore_eos false;
}

unfoldable pub prompt_field_ids : Tokenizer → PromptField → Option (List ℕ)
prompt_field_ids t PromptField.absent = none
prompt_field_ids t (PromptField.ids p) = some p
prompt_field_ids t (PromptField.text p) = encode_for_generation t p
prompt_field_ids t PromptField.other = none

-- The prompt, or `none` for an exception.
unfoldable pub read_prompt : Tokenizer → Bool → Body → Option (List ℕ)
unfolding prompt_field_ids
read_prompt t chat b =
    if chat
    then (b.messages >>= λ msgs. apply_chat_template t msgs >>= encode_for_generation t)
    else if b.has_prompt_token_ids
    then b.prompt_token_ids
    else prompt_field_ids t b.prompt

pub data Reply : Type 0 where
  -- a status, and the seconds of `Retry-After`
  error : ℕ → Option ℕ → Reply
  -- the handler waits on the channel of this request, and streams or not
  accepted : Option Sequence → Bool → Reply

pub record Server : Type 0 where
  pub host : Host
  pub accepting : Bool
  pub model_max : ℕ
  pub requests_rejected_invalid : ℕ
  pub requests_rejected_draining : ℕ

abbrev pub count_invalid : Server → Server
count_invalid s = record s { requests_rejected_invalid = s.requests_rejected_invalid + 1 }

abbrev pub count_draining : Server → Server
count_draining s = record s { requests_rejected_draining = s.requests_rejected_draining + 1 }

abbrev pub on_host : (Host → Host) → Server → Server
on_host f s = record s { host = f s.host }

-- `if (!sub.ok())`
unfoldable pub by_status : SubmitStatus → Bool → SubmitResult → Server → Reply × Server
by_status SubmitStatus.accepted stream sub s = (Reply.accepted sub.seq stream, s)
by_status SubmitStatus.overloaded stream sub s = (Reply.error 429 (some sub.retry_after_seconds), s)
by_status SubmitStatus.draining stream sub s = (Reply.error 503 none, count_draining s)
by_status SubmitStatus.invalid stream sub s = (Reply.error 503 none, count_draining s)

-- After the submission.
unfoldable pub answer : Bool → SubmitResult → Server → Reply × Server
unfolding by_status
answer stream sub s =
    if s.host.fatal_error then (Reply.error 503 none, s) else by_status sub.status stream sub s

abbrev pub submit_host : List ℕ → SamplingParams → Host → Host
submit_host prompt params h = record h { engine = (submit h.engine prompt params true).1 }

-- What the rest of the handler works with: other threads' steps before and after the submission.
pub record Others : Type 0 where
  pub before : Host → Host
  pub after : Host → Host

-- The server's state after the submission.
abbrev pub submitted : Others → List ℕ → SamplingParams → Server → Server
submitted o prompt params s =
    on_host o.after (on_host (submit_host prompt params) (on_host o.before s))

unfoldable pub by_verdict : Verdict → Others → Body → List ℕ → Server → Reply × Server
unfolding parse_params answer
by_verdict Verdict.runs o b prompt s =
    answer b.stream (submit (o.before s.host).engine prompt (parse_params b) true).0
      (submitted o prompt (parse_params b) s)
by_verdict Verdict.empty_prompt o b prompt s = (Reply.error 400 none, count_invalid s)
by_verdict Verdict.no_max_tokens o b prompt s = (Reply.error 400 none, count_invalid s)
by_verdict Verdict.over_capacity o b prompt s = (Reply.error 400 none, count_invalid s)
by_verdict Verdict.over_context o b prompt s = (Reply.error 400 none, count_invalid s)

abbrev pub verdict : Server → List ℕ → Body → Verdict
verdict s prompt b = validate s.host.sched.kv s.model_max (length prompt) (parse_params b)

-- With the prompt, if reading it did not throw.
unfoldable pub with_prompt : Option (List ℕ) → Others → Body → Server → Reply × Server
unfolding by_verdict
with_prompt none o b s = (Reply.error 400 none, s)
with_prompt (some []) o b s = (Reply.error 400 none, s)
with_prompt (some (c ∷ cs)) o b s = by_verdict (verdict s (c ∷ cs) b) o b (c ∷ cs) s

-- With the body, if it is JSON.
unfoldable pub with_body : Option Body → Others → Tokenizer → Bool → Server → Reply × Server
unfolding read_prompt with_prompt
with_body none o t chat s = (Reply.error 400 none, s)
with_body (some b) o t chat s = with_prompt (read_prompt t chat b) o b s

unfoldable pub handle : Others → Tokenizer → Bool → Option Body → Server → Reply × Server
unfolding with_body
handle o t chat body s =
    if not s.accepting || not s.host.engine.accepting
    then (Reply.error 503 none, s)
    else with_body body o t chat s

-- `/healthz`
unfoldable pub healthz : ℕ → ℕ → Server → ℕ
healthz stall_timeout now s = if (health stall_timeout now s.host).alive then 200 else 503

-- `/readyz`
unfoldable pub readyz : ℕ → ℕ → Server → ℕ
readyz stall_timeout now s =
    if (health stall_timeout now s.host).ready && s.accepting then 200 else 503
