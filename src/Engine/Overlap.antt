-- ===== src/Engine/Overlap.antt =====
-- src/api/engine.cpp, `submit`, which many threads call at once: each stretch of a call between two uses
-- of what the threads share is a step, and the steps of `n` calls come in any order.
use llm_engine.Base.{
  ℕ, zero, suc, ◌+◌, Bool, List, [], ◌∷◌, ◌++◌, some, if◌then◌else◌, ltb, leb, not, ◌&&◌, length,
  update,
}
use llm_engine.Sequence.{Sequence, SamplingParams}
use llm_engine.Engine.Defs.{Engine, SubmitStatus, SubmitResult, refused, new_sequence}

-- What a client passes.
pub record Asked : Type 0 where
  pub prompt : List ℕ
  pub params : SamplingParams
  pub on_token : Bool

-- Where a call is: before it reads `accepting_`, before it reads `queued_`, before it takes an id, before
-- it puts its request in the inbox, before it counts it, or at its end.
pub data Stage : Type 0 where
  called entered admitted : Stage
  built counting : Sequence → Stage
  returned : SubmitResult → Stage

unfoldable pub advance_call : Engine → Asked → Stage → Stage × Engine
advance_call e a Stage.called =
    if not e.accepting
    then (Stage.returned (refused SubmitStatus.draining 0), e)
    else (Stage.entered, e)
advance_call e a Stage.entered =
    if ltb 0 e.max_queue_depth && leb e.max_queue_depth e.queued
    then (
      Stage.returned (refused SubmitStatus.overloaded 1),
      record e { requests_rejected_overload = e.requests_rejected_overload + 1 },
    )
    else (Stage.admitted, e)
advance_call e a Stage.admitted = (
  Stage.built (new_sequence e a.prompt a.params a.on_token),
  record e {
    next_id = e.next_id + 1;
    requests_total = e.requests_total + 1;
    prompt_tokens_total = e.prompt_tokens_total + length a.prompt;
  },
)
advance_call e a (Stage.built s) = (Stage.counting s, record e { inbox = e.inbox ++ (s ∷ []) })
advance_call e a (Stage.counting s) = (
  Stage.returned (record { status = SubmitStatus.accepted; seq = some s; retry_after_seconds = 0 }),
  record e { queued = e.queued + 1 },
)
advance_call e a (Stage.returned r) = (Stage.returned r, e)

-- The calls and what they share.
pub record Calls : Type 0 where
  pub engine : Engine
  pub asked : ℕ → Asked
  pub stage : ℕ → Stage

-- A step of a call, or what the engine and other calls do to what `submit` reads: the inbox is taken, and
-- `accepting_` is set.
pub data Occurrence : Type 0 where
  steps : ℕ → Occurrence
  pulls : Occurrence
  accepts : Bool → Occurrence

unfoldable pub call_at : Calls → ℕ → Stage → Calls
unfolding advance_call
call_at c i p =
    let (q, e) = advance_call c.engine (c.asked i) p in
    record c { engine = e; stage = update c.stage i q }

unfoldable pub occur : Calls → Occurrence → Calls
unfolding call_at
occur c (steps i) = call_at c i (c.stage i)
occur c pulls = record c { engine = record (c.engine) { inbox = [] } }
occur c (accepts b) = record c { engine = record (c.engine) { accepting = b } }

unfoldable pub occur_all : List Occurrence → Calls → Calls
unfolding occur
occur_all [] c = c
occur_all (v ∷ vs) c = occur_all vs (occur c v)

-- A call that nothing overlaps.
abbrev pub rounds : ℕ → Asked → Stage × Engine → Stage × Engine
rounds zero a (p, e) = (p, e)
rounds (suc n) a (p, e) = rounds n a (advance_call e a p)
