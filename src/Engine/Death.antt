-- ===== src/Engine/Death.antt =====
-- src/api/engine.cpp, `run` and the end of `run_loop`: what an exception or a stop leaves.
use llm_engine.Base.{
  ℕ, ◌≡◌, refl, subst, ◌∙◌, All, Bool, true, false, List, [], ◌∷◌, Option, none, Option-cases,
  Checked, ok, assert_failed, ◌>>=◌, if◌then◌else◌, ◌==◌, not, ◌&&◌, ◌||◌, length, arith, inl, inr,
}
use llm_engine.Sequence.{Sequence, SamplingParams, StepInput}
use llm_engine.Scheduler.Step.{schedule}
use llm_engine.Scheduler.Done.{on_step_done}
use llm_engine.Engine.Defs.{Engine, submit}
use llm_engine.Engine.Inbox.{if_cases}
use llm_engine.Engine.Loop.{
  Host, Place, told, leave, die, forward, plan_step, pull_and_step, pull_all, abort_all, release,
  turn, turn_at, emptied, refresh_gauges, has_work, is_idle, slice_ids, start, stop, drain, drained,
  request_abort, launch, join_at, join_thread, drained_at,
}
use llm_engine.Engine.Life.{
  Move, turns, submits, aborts, starts, stops, drains, joins, ends_drain, move, moves,
}

-- What holds of the result, if there is one.
abbrev After : (Host → Type 0) → Checked Host → Type 0
After P (ok h) = P h
After P assert_failed = Unit

After-bind :
    {A : Type 0} (P : Host → Type 0) (m : Checked A) (f : A → Checked Host)
    → ((a : A) → After P (f a))
    → After P (m >>= f)
After-bind P (ok a) f k = k a
After-bind P assert_failed f k = tt

After-chain :
    (P : Host → Type 0) (m : Checked Host) (f : Host → Checked Host)
    → After P m
    → ((h : Host) → P h → After P (f h))
    → After P (m >>= f)
After-chain P (ok h) f p k = k h p
After-chain P assert_failed f p k = tt

After-if :
    (P : Host → Type 0) (b : Bool) (x y : Checked Host)
    → After P x
    → After P y
    → After P (if b then x else y)
After-if P true x y k l = k
After-if P false x y k l = l

After-then :
    (P : Host → Type 0) (b : Bool) (x y : Checked Host)
    → b ≡ true
    → After P x
    → After P (if b then x else y)
After-then P true x y e k = k
After-then P false x y e k = cc

submit-accepting :
    (e : Engine) (prompt : List ℕ) (params : SamplingParams) (on_token : Bool)
    → (submit e prompt params on_token).1.accepting ≡ e.accepting
unfolding submit
submit-accepting e prompt params on_token = ground arith

-- The loop has died and, for `closed`, nothing is accepted.
abbrev Down : Bool → Host → Type 0
Down closed h = (h.fatal_error ≡ true) × (closed ≡ true → h.engine.accepting ≡ false)

-- With `closed`, the engine is not started again.
abbrev pub Allowed : Bool → Move → Type 0
Allowed closed (starts now) = closed ≡ false
Allowed closed _ = Unit

module _ (closed : Bool) where
  leave-Dead : (now : ℕ) (h : Host) → Down closed h → After (Down closed) (leave now h)
  unfolding leave told
  leave-Dead now h d = After-bind (Down closed) (abort_all now _ h.sched) _ (λ s. d)

  die-Dead : (now : ℕ) (h : Host) → After (Down closed) (die now h)
  unfolding die
  die-Dead now h = leave-Dead now _ (refl, λ e. refl)

  release-Dead : (now : ℕ) (h : Host) → Down closed h → After (Down closed) (release now h)
  unfolding release told refresh_gauges
  release-Dead now h d = After-if (Down closed) (length h.sched.waiting == 0) _ _ d (
      After-bind (Down closed) (schedule now h.sched) _ (λ (step, s).
        After-bind (Down closed) (abort_all now (slice_ids s step.slices) s) _
          (λ s'. After-if (Down closed) (length step.slices == 0) _ _ d d)))

  module _ (model : StepInput → Option (List ℕ)) (now : ℕ) where
    forward-Dead :
        (step : StepInput) (h : Host)
        → Down closed h
        → After (Down closed) (forward model now step h)
    unfolding forward told refresh_gauges
    forward-Dead step h d = elim (Option-cases (model step)) [
      | inl thrown ↦ rw (thrown, forward) (die-Dead now h)
      | inr (sampled, given) ↦
          rw (given, forward)
            (After-bind (Down closed) (on_step_done now step sampled h.sched) _ (λ s. d))
    ]

    pub forward-thrown :
        (step : StepInput) (h : Host)
        → model step ≡ none
        → After (Down closed) (forward model now step h)
    unfolding forward
    forward-thrown step h thrown = rw (thrown, forward) (die-Dead now h)

    plan_step-Dead : (h : Host) → Down closed h → After (Down closed) (plan_step model now h)
    unfolding plan_step told refresh_gauges
    plan_step-Dead h d = After-bind (Down closed) (schedule now h.sched) _ (λ (step, s).
        After-if (Down closed) (length step.slices == 0) _ _
          (if_cases (λ x. Down closed (record x { place = Place.top })) (has_work s) _ _ (λ w. d)
            (λ w. d))
          (forward-Dead step (told h s) d))

    pull_and_step-Dead :
        (h : Host) → Down closed h → After (Down closed) (pull_and_step model now h)
    unfolding pull_and_step told refresh_gauges
    pull_and_step-Dead h d =
        After-bind (Down closed) (abort_all now h.abort_inbox (pull_all now h.engine.inbox h.sched))
          _ (λ s. After-if (Down closed) (has_work s) _ _ (plan_step-Dead (told (emptied h) s) d) d)

    turn_at-Dead :
        (h : Host) (place : Place) → Down closed h → After (Down closed) (turn_at model now h place)
    unfolding turn_at refresh_gauges
    turn_at-Dead h Place.top d =
        After-if (Down closed) (not h.running || is_idle h && h.draining) _ _ (leave-Dead now h d)
          (After-if (Down closed) (is_idle h) _ _ d (pull_and_step-Dead h d))
    turn_at-Dead h Place.idle d =
        After-if (Down closed) (not h.running) _ _ (leave-Dead now h d)
          (After-if (Down closed) (is_idle h) _ _ d (pull_and_step-Dead h d))
    turn_at-Dead h Place.releasing d = release-Dead now h d
    turn_at-Dead h Place.gone d = d
    turn_at-Dead h Place.joined d = d

  start-Dead :
      (now : ℕ) (h : Host) → closed ≡ false → Down closed h → After (Down closed) (start now h)
  unfolding start launch
  start-Dead now h again d = After-if (Down closed) h.running _ _ d (launch-Dead h.place)
    where
      launch-Dead : (p : Place) → After (Down closed) (launch now h p)
      launch-Dead Place.joined = (d.0, λ e. cc)
      launch-Dead Place.top = tt
      launch-Dead Place.idle = tt
      launch-Dead Place.releasing = tt
      launch-Dead Place.gone = tt

  join-Dead :
      (h : Host) (p : Place)
      → Down closed h
      → Down closed (join_at h p) × Down closed (drained_at h p)
  unfolding join_at drained_at
  join-Dead h Place.gone d = (d, d)
  join-Dead h Place.joined d = (d, d)
  join-Dead h Place.top d = (d, d)
  join-Dead h Place.idle d = (d, d)
  join-Dead h Place.releasing d = (d, d)

  move-Dead :
      (h : Host) (m : Move) → Allowed closed m → Down closed h → After (Down closed) (move h m)
  unfolding move turn stop drain drained join_thread request_abort
  move-Dead h (turns model now) a d = turn_at-Dead model now h h.place d
  move-Dead h (submits prompt params on_token) a d =
      (d.0, λ e. submit-accepting h.engine prompt params on_token ∙ d.1 e)
  move-Dead h (aborts id) a d = d
  move-Dead h (starts now) a d = start-Dead now h a d
  move-Dead h stops a d = (d.0, λ e. refl)
  move-Dead h drains a d = (d.0, λ e. refl)
  move-Dead h joins a d = (join-Dead h h.place d).0
  move-Dead h ends_drain a d = (join-Dead h h.place d).1

  pub moves-Dead :
      (ms : List Move) (h : Host)
      → All (Allowed closed) ms
      → Down closed h
      → After (Down closed) (moves ms h)
  unfolding moves
  moves-Dead [] h a d = d
  moves-Dead (m ∷ ms) h (a, rest) d =
      After-chain (Down closed) (move h m) (moves ms) (move-Dead h m a d)
        (λ h' d'. moves-Dead ms h' rest d')

abbrev Stranded : List Sequence → Host → Type 0
Stranded inbox h = (h.running ≡ false) × (h.engine.inbox ≡ inbox)

turn_at-Stranded :
    (model : StepInput → Option (List ℕ)) (now : ℕ) (h : Host) (place : Place)
    → h.running ≡ false
    → After (Stranded h.engine.inbox) (turn_at model now h place)
unfolding turn_at release leave told refresh_gauges
turn_at-Stranded model now h Place.top off =
    After-then (Stranded h.engine.inbox) (not h.running || is_idle h && h.draining) _ _
      (ground (arith, off))
      (After-bind (Stranded h.engine.inbox) (abort_all now _ h.sched) _ (λ s. (off, refl)))
turn_at-Stranded model now h Place.idle off =
    After-then (Stranded h.engine.inbox) (not h.running) _ _ (ground (arith, off))
      (After-bind (Stranded h.engine.inbox) (abort_all now _ h.sched) _ (λ s. (off, refl)))
turn_at-Stranded model now h Place.releasing off =
    let P = Stranded h.engine.inbox in
    After-if P (length h.sched.waiting == 0) _ _ (off, refl)
      (After-bind P (schedule now h.sched) _ (λ (step, s).
        After-bind P (abort_all now (slice_ids s step.slices) s) _
          (λ s'. After-if P (length step.slices == 0) _ _ (off, refl) (off, refl))))
turn_at-Stranded model now h Place.gone off = (off, refl)
turn_at-Stranded model now h Place.joined off = (off, refl)

-- Once the engine is stopped, or its loop has died, no turn of the thread takes a request out of the
-- inbox: a request that was submitted and not yet pulled in stays there, and is not released, unless
-- the engine is started again.
pub turn-strands :
    (model : StepInput → Option (List ℕ)) (now : ℕ) (h h' : Host)
    → h.running ≡ false
    → turn model now h ≡ ok h'
    → (h'.running ≡ false) × (h'.engine.inbox ≡ h.engine.inbox)
unfolding turn
turn-strands model now h h' off e =
    subst (After (Stranded h.engine.inbox)) e (turn_at-Stranded model now h h.place off)
