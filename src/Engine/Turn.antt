-- ===== src/Engine/Turn.antt =====
-- src/api/engine.cpp, `run_loop`: one turn of the loop.
use llm_engine.Base.{
  ℕ, ◌+◌, ◌≤◌, ◌≡◌, refl, List, Option, Option-cases, ok, ◌==◌, not, ◌&&◌, ◌||◌, length, count, All,
  arith, Bool-cases, inl, inr,
}
use llm_engine.Sequence.{StepInput}
use llm_engine.Scheduler.Defs.{Scheduler}
use llm_engine.Scheduler.Sound.{Sound, Sound-view}
use llm_engine.Scheduler.Slices.{SliceOk, slice_count}
use llm_engine.Scheduler.Plan.{schedule-Planned}
use llm_engine.Scheduler.Settle.{on_step_done-Sound}
use llm_engine.Engine.Inbox.{id_count}
use llm_engine.Engine.Loop.{
  Host, Place, told, forward, plan_step, pull_and_step, turn, turn_at, emptied, refresh_gauges,
  has_work, is_idle, at_top, mark_progress,
}
use llm_engine.Engine.Serve.{
  HostSound, Healthy, OneEach, pulled, pull_all-Sound, abort_all-Sound, told-Sound, HostSound-view,
  slices-told, refreshed, progressed, progressed_late, Goes, leave-Goes, die-Goes, release-Goes,
}

module _ {live : List ℕ} {bs : ℕ} (model : StepInput → Option (List ℕ)) (now : ℕ)
    (one_each : OneEach model) where
  -- A planned step that the model computes or throws on.
  forward-Goes :
      (step : StepInput) (h : Host)
      → HostSound live bs h
      → All (SliceOk bs h.sched) step.slices
      → ((p : ℕ) → slice_count p step.slices ≤ 1)
      → Goes bs (forward model now step h)
  unfolding forward
  forward-Goes step h sound slices single = elim (Option-cases (model step)) [
    | inl thrown ↦ rw (thrown, forward) (die-Goes now h sound)
    | inr (sampled, given) ↦
        let (s', done, h', _, _) =
          on_step_done-Sound now step sampled h.sched sound.sound slices single
            (omega (arith, one_each step sampled given)) in
        (
          at_top (refresh_gauges (mark_progress now (told h s'))),
          rw (given, forward) (rw done refl),
          (live, progressed_late now _ (told-Sound sound s' h')),
        )
  ]

  pub plan_step-Goes : (h : Host) → HostSound live bs h → Goes bs (plan_step model now h)
  unfolding plan_step
  plan_step-Goes h sound =
      let (step, s, done, plan) = schedule-Planned now h.sched sound.sound in
      let after = told-Sound sound s plan.sound in
      elim (Bool-cases (length step.slices == 0)) [
        | inl nothing ↦ elim (Bool-cases (has_work s)) [
          | inl work ↦ (
            at_top (refresh_gauges (told h s)),
            simp (done, nothing, work) refl,
            (live, refreshed _ after),
          )
          | inr rest ↦ (
            at_top (mark_progress now (refresh_gauges (told h s))),
            simp (done, nothing, rest) refl,
            (live, progressed now _ after),
          )
        ]
        | inr planned ↦
            let (h', goes, healthy) =
              forward-Goes step (told h s) after (slices-told bs step.slices h s plan.slices)
                (plan.single) in
            (h', simp (done, planned) goes, healthy)
      ]

  pub pulled-Sound :
      (h : Host) (s : Scheduler)
      → HostSound live bs h
      → Sound (pulled live h.engine.inbox) bs s
      → ((k : ℕ) → count k (pulled live h.engine.inbox) ≡ count k live + id_count k h.engine.inbox)
      → HostSound (pulled live h.engine.inbox) bs (told (emptied h) s)
  unfolding told id_count
  pulled-Sound h s sound h' counts = record {
    sound = Sound-view _ refl refl refl refl h';
    apart = λ k. omega (arith, counts k, sound.apart k);
    older = λ k i. sound.older k (omega (arith, counts k, i));
    blank = tt;
  }

module _ {live : List ℕ} {bs : ℕ} (model : StepInput → Option (List ℕ)) (now : ℕ)
    (one_each : OneEach model) (h : Host) (sound : HostSound live bs h) where
  pull_and_step-Goes : Goes bs (pull_and_step model now h)
  unfolding pull_and_step
  pull_and_step-Goes =
      let (entered, counts) =
        pull_all-Sound live now h.engine.inbox h.sched sound.sound sound.apart sound.blank in
      let (s, done, h') = abort_all-Sound now h.abort_inbox _ entered in
      let after = pulled-Sound model now one_each h s sound h' counts in
      elim (Bool-cases (has_work s)) [
        | inl work ↦
            let (h2, goes, healthy) =
              plan_step-Goes model now one_each (told (emptied h) s) after in
            (h2, simp (done, work) goes, healthy)
        | inr rest ↦ (
          at_top (refresh_gauges (mark_progress now (told (emptied h) s))),
          simp (done, rest) refl,
          (pulled live h.engine.inbox, progressed_late now _ after),
        )
      ]

  turn_at-Goes : (place : Place) → Goes bs (turn_at model now h place)
  unfolding turn_at
  turn_at-Goes Place.top = elim (Bool-cases (not h.running || is_idle h && h.draining)) [
    | inl over ↦ rw over (leave-Goes now h sound)
    | inr going ↦ rw going (elim (Bool-cases (is_idle h)) [
      | inl calm ↦ (
        record (mark_progress now h) { place = Place.idle },
        rw calm refl,
        (live, HostSound-view _ refl refl refl sound),
      )
      | inr busy ↦ rw busy pull_and_step-Goes
    ])
  ]
  turn_at-Goes Place.idle = elim (Bool-cases (not h.running)) [
    | inl over ↦ rw over (leave-Goes now h sound)
    | inr going ↦ rw going (elim (Bool-cases (is_idle h)) [
      | inl calm ↦ (
        at_top (refresh_gauges (mark_progress now h)),
        rw calm refl,
        (live, progressed_late now h sound),
      )
      | inr busy ↦ rw busy pull_and_step-Goes
    ])
  ]
  turn_at-Goes Place.releasing = release-Goes now h sound
  turn_at-Goes Place.gone = (h, refl, (live, sound))
  turn_at-Goes Place.joined = (h, refl, (live, sound))

-- From a host whose scheduler is sound, whose inbox holds new and different requests with no block
-- and a prompt that is not empty, a turn of the thread, wherever it stands, passes every assertion
-- and leaves such a host, if the model throws or gives one token for each row of logits.
pub turn-Healthy :
    {bs : ℕ} (model : StepInput → Option (List ℕ)) (now : ℕ) (h : Host)
    → OneEach model
    → Healthy bs h
    → (h' : Host) × (turn model now h ≡ ok h') × Healthy bs h'
unfolding turn
turn-Healthy model now h one_each (live, sound) = turn_at-Goes model now one_each h sound h.place
