-- ===== src/Engine/Serve.antt =====
-- src/api/engine.cpp, `run` and `run_loop`: the inbox, the scheduler and the pool together.
use llm_engine.Base.{
  ℕ, ◌+◌, ◌≤◌, ◌<◌, ◌≡◌, refl, List, [], ◌∷◌, Option, some, Checked, ok, ◌==◌, length, count, All,
  arith, Bool-cases, inl, inr,
}
use llm_engine.Sequence.{Sequence, StepSlice, StepInput}
use llm_engine.Scheduler.Defs.{Scheduler}
use llm_engine.Scheduler.Sound.{Sound, Sound-view}
use llm_engine.Scheduler.Evict.{abort-Sound}
use llm_engine.Scheduler.Slices.{SliceOk, SliceOk-Later, All-map, total_logits}
use llm_engine.Scheduler.Plan.{schedule-Planned}
use llm_engine.Scheduler.Runs.{Untouched}
use llm_engine.Engine.Inbox.{id_count}
use llm_engine.Engine.Pull.{pull-Sound}
use llm_engine.Engine.Loop.{
  Host, Place, told, leave, die, pull_all, abort_all, release, refresh_gauges, seq_ids, slice_ids,
  at_top, mark_progress,
}

-- `live` names the requests that the scheduler was given; those in the inbox are others, and new.
pub record HostSound (live : List ℕ) (bs : ℕ) (h : Host) : Type 0 where
  pub sound : Sound live bs h.sched
  pub apart : (k : ℕ) → count k live + id_count k h.engine.inbox ≤ 1
  pub older : (k : ℕ) → 0 < count k live + id_count k h.engine.inbox → k < h.engine.next_id
  pub blank : All Untouched h.engine.inbox

abbrev pub Healthy : ℕ → Host → Type 0
Healthy bs h = (live : List ℕ) × HostSound live bs h

-- The model gives a token for each row of logits, or throws.
abbrev pub OneEach : (StepInput → Option (List ℕ)) → Type 0
OneEach model =
    (step : StepInput) (toks : List ℕ)
    → model step ≡ some toks
    → length toks ≡ total_logits step.slices

abbrev pub pulled : List ℕ → List Sequence → List ℕ
pulled live [] = live
pulled live (q ∷ qs) = pulled (q.id ∷ live) qs

pub pull_all-Sound :
    {bs : ℕ} (live : List ℕ) (now : ℕ) (qs : List Sequence) (s : Scheduler)
    → Sound live bs s
    → ((k : ℕ) → count k live + id_count k qs ≤ 1)
    → All Untouched qs
    → Sound (pulled live qs) bs (pull_all now qs s)
      × ((k : ℕ) → count k (pulled live qs) ≡ count k live + id_count k qs)
unfolding pull_all id_count
pull_all-Sound live now [] s h apart blank = (h, λ k. omega arith)
pull_all-Sound live now (q ∷ qs) s h apart (b, blank) =
    let (h', counts) =
      pull_all-Sound (q.id ∷ live) now qs _ (pull-Sound now s q h (ground (arith, apart q.id)) b)
        (λ k. ground (arith, apart k)) blank in
    (h', λ k. ground (arith, counts k))

pub abort_all-Sound :
    {live : List ℕ} {bs : ℕ} (now : ℕ) (ids : List ℕ) (s : Scheduler)
    → Sound live bs s
    → (s' : Scheduler) × (abort_all now ids s ≡ ok s') × Sound live bs s'
unfolding abort_all
abort_all-Sound now [] s h = (s, refl, h)
abort_all-Sound {live} {bs} now (id ∷ ids) s h =
    let (s1, done, h1) = abort-Sound live bs s now id h in
    let (s2, done2, h2) = abort_all-Sound now ids s1 h1 in (s2, rw done done2, h2)

module _ {live : List ℕ} {bs : ℕ} {h : Host} (sound : HostSound live bs h) where
  -- Another scheduler that is sound for the same requests.
  pub told-Sound : (s : Scheduler) → Sound live bs s → HostSound live bs (told h s)
  unfolding told
  told-Sound s h' = record {
    sound = Sound-view _ refl refl refl refl h';
    apart = sound.apart;
    older = sound.older;
    blank = sound.blank;
  }

-- What is left alone by `refresh_gauges`, the flags and the place in the loop.
pub HostSound-view :
    {live : List ℕ} {bs : ℕ} {h : Host} (h' : Host)
    → h'.sched ≡ h.sched
    → h'.engine.inbox ≡ h.engine.inbox
    → h'.engine.next_id ≡ h.engine.next_id
    → HostSound live bs h
    → HostSound live bs h'
HostSound-view h' s i n sound = record {
  sound = rw s sound.sound;
  apart = rw i sound.apart;
  older = rw (i, n) sound.older;
  blank = rw i sound.blank;
}

pub slices-told :
    (bs : ℕ) (sls : List StepSlice) (h : Host) (s : Scheduler)
    → All (SliceOk bs s) sls
    → All (SliceOk bs (told h s).sched) sls
unfolding told
slices-told bs sls h s =
    All-map _ _ sls (λ sl. SliceOk-Later bs sl (record { cfg = refl; stays = λ p k. (k, refl) }))

pub refreshed :
    {live : List ℕ} {bs : ℕ} (h : Host)
    → HostSound live bs h
    → HostSound live bs (at_top (refresh_gauges h))
unfolding refresh_gauges
refreshed h sound = HostSound-view _ refl refl refl sound

pub progressed :
    {live : List ℕ} {bs : ℕ} (now : ℕ) (h : Host)
    → HostSound live bs h
    → HostSound live bs (at_top (mark_progress now (refresh_gauges h)))
unfolding refresh_gauges
progressed now h sound = HostSound-view _ refl refl refl sound

pub progressed_late :
    {live : List ℕ} {bs : ℕ} (now : ℕ) (h : Host)
    → HostSound live bs h
    → HostSound live bs (at_top (refresh_gauges (mark_progress now h)))
unfolding refresh_gauges
progressed_late now h sound = HostSound-view _ refl refl refl sound

-- A result that does not fail, and is healthy.
abbrev pub Goes : ℕ → Checked Host → Type 0
Goes bs r = (h' : Host) × (r ≡ ok h') × Healthy bs h'

module _ {live : List ℕ} {bs : ℕ} (now : ℕ) where
  pub leave-Goes : (h : Host) → HostSound live bs h → Goes bs (leave now h)
  unfolding leave
  leave-Goes h sound =
      let (s, done, h') =
        abort_all-Sound now (seq_ids h.sched h.sched.running) h.sched sound.sound in
      (
        record (told h s) { place = Place.releasing },
        rw done refl,
        (live, HostSound-view _ refl refl refl (told-Sound sound s h')),
      )

  pub die-Goes : (h : Host) → HostSound live bs h → Goes bs (die now h)
  unfolding die
  die-Goes h sound = leave-Goes _ (HostSound-view _ refl refl refl sound)

  pub release-Goes : (h : Host) → HostSound live bs h → Goes bs (release now h)
  unfolding release refresh_gauges
  release-Goes h sound = elim (Bool-cases (length h.sched.waiting == 0)) [
    | inl empty ↦ (
      record (refresh_gauges h) { place = Place.gone },
      rw empty refl,
      (live, HostSound-view _ refl refl refl sound),
    )
    | inr some_left ↦
        let (step, s, done, plan) = schedule-Planned now h.sched sound.sound in
        let (s', done', h') = abort_all-Sound now (slice_ids s step.slices) s plan.sound in
        elim (Bool-cases (length step.slices == 0)) [
          | inl none_planned ↦ (
            record (refresh_gauges (told h s')) { place = Place.gone },
            simp (some_left, done, done', none_planned) refl,
            (live, HostSound-view _ refl refl refl (told-Sound sound s' h')),
          )
          | inr planned ↦ (
            told h s',
            simp (some_left, done, done', planned) refl,
            (live, told-Sound sound s' h'),
          )
        ]
  ]
