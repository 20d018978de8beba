-- ===== src/Scheduler/Rejects.antt =====
-- src/scheduler/scheduler.cpp, step 4 of `schedule`: deadlines, admission, the closing of a static
-- batch and the rejection of a request that can never run.
use llm_engine.Base.{
  ℕ, suc, ◌≡◌, refl, ap, ◌∙◌, inl, inr, Bool, true, false, List, [], ◌∷◌, ok, ltb, leb, ◌==◌, not,
  ◌&&◌, ◌||◌, length, count, arith, Bool-cases,
}
use llm_engine.Sequence.{FinishReason}
use llm_engine.Scheduler.Defs.{Scheduler}
use llm_engine.Scheduler.Admit.{Progress}
use llm_engine.Scheduler.Step.{close_batch, reject_head, admit, abandon_expired, age}
use llm_engine.Scheduler.Sound.{Sound, Sound-view, Sound-less, Later-refl}
use llm_engine.Scheduler.Slices.{Building}
use llm_engine.Scheduler.Waiting.{Waits, abandon_expired-Waits, age-Waits, retire-Waits}
use llm_engine.Scheduler.Enter.{Building-Later}
use llm_engine.Scheduler.Admission.{Filled, admit_all-Filled}

Filled-refl :
    {live : List ℕ} {bs : ℕ} {decode : List ℕ} (w : Progress)
    → Building live bs decode w
    → Filled live bs decode w w
Filled-refl w b = record { building = b; cfg = refl; spent = refl; bounded = λ k. k }

Filled-Waits :
    {live : List ℕ} {bs : ℕ} {decode : List ℕ} {w w' : Progress} (s : Scheduler)
    → Filled live bs decode w w'
    → Waits live bs w'.sched s
    → Filled live bs decode w (record w' { sched = s })
Filled-Waits {w' = w'} s f v = record {
  building = Building-Later w' s f.building v.sound v.later;
  cfg = v.later.cfg ∙ f.cfg;
  spent = f.spent;
  bounded = λ k. rw (v.later.cfg, v.running) (f.bounded k);
}

Filled-trans :
    {live : List ℕ} {bs : ℕ} {decode : List ℕ} {w w' w'' : Progress}
    → Filled live bs decode w w'
    → Filled live bs decode w' w''
    → Filled live bs decode w w''
Filled-trans f g = record {
  building = g.building;
  cfg = g.cfg ∙ f.cfg;
  spent = g.spent ∙ f.spent;
  bounded = λ k. g.bounded (f.bounded k);
}

close_batch-Waits :
    {live : List ℕ} {bs : ℕ} {decode : List ℕ} (w : Progress)
    → Building live bs decode w
    → Waits live bs w.sched (close_batch w).sched
      × ((close_batch w).step ≡ w.step)
      × ((close_batch w).budget ≡ w.budget)
unfolding close_batch
close_batch-Waits w b =
    let s = w.sched in
    elim (Bool-cases (
      not s.cfg.continuous
      && not (length s.waiting == 0)
      && (leb s.cfg.max_num_seqs (length s.running)
          || (ltb 0 w.budget && not (length s.running == 0))))) [
            | inl closes ↦ rw closes (
              record {
                sound = Sound-view _ refl refl refl refl b.sound;
                later = record { cfg = refl; stays = λ p k. (k, refl) };
                running = refl;
              },
              refl,
              refl,
            )
            | inr open_still ↦
                rw open_still
                  (record { sound = b.sound; later = Later-refl s; running = refl }, refl, refl)
          ]

reject_head-Waits :
    {live : List ℕ} {bs : ℕ} (now : ℕ) (idle : Bool) (s : Scheduler)
    → Sound live bs s
    → (s' : Scheduler) × (reject_head now idle s ≡ ok s') × Waits live bs s s'
unfolding reject_head
reject_head-Waits {live} {bs} now idle s h =
    elim (Bool-cases (not (length s.running == 0) || not idle)) [
      | inl busy ↦
          (s, rw (busy, reject_head), record { sound = h; later = Later-refl s; running = refl })
      | inr stuck ↦ go s h stuck s.waiting refl
    ]
  where
    go :
        (s : Scheduler)
        → Sound live bs s
        → (not (length s.running == 0) || not idle) ≡ false
        → (ps : List ℕ) → s.waiting ≡ ps
        → (s' : Scheduler) × (reject_head now idle s ≡ ok s') × Waits live bs s s'
    go s h stuck [] e = (
      s,
      simp (stuck, e, reject_head),
      record { sound = h; later = Later-refl s; running = refl },
    )
    go s h stuck (p ∷ ps) e =
        let counted = λ (r : ℕ). ap (count r) e in
        let less = Sound-less h ps s.running (λ r. omega (arith, counted r)) (λ r. omega arith) in
        let (s', done, v, _) =
          retire-Waits less now p FinishReason.abort (h.known p (ground (arith, counted p)))
            (ground (arith, counted p, h.distinct p)) in
        (
          s',
          rw (stuck, e, reject_head) done,
          record {
            sound = v.sound;
            later = record { cfg = v.later.cfg; stays = v.later.stays };
            running = v.running;
          },
        )

-- Step 4 succeeds, and keeps the step under construction and the bounds.
pub admit-Filled :
    {live : List ℕ} {bs : ℕ} {decode : List ℕ} (now : ℕ) (may_admit idle : Bool) (w : Progress)
    → Building live bs decode w
    → (w' : Progress) × (admit now may_admit idle w ≡ ok w') × Filled live bs decode w w'
unfolding admit
admit-Filled {live} {bs} {decode} now may_admit idle w b =
    let (s, done, v) = abandon_expired-Waits now w.sched b.sound in
    let first = Filled-Waits s (Filled-refl w b) v in go may_admit s done first
  where
    go :
        (may : Bool) (s : Scheduler)
        → abandon_expired now w.sched ≡ ok s
        → Filled live bs decode w (record w { sched = s })
        → (w' : Progress) × (admit now may idle w ≡ ok w') × Filled live bs decode w w'
    go false s done first = (record w { sched = s }, rw (done, admit), first)
    go true s done first =
        let older = record s { seqs = age s.waiting s.seqs } in
        let second = Filled-Waits older first (age-Waits s first.building.sound) in
        let (w', done', third) =
          admit_all-Filled (suc (length s.waiting)) now (record w { sched = older }) second.building
            (omega arith) in
        let (v, same_step, same_budget) = close_batch-Waits w' third.building in
        let fourth = Filled-Waits (close_batch w').sched (Filled-trans second third) v in
        let (s'', done'', v') = reject_head-Waits now idle (close_batch w').sched v.sound in
        let fifth = Filled-Waits s'' fourth v' in
        (
          record (close_batch w') { sched = s'' },
          rw (done, done', done'', admit),
          rw (same_step, same_budget) fifth,
        )
