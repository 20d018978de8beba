-- ===== src/Scheduler/Settle.antt =====
-- src/scheduler/scheduler.cpp, `on_step_done`: a whole step is applied.
use llm_engine.Base.{
  ℕ, ◌+◌, ◌≤◌, ◌<◌, ◌≡◌, ◌≢◌, refl, ap, ◌∙◌, inl, inr, true, List, [], ◌∷◌, ok, ◌>>=◌, ◌==◌, not,
  ◌&&◌, length, count, arith, Bool-cases, All,
}
use llm_engine.KvCache.{empty_table}
use llm_engine.Sequence.{StepSlice, StepInput}
use llm_engine.Scheduler.Defs.{Scheduler, put_table, count_finished}
use llm_engine.Scheduler.Done.{
  Applied, apply_slices, retire_all, all_finished, free_batch, drain_batch, on_step_done,
}
use llm_engine.Scheduler.Step.{schedule}
use llm_engine.Scheduler.Plan.{schedule-Planned}
use llm_engine.Scheduler.Pool.{Known, free_table-ok}
use llm_engine.Scheduler.Sound.{Sound, Sound-view, Sound-less, Sound-off, retire-GivesUp}
use llm_engine.Scheduler.Slices.{SliceOk, slice_count, total_logits}
use llm_engine.Scheduler.Apply.{Settles, apply_slice-Settles}

-- A sequence that is in neither queue any more, or in one of them.
abbrev Parted : List ℕ → Applied → Type 0
Parted live a =
    (r : ℕ)
    → (count r a.done + count r a.sched.waiting + count r a.sched.running ≤ 1)
      × (0 < count r a.done + count r a.sched.waiting + count r a.sched.running → Known live r)

-- The slices of the other sequences stay applicable.
SliceOk-Settles :
    {live : List ℕ} {bs p used : ℕ} {a a' : Applied} (sls : List StepSlice)
    → Settles live bs p used a a'
    → slice_count p sls ≡ 0
    → All (SliceOk bs a.sched) sls
    → All (SliceOk bs a'.sched) sls
unfolding slice_count
SliceOk-Settles [] t e all = tt
SliceOk-Settles {p = p} (sl ∷ sls) t e (o, all) =
    let ne : sl.seq ≢ p = λ k. ground arith in
    let same = t.others sl.seq ne in
    (
      record {
        resident = omega (arith, t.stay sl.seq ne, o.resident);
        starts = rw same o.starts;
        nonempty = o.nonempty;
        within = rw same o.within;
        logits = rw same o.logits;
        covered = λ k. rw same (o.covered k);
      },
      SliceOk-Settles sls t (ground arith) all,
    )

apply_slices-Parted :
    {live : List ℕ} {bs : ℕ} (now : ℕ) (sls : List StepSlice) (a : Applied)
    → Sound live bs a.sched
    → Parted live a
    → All (SliceOk bs a.sched) sls
    → ((p : ℕ) → slice_count p sls ≤ 1)
    → total_logits sls ≤ length a.sampled
    → (a' : Applied) × (apply_slices now sls a ≡ ok a')
      × Sound live bs a'.sched
      × Parted live a'
      × (a'.sched.cfg ≡ a.sched.cfg)
      × (a'.sched.waiting ≡ a.sched.waiting)
unfolding apply_slices slice_count total_logits
apply_slices-Parted now [] a h parted all single enough = (a, refl, h, parted, refl, refl)
apply_slices-Parted {live} {bs} now (sl ∷ sls) a h parted (o, all) single enough =
    let (a', done, t) = apply_slice-Settles now a sl h o (omega (arith, enough)) in
    let parted' : Parted live a' = λ r.
      let (apart, known) = parted r in
      (
        omega (arith, apart, t.moves r, ap (count r) t.waiting),
        (λ k. known (omega (arith, k, t.moves r, ap (count r) t.waiting))),
      ) in
    let alone : slice_count sl.seq sls ≡ 0 = ground (arith, single sl.seq) in
    let (a'', done', h', parted'', cfg, waiting) =
      apply_slices-Parted now sls a' t.sound parted' (SliceOk-Settles sls t alone all)
        (λ p. omega (arith, single p)) (omega (arith, t.sampled, enough)) in
    (a'', rw done done', h', parted'', cfg ∙ t.cfg, waiting ∙ t.waiting)

retire_all-Sound :
    {live : List ℕ} {bs : ℕ} (now : ℕ) (ps : List ℕ) (s : Scheduler)
    → Sound live bs s
    → ((p : ℕ) → 0 < count p ps → Known live p × (count p s.waiting + count p s.running ≡ 0))
    → (s' : Scheduler) × (retire_all now ps s ≡ ok s')
      × Sound live bs s'
      × (s'.cfg ≡ s.cfg)
      × (s'.waiting ≡ s.waiting)
      × (s'.running ≡ s.running)
unfolding retire_all
retire_all-Sound now [] s h off = (s, refl, h, refl, refl, refl)
retire_all-Sound now (p ∷ ps) s h off =
    let (known, out) = off p (ground arith) in
    let (s', done, g) = retire-GivesUp h p known out now (s.seqs p).finish in
    let (s'', done', h', cfg, waiting, running) = retire_all-Sound now ps s' g.sound (λ r k.
      let (known', out') = off r (omega arith) in (known', rw (g.waiting, g.running) out')) in
    (s'', rw done done', h', cfg ∙ g.cfg, waiting ∙ g.waiting, running ∙ g.running)

-- Nobody is resident once the members of the batch have given back their blocks.
abbrev emptied : Scheduler → Scheduler
emptied s = record s { running = [] }

free_batch-Sound :
    {live : List ℕ} {bs : ℕ} (ps : List ℕ) (s : Scheduler)
    → Sound live bs (emptied s)
    → ((p : ℕ) → 0 < count p ps → Known live p × (count p s.waiting ≡ 0))
    → (s' : Scheduler) × (free_batch ps s ≡ ok s')
      × Sound live bs (emptied s')
      × (s'.cfg ≡ s.cfg)
      × (s'.waiting ≡ s.waiting)
unfolding free_batch
free_batch-Sound [] s h off = (s, refl, h, refl, refl)
free_batch-Sound (p ∷ ps) s h off =
    let (known, out) = off p (ground arith) in
    let bare = record (s.seqs p) { block_table = empty_table } in
    let (kv, done, pool, same) = free_table-ok _ s p h.pool known in
    let freed = put_table s p kv empty_table in
    let h' =
      Sound-view (emptied (count_finished freed)) refl refl refl refl
        (Sound-off h p bare kv (omega (arith, out)) pool same (h.computed p known)) in
    let (s', done', h'', cfg, waiting) =
      free_batch-Sound ps (count_finished freed) h' (λ r k. off r (omega (arith, k))) in
    (s', rw done done', h'', cfg, waiting)

drain_batch-Sound :
    {live : List ℕ} {bs : ℕ} (s : Scheduler)
    → Sound live bs s
    → (s' : Scheduler) × (drain_batch s ≡ ok s')
      × Sound live bs s'
      × (s'.cfg ≡ s.cfg)
      × (s'.waiting ≡ s.waiting)
unfolding drain_batch
drain_batch-Sound s h =
    elim (Bool-cases
      (not s.cfg.continuous && not (length s.running == 0) && all_finished s.seqs s.running)) [
        | inr busy ↦ (s, rw (busy, drain_batch), h, refl, refl)
        | inl over ↦
            let less = Sound-less h s.waiting [] (λ r. omega arith) (λ r. omega arith) in
            let (s', done, h', cfg, waiting) =
              free_batch-Sound s.running s less
                (λ p k. (h.known p (omega (arith, k)), omega (arith, k, h.distinct p))) in
            (
              record s' { running = []; static_batch_open = true },
              rw (over, done, drain_batch),
              Sound-view _ refl refl refl refl h',
              cfg,
              waiting,
            )
      ]

-- From a sound scheduler, `on_step_done` applies a step without a failed assertion if each of its
-- slices is as `schedule` plans them, no sequence has two slices and there is a sampled token for
-- each row of logits; the scheduler is sound afterwards, with the same configuration and the same
-- queue.
pub on_step_done-Sound :
    {live : List ℕ} {bs : ℕ} (now : ℕ) (step : StepInput) (sampled : List ℕ) (s : Scheduler)
    → Sound live bs s
    → All (SliceOk bs s) step.slices
    → ((p : ℕ) → slice_count p step.slices ≤ 1)
    → total_logits step.slices ≤ length sampled
    → (s' : Scheduler) × (on_step_done now step sampled s ≡ ok s')
      × Sound live bs s'
      × (s'.cfg ≡ s.cfg)
      × (s'.waiting ≡ s.waiting)
unfolding on_step_done
on_step_done-Sound now step sampled s h all single enough =
    let (a, done, h1, parted, cfg, waiting) =
      apply_slices-Parted now step.slices (record { sched = s; sampled = sampled; done = [] }) h
        (λ r. (omega (arith, h.distinct r), (λ k. h.known r (omega (arith, k))))) all single
        enough in
    let (s2, done2, h2, cfg2, waiting2, running2) = retire_all-Sound now a.done a.sched h1 (λ r k.
      let (apart, known) = parted r in (known (omega (arith, k)), omega (arith, apart, k))) in
    let (s3, done3, h3, cfg3, waiting3) = drain_batch-Sound s2 h2 in
    (
      s3,
      rw (done, done2, done3, on_step_done),
      h3,
      cfg3 ∙ cfg2 ∙ cfg,
      waiting3 ∙ waiting2 ∙ waiting,
    )

-- From a sound scheduler, planning a step and applying it with any tokens, one for each row of
-- logits, succeeds and leaves a sound scheduler with the same configuration.
pub iteration-Sound :
    {live : List ℕ} {bs : ℕ} (now later : ℕ) (s : Scheduler) (sample : StepInput → List ℕ)
    → Sound live bs s
    → ((step : StepInput) → length (sample step) ≡ step.num_logits)
    → (s' : Scheduler) × ((schedule now s >>= λ (step, planned).
          on_step_done later step (sample step) planned)
        ≡ ok s')
      × Sound live bs s'
      × (s'.cfg ≡ s.cfg)
iteration-Sound now later s sample h one_each =
    let (step, planned, done, plan) = schedule-Planned now s h in
    let (s', done', h', cfg, _) =
      on_step_done-Sound later step (sample step) planned plan.sound plan.slices plan.single
        (omega (arith, one_each step, plan.counted.logits)) in
    (s', rw done done', h', cfg ∙ plan.cfg)
