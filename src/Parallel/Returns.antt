-- ===== src/Parallel/Returns.antt =====
-- include/engine/parallel.h: the state in which `parallel_for` waits and returns.
use llm_engine.Base.{
  ℕ, ◌<◌, ◌≡◌, refl, ◌∙◌, true, ◌==◌, sum_below-cong, sum_below-zero, arith, Bool-cases, inl, inr,
}
use llm_engine.Parallel.Defs.{
  ThreadPool, WorkerPhase, CallerPhase, part, make, Step, Runs, call, first, leave, waken, work,
  done, here, next,
}
use llm_engine.Parallel.Partition.{part_covers, part-covers}
use llm_engine.Parallel.Protocol.{
  Inv, is_sleeping, is_settled, pending, has_run, run_covers, cover_count, make-Inv, call-Inv,
  first-Inv, leave-Inv,
}
use llm_engine.Parallel.Workers.{waken-Inv, work-Inv, done-Inv}

Step-Inv : {t u : ThreadPool} → Inv t → Step t u → Inv u
Step-Inv {t} h (call count out) = call-Inv t h count out
Step-Inv {t} h (first forked) = first-Inv t h forked
Step-Inv {t} h (leave waits over) = leave-Inv t h over
Step-Inv {t} h (waken i range asleep stale) = waken-Inv t h i range asleep stale
Step-Inv {t} h (work i range awake) = work-Inv t h i range awake
Step-Inv {t} h (done i range ran_it) = done-Inv t h i range ran_it

Runs-Inv : {t u : ThreadPool} → Inv t → Runs t u → Inv u
Runs-Inv h here = h
Runs-Inv h (next r s) = Step-Inv (Runs-Inv h r) s

-- For any number of threads and any order of the threads' steps, when the caller's wait at the end
-- of `parallel_for` lets it through (no worker remains), the calls of the body have covered each
-- position of the range just once.
pub parallel_for-covers :
    (threads : ℕ) (t : ThreadPool)
    → Runs (make threads) t
    → t.caller ≡ CallerPhase.waiting
    → t.remaining ≡ 0
    → (k : ℕ) → k < t.count
    → cover_count t.bodies k ≡ 1
parallel_for-covers threads t r waits over k inside =
    let h = Runs-Inv (make-Inv threads) r in
    let all_reported = sum_below-zero t.n (pending t) (omega (arith, h.reports, over)) in
    let all_run = λ (i : ℕ) (l : i < t.n). run_it i (all_reported i l) in
    h.covered (rw waits) k
    ∙ sum_below-cong t.n (run_covers t k) (λ i. part_covers (part t.n t.count i) k)
        (λ i l. rw (all_run i l))
    ∙ part-covers t.n t.count k h.positive inside
  where
    settles : (p : WorkerPhase) → is_sleeping p ≡ true → is_settled p ≡ true
    settles WorkerPhase.sleeping e = refl
    settles WorkerPhase.awake e = cc
    settles WorkerPhase.ran e = cc
    settles WorkerPhase.stopped e = cc

    run_it : (i : ℕ) → pending t i ≡ 0 → has_run t i ≡ true
    run_it i e = elim (Bool-cases (i == 0)) [
      | inl zero_it ↦ rw (zero_it, waits)
      | inr worker ↦ ground (arith, settles (t.phase i))
    ]
