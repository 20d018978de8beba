-- ===== src/Parallel/Protocol.antt =====
-- include/engine/parallel.h: the invariant between the steps of the threads, and the caller's
-- steps.
use llm_engine.Base.{
  ℕ, zero, suc, ◌+◌, ◌-◌, ◌≤◌, ◌<◌, ◌≡◌, refl, sym, ◌∙◌, Bool, true, false, List, [], ◌∷◌, Option,
  none, some, if◌then◌else◌, ltb, ◌==◌, ◌&&◌, ◌||◌, sum_below, sum_below-cong, sum_below-change,
  sum_below-zero, sum_below-const, arith, Bool-cases, inl, inr,
}
use llm_engine.Parallel.Defs.{
  ThreadPool, WorkerPhase, CallerPhase, part, make, call_body, parallel_for, run_first,
}
use llm_engine.Parallel.Partition.{covers, part_covers}

abbrev pub is_outside : CallerPhase → Bool
is_outside CallerPhase.outside = true
is_outside CallerPhase.forked = false
is_outside CallerPhase.waiting = false

abbrev pub is_waiting : CallerPhase → Bool
is_waiting CallerPhase.outside = false
is_waiting CallerPhase.forked = false
is_waiting CallerPhase.waiting = true

abbrev pub is_sleeping : WorkerPhase → Bool
is_sleeping WorkerPhase.sleeping = true
is_sleeping WorkerPhase.awake = false
is_sleeping WorkerPhase.ran = false
is_sleeping WorkerPhase.stopped = false

abbrev pub is_stopped : WorkerPhase → Bool
is_stopped WorkerPhase.sleeping = false
is_stopped WorkerPhase.awake = false
is_stopped WorkerPhase.ran = false
is_stopped WorkerPhase.stopped = true

-- Past its part.
abbrev pub is_settled : WorkerPhase → Bool
is_settled WorkerPhase.sleeping = true
is_settled WorkerPhase.awake = false
is_settled WorkerPhase.ran = true
is_settled WorkerPhase.stopped = false

-- Whether part `i` has been run for the current generation, and whether its worker has still to report.
abbrev pub has_run : ThreadPool → ℕ → Bool
has_run t i =
    if i == 0 then is_waiting t.caller else t.seen i == t.generation && is_settled (t.phase i)

abbrev pub pending : ThreadPool → ℕ → ℕ
pending t i =
    if i == 0 then 0 else if t.seen i == t.generation && is_sleeping (t.phase i) then 0 else 1

-- How many calls of the body covered position `k`.
unfoldable pub cover_count : List (ℕ × ℕ) → ℕ → ℕ
cover_count [] k = 0
cover_count (r ∷ rs) k = covers r k + cover_count rs k

abbrev pub run_covers : ThreadPool → ℕ → ℕ → ℕ
run_covers t k i = if has_run t i then part_covers (part t.n t.count i) k else 0

abbrev IsWorker : ThreadPool → ℕ → Type 0
IsWorker t i = (0 < i) × (i < t.n)

pub record Inv (t : ThreadPool) : Type 0 where
  pub positive : 0 < t.n
  pub going : t.stop ≡ false
  pub alive : (i : ℕ) → is_stopped (t.phase i) ≡ false
  pub seen_le : (i : ℕ) → t.seen i ≤ t.generation
  pub current :
      (i : ℕ)
      → 0 < i
      → i < t.n
      → is_sleeping (t.phase i) ≡ false
      → (t.seen i == t.generation) ≡ true
  pub reports : t.remaining ≡ sum_below t.n (pending t)
  pub idle : is_outside t.caller ≡ true → t.remaining ≡ 0
  pub covered :
      is_outside t.caller ≡ false
      → (k : ℕ) → cover_count t.bodies k ≡ sum_below t.n (run_covers t k)

make_pending : (threads n : ℕ) → sum_below n (pending (make threads)) ≡ 0
unfolding sum_below make
make_pending threads zero = refl
make_pending threads (suc n) = ground (arith, make_pending threads n)

pub make-Inv : (threads : ℕ) → Inv (make threads)
unfolding make
make-Inv threads = record {
  positive = ground arith;
  going = refl;
  alive = λ i. refl;
  seen_le = λ i. omega arith;
  current = λ i a b e. refl;
  reports = sym (make_pending threads (if ltb 1 threads then threads else 1));
  idle = λ e. refl;
  covered = λ e. cc;
}

pub cover_count-call_body :
    (r : Option (ℕ × ℕ)) (bodies : List (ℕ × ℕ)) (k : ℕ)
    → cover_count (call_body r bodies) k ≡ part_covers r k + cover_count bodies k
unfolding call_body cover_count
cover_count-call_body none bodies k = omega arith
cover_count-call_body (some r) bodies k = refl

sum_below-none : (n : ℕ) → sum_below n (λ i. 0) ≡ 0
unfolding sum_below
sum_below-none zero = refl
sum_below-none (suc n) = omega (arith, sum_below-none n)

-- A worker with nothing to report sleeps, and has seen the current generation.
reported :
    (t : ThreadPool) (i : ℕ)
    → 0 < i
    → pending t i ≡ 0
    → (t.seen i == t.generation && is_sleeping (t.phase i)) ≡ true
reported t i pos e = ground arith

-- A new generation, with everyone's part to be run.
abbrev fork : ThreadPool → ℕ → ThreadPool
fork t count = record t {
  count = count;
  remaining = t.n - 1;
  generation = t.generation + 1;
  caller = CallerPhase.forked;
  bodies = [];
}

fork-Inv : (t : ThreadPool) (count : ℕ) → Inv t → is_outside t.caller ≡ true → Inv (fork t count)
unfolding cover_count
fork-Inv t count h out =
    let none_pending = sum_below-zero t.n (pending t) (omega (arith, h.reports, h.idle out)) in
    let stale = λ (i : ℕ). stale_seen (t.seen i) t.generation (h.seen_le i) in
    record {
      positive = h.positive;
      going = h.going;
      alive = h.alive;
      seen_le = λ i. omega (arith, h.seen_le i);
      current = λ i a b e. absurd (ground (arith, reported t i a (none_pending i b)));
      reports = omega (
        arith,
        sum_below-const t.n,
        positive_size t.n h.positive,
        sum_below-cong t.n (λ i. if i == 0 then 0 else 1) (pending (fork t count))
            (λ i k. ground (arith, stale i)),
      );
      idle = λ e. cc;
      covered = λ e k. sym (
          sum_below-cong t.n (run_covers (fork t count) k) (λ i. 0) (λ i l. ground (arith, stale i))
          ∙ sum_below-none t.n);
    }
  where
    stale_seen : (a g : ℕ) → a ≤ g → (a == g + 1) ≡ false
    stale_seen a g le = ground arith

    positive_size : (n : ℕ) → 0 < n → (if n == 0 then 1 else n) ≡ n
    positive_size n pos = ground arith

module _ (t : ThreadPool) (h : Inv t) where
  pub call-Inv : (count : ℕ) → t.caller ≡ CallerPhase.outside → Inv (parallel_for t count)
  unfolding parallel_for
  call-Inv count out = elim (Bool-cases (count == 0)) [
    | inl nothing ↦ rw nothing (direct [])
    | inr some_work ↦ elim (Bool-cases (t.n == 1 || count == 1)) [
      | inl small ↦ rw (some_work, small) (direct ((0, count) ∷ []))
      | inr large ↦ rw (some_work, large) (fork-Inv t count h (rw out))
    ]
  ]
    where
      direct : (bodies : List (ℕ × ℕ)) → Inv (record t { bodies = bodies })
      direct bodies = record {
        positive = h.positive;
        going = h.going;
        alive = h.alive;
        seen_le = h.seen_le;
        current = h.current;
        reports = h.reports;
        idle = h.idle;
        covered = λ e. absurd cc;
      }

  -- The caller's own part.
  pub first-Inv : t.caller ≡ CallerPhase.forked → Inv (run_first t)
  first-Inv forked = record {
    positive = h.positive;
    going = h.going;
    alive = h.alive;
    seen_le = h.seen_le;
    current = h.current;
    reports = h.reports;
    idle = λ e. cc;
    covered = λ e k.
        let before = h.covered (rw forked) k in
        let added = cover_count-call_body (part t.n t.count 0) t.bodies k in
        let grows =
          sum_below-change t.n 0 (part_covers (part t.n t.count 0) k) (run_covers t k)
            (run_covers (run_first t) k) h.positive (rw forked (omega arith))
            (λ i ne. ground arith) in
        omega (arith, before, added, grows);
  }

  pub leave-Inv : t.remaining ≡ 0 → Inv (record t { caller = CallerPhase.outside })
  leave-Inv over = record {
    positive = h.positive;
    going = h.going;
    alive = h.alive;
    seen_le = h.seen_le;
    current = h.current;
    reports = h.reports;
    idle = λ e. over;
    covered = λ e. cc;
  }
