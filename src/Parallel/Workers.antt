-- ===== src/Parallel/Workers.antt =====
-- include/engine/parallel.h: lemmas on the workers' steps.
use llm_engine.Base.{
  ℕ, ◌+◌, ◌<◌, ◌≡◌, ◌≢◌, refl, subst, ◌∙◌, true, false, ltb, ◌==◌, ◌&&◌, update, sum_below-cong,
  sum_below-change, arith, Bool-cases, inl, inr,
}
use llm_engine.Parallel.Defs.{ThreadPool, WorkerPhase, part, wake, run_own, finish}
use llm_engine.Parallel.Partition.{part_covers}
use llm_engine.Parallel.Protocol.{Inv, pending, run_covers, cover_count-call_body}

-- The workers' steps. `range` says that `i` is the index of a worker.
module _ (t : ThreadPool) (h : Inv t) (i : ℕ) (range : (ltb 0 i && ltb i t.n) ≡ true) where
  bounds : (0 < i) × (i < t.n)
  bounds = (ground arith, ground arith)

  pub waken-Inv :
      t.phase i ≡ WorkerPhase.sleeping → (t.generation == t.seen i) ≡ false → Inv (wake t i)
  unfolding wake
  waken-Inv asleep stale =
      let woken = record t {
        seen = update t.seen i t.generation;
        phase = update t.phase i WorkerPhase.awake;
      } in
      rw h.going (record {
        positive = h.positive;
        going = refl;
        alive = λ j. ground (arith, h.alive j);
        seen_le = λ j. ground (arith, h.seen_le j);
        current = λ j a b e. ground (arith, h.current j a b);
        reports = h.reports ∙ sum_below-cong t.n (pending t) (pending woken) (λ j l. ground arith);
        idle = h.idle;
        covered = λ e k.
            h.covered e k
            ∙ sum_below-cong t.n (run_covers t k) (run_covers woken k) (λ j l. ground arith);
      })

  pub work-Inv : t.phase i ≡ WorkerPhase.awake → Inv (run_own t i)
  work-Inv awake =
      let seen_it : (t.seen i == t.generation) ≡ true = h.current i bounds.0 bounds.1 (rw awake) in
      record {
        positive = h.positive;
        going = h.going;
        alive = λ j. ground (arith, h.alive j);
        seen_le = h.seen_le;
        current = λ j a b e. elim (Bool-cases (j == i)) [
          | inl hit ↦
              let same : i ≡ j = ground arith in
              subst (λ q. (t.seen q == t.generation) ≡ true) same seen_it
          | inr miss ↦ h.current j a b (rw miss at e)
        ];
        reports =
            h.reports
            ∙ sum_below-cong t.n (pending t) (pending (run_own t i)) (λ j l. pending_kept j);
        idle = h.idle;
        covered = λ e k.
            let before = h.covered e k in
            let added = cover_count-call_body (part t.n t.count i) t.bodies k in
            let grows =
              sum_below-change t.n i (part_covers (part t.n t.count i) k) (run_covers t k)
                (run_covers (run_own t i) k) bounds.1 (ran_now k seen_it)
                (λ j ne. ran_before k j ne) in
            omega (arith, before, added, grows);
      }
    where
      self : (i == i) ≡ true
      self = ground arith

      is_zero : (i == 0) ≡ false
      is_zero = ground arith

      pending_kept : (j : ℕ) → pending t j ≡ pending (run_own t i) j
      pending_kept j = elim (Bool-cases (j == i)) [
        | inl hit ↦
            let same : i ≡ j = ground arith in rw (← same, self, is_zero, awake) (ground arith)
        | inr miss ↦ rw miss
      ]

      ran_now :
          (k : ℕ)
          → (t.seen i == t.generation) ≡ true
          → run_covers t k i + part_covers (part t.n t.count i) k ≡ run_covers (run_own t i) k i
      ran_now k seen_it = rw (is_zero, self, awake, seen_it) (omega arith)

      ran_before : (k j : ℕ) → j ≢ i → run_covers t k j ≡ run_covers (run_own t i) k j
      ran_before k j ne = elim (Bool-cases (j == i)) [
        | inl hit ↦ absurd (ne (ground arith))
        | inr miss ↦ rw miss
      ]

  pub done-Inv : t.phase i ≡ WorkerPhase.ran → Inv (finish t i)
  done-Inv ran_it =
      let seen_it : (t.seen i == t.generation) ≡ true = h.current i bounds.0 bounds.1 (rw ran_it) in
      let less =
        sum_below-change t.n i 1 (pending (finish t i)) (pending t) bounds.1
          (rw (is_zero, self, ran_it, seen_it) (omega arith)) (λ j ne. kept j ne) in
      record {
        positive = h.positive;
        going = h.going;
        alive = λ j. ground (arith, h.alive j);
        seen_le = h.seen_le;
        current = λ j a b e. elim (Bool-cases (j == i)) [
          | inl hit ↦
              let same : i ≡ j = ground arith in
              subst (λ q. (t.seen q == t.generation) ≡ true) same seen_it
          | inr miss ↦ h.current j a b (rw miss at e)
        ];
        reports = omega (arith, h.reports, less);
        idle = λ e. omega (arith, h.idle e);
        covered = λ e k.
            h.covered e k
            ∙ sum_below-cong t.n (run_covers t k) (run_covers (finish t i) k)
                (λ j l. settled_kept k j);
      }
    where
      self : (i == i) ≡ true
      self = ground arith

      is_zero : (i == 0) ≡ false
      is_zero = ground arith

      kept : (j : ℕ) → j ≢ i → pending (finish t i) j ≡ pending t j
      kept j ne = elim (Bool-cases (j == i)) [
        | inl hit ↦ absurd (ne (ground arith))
        | inr miss ↦ rw miss
      ]

      settled_kept : (k j : ℕ) → run_covers t k j ≡ run_covers (finish t i) k j
      settled_kept k j = elim (Bool-cases (j == i)) [
        | inl hit ↦ let same : i ≡ j = ground arith in rw (← same, self, is_zero, ran_it)
        | inr miss ↦ rw miss
      ]
