-- ===== src/Engine/Pull.antt =====
-- src/api/engine.cpp, `run_loop`: requests from the inbox enter the scheduler.
use llm_engine.Base.{
  ℕ, ◌+◌, ◌<◌, ◌≡◌, refl, subst, true, false, List, ◌∷◌, ltb, ◌==◌, update, count, arith,
  Bool-cases, inl, inr,
}
use llm_engine.KvCache.{empty_table, Inv-cong, entries, empty_table-IsTable}
use llm_engine.Sequence.{Sequence}
use llm_engine.Scheduler.Defs.{Scheduler, put_seq, add}
use llm_engine.Scheduler.Pool.{Known, tables_of, tables_of-update}
use llm_engine.Scheduler.Sound.{Sound}
use llm_engine.Scheduler.Runs.{Untouched, add-Sound}

==_refl : (n : ℕ) → (n == n) ≡ true
==_refl n = ground arith

tables_of-grow :
    (live : List ℕ) (seqs : ℕ → Sequence) (p : ℕ) (q : Sequence)
    → count p live ≡ 0
    → q.block_table ≡ empty_table
    → (b x : ℕ) → tables_of live seqs b x ≡ tables_of (p ∷ live) (update seqs p q) b x
unfolding tables_of entries
tables_of-grow live seqs p q new e b x =
    simp (==_refl p, e) (omega (arith, tables_of-update p live seqs q new b x))

module _ {live : List ℕ} {bs : ℕ} {s : Scheduler} (h : Sound live bs s) (p : ℕ) (q : Sequence)
    (new : count p live ≡ 0) (blank : Untouched q) where
  -- A request that was not known gets a place in the store.
  pub Sound-grow : Sound (p ∷ live) bs (put_seq s p q)
  Sound-grow = record {
    pool = record {
      inv = Inv-cong _ _ (λ b x. tables_of-grow live s.seqs p q new blank.0 b x) h.pool.inv;
      tables = λ r k. elim (Bool-cases (r == p)) [
        | inl hit ↦ rw (hit, blank.0) empty_table-IsTable
        | inr miss ↦ rw miss (h.pool.tables r (ground (arith, k)))
      ];
      sized = h.pool.sized;
      unique = λ r. ground (arith, h.pool.unique r);
    };
    size = h.size;
    distinct = h.distinct;
    known = λ r k. ground (arith, h.known r k);
    computed = λ r k. elim (Bool-cases (r == p)) [
      | inl hit ↦ let (_, c, pos) = blank in rw hit (omega (arith, c), pos)
      | inr miss ↦ rw miss (h.computed r (ground (arith, k)))
    ];
    waits = λ r k. rw (apart r (omega (arith, k))) (h.waits r k);
    runs = λ r k. rw (apart r (omega (arith, k))) (h.runs r k);
  }
    where
      apart : (r : ℕ) → 0 < count r s.waiting + count r s.running → (r == p) ≡ false
      apart r k = elim (Bool-cases (r == p)) [
        | inl hit ↦
            let e : r ≡ p = ground arith in
            absurd (omega (arith, subst (λ t. Known live t) e (h.known r k), new))
        | inr miss ↦ miss
      ]

-- A request that is not known stands in no queue.
unknown_off :
    {live : List ℕ} {bs : ℕ} {s : Scheduler} (p : ℕ)
    → Sound live bs s
    → count p live ≡ 0
    → count p s.waiting + count p s.running ≡ 0
unknown_off {s} p h new = elim (Bool-cases (ltb 0 (count p s.waiting + count p s.running))) [
  | inl in_queue ↦ absurd (omega (arith, h.known p (ground arith)))
  | inr out ↦ ground arith
]

-- A waiting request joins a sound scheduler.
pub pull-Sound :
    {live : List ℕ} {bs : ℕ} (now : ℕ) (s : Scheduler) (q : Sequence)
    → Sound live bs s
    → count q.id live ≡ 0
    → Untouched q
    → Sound
        (q.id ∷ live)
        bs
        (add (record s { seqs = update s.seqs q.id (record q { on_token = true }) }) now q.id)
pull-Sound now s q h new blank =
    let q' = record q { on_token = true } in
    add-Sound now q.id (put_seq s q.id q') (Sound-grow h q.id q' new blank) (ground arith)
      (unknown_off q.id h new) (simp (==_refl, blank.0) refl)
