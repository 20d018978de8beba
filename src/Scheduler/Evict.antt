-- ===== src/Scheduler/Evict.antt =====
-- src/scheduler/scheduler.cpp: `abort` and `evict_for_memory`.
use llm_engine.Base.{
  ℕ, ◌+◌, ◌≤◌, ◌<◌, ◌≡◌, ◌≢◌, refl, subst, ◌∙◌, ◌⊎◌, inl, inr, Bool, true, false, List, [], ◌∷◌,
  Option, none, some, Checked, ok, if◌then◌else◌, ◌==◌, length, count, arith, Bool-cases,
  Option-cases,
}
use llm_engine.KvCache.{empty_table, is_empty}
use llm_engine.Sequence.{Sequence, FinishReason, is_finished}
use llm_engine.Scheduler.Defs.{
  Scheduler, put_table, take_id, abort, count_finished, take_last, preempt, requeue, reset,
  drop_finished, evict_for_memory, forget,
}
use llm_engine.Scheduler.Pool.{Known}
use llm_engine.Scheduler.Sound.{
  Sound, Sound-less, retire-GivesUp, drop_finished-GivesUp, put_seq-off, free_table-off, update_ne,
}

-- What is taken out of a list, and what is left.
abbrev pub Splits : List ℕ → ℕ → List ℕ → Type 0
Splits ps p rest =
    ((r : ℕ) → count r ps ≡ (if p == r then 1 else 0) + count r rest)
    × (length ps ≡ length rest + 1)

pub take_id-Splits :
    (seqs : ℕ → Sequence) (id : ℕ) (ps : List ℕ) (p : ℕ) (rest : List ℕ)
    → take_id seqs id ps ≡ some (p, rest)
    → Splits ps p rest × ((seqs p).id ≡ id)
unfolding take_id
take_id-Splits seqs id [] p rest e = absurd (ground arith)
take_id-Splits seqs id (x ∷ ps) p rest e = elim (Bool-cases ((seqs x).id == id)) [
  | inl hit ↦ (((λ r. ground arith), ground arith), ground arith)
  | inr miss ↦ elim (Option-cases (take_id seqs id ps)) [
    | inl out ↦ absurd (ground arith)
    | inr ((q, qs), found) ↦
        let (c, i) = take_id-Splits seqs id ps q qs found in
        (((λ r. ground (arith, c.0 r)), ground (arith, c.1)), ground (arith, i))
  ]
]

pub take_last-Splits :
    (test : ℕ → Bool) (ps : List ℕ) (p : ℕ) (rest : List ℕ)
    → take_last test ps ≡ some (p, rest)
    → Splits ps p rest × (test p ≡ true)
unfolding take_last
take_last-Splits test [] p rest e = absurd (ground arith)
take_last-Splits test (x ∷ ps) p rest e = elim (Option-cases (take_last test ps)) [
  | inr ((q, qs), found) ↦
      let (c, i) = take_last-Splits test ps q qs found in
      (((λ r. ground (arith, c.0 r)), ground (arith, c.1)), ground (arith, i))
  | inl out ↦ (((λ r. ground arith), ground arith), ground arith)
]

pub take_last-none :
    (test : ℕ → Bool) (ps : List ℕ) (p : ℕ)
    → take_last test ps ≡ none
    → 0 < count p ps
    → test p ≡ false
unfolding take_last
take_last-none test [] p e h = absurd (omega arith)
take_last-none test (x ∷ ps) p e h = elim (Option-cases (take_last test ps)) [
  | inr ((q, qs), found) ↦ absurd (ground arith)
  | inl out ↦ ground (arith, take_last-none test ps p out)
]

-- From a sound scheduler `abort` succeeds for any id, waiting, resident or unknown, and leaves a
-- sound scheduler.
pub abort-Sound :
    (live : List ℕ) (bs : ℕ) (s : Scheduler) (now id : ℕ)
    → Sound live bs s
    → (s' : Scheduler) × (abort s now id ≡ ok s') × Sound live bs s'
unfolding abort
abort-Sound live bs s now id h = elim (Option-cases (take_id s.seqs id s.waiting)) [
  | inr ((p, rest), found) ↦
      let (c, _) = take_id-Splits s.seqs id s.waiting p rest found in
      let less = Sound-less h rest s.running (λ r. omega (arith, c.0 r)) (λ r. omega arith) in
      let (s', done, g) =
        retire-GivesUp less p (h.known p (ground (arith, c.0 p)))
          (ground (arith, c.0 p, h.distinct p)) now FinishReason.abort in
      (s', rw (found, abort) done, g.sound)
  | inl out ↦ elim (Option-cases (take_id s.seqs id s.running)) [
    | inr ((p, rest), found) ↦
        let (c, _) = take_id-Splits s.seqs id s.running p rest found in
        let less = Sound-less h s.waiting rest (λ r. omega arith) (λ r. omega (arith, c.0 r)) in
        let (s', done, g) =
          retire-GivesUp less p (h.known p (ground (arith, c.0 p)))
            (ground (arith, c.0 p, h.distinct p)) now FinishReason.abort in
        (s', rw (out, found, abort) done, g.sound)
    | inl gone ↦ (s, rw (out, gone, abort), h)
  ]
]

abbrev pub last : List ℕ → Option ℕ
last [] = none
last (p ∷ []) = some p
last (p ∷ q ∷ ps) = last (q ∷ ps)

-- With no pointer twice, the rest is the list with its pointer removed.
forget-absent : (p : ℕ) (ps : List ℕ) → count p ps ≡ 0 → forget p ps ≡ ps
unfolding forget
forget-absent p [] e = refl
forget-absent p (x ∷ ps) e = ground (arith, forget-absent p ps (omega arith))

take_last-forget :
    (test : ℕ → Bool) (ps : List ℕ) (p : ℕ) (rest : List ℕ)
    → take_last test ps ≡ some (p, rest)
    → count p ps ≤ 1
    → rest ≡ forget p ps
unfolding take_last forget
take_last-forget test [] p rest e u = absurd (ground arith)
take_last-forget test (x ∷ ps) p rest e u = elim (Option-cases (take_last test ps)) [
  | inr ((q, qs), found) ↦
      let (c, _) = take_last-Splits test ps q qs found in
      ground (arith, c.0 q, take_last-forget test ps q qs found)
  | inl out ↦ ground (arith, forget-absent x ps)
]

take_last-last :
    (ps : List ℕ) (p : ℕ) (rest : List ℕ)
    → take_last (λ q. true) ps ≡ some (p, rest)
    → last ps ≡ some p
unfolding take_last
take_last-last [] p rest e = absurd (ground arith)
take_last-last (x ∷ []) p rest e = ground arith
take_last-last (x ∷ y ∷ ps) p rest e = elim (Option-cases (take_last (λ q. true) (y ∷ ps))) [
  | inr ((q, qs), found) ↦ let l = take_last-last (y ∷ ps) q qs found in ground (arith, l)
  | inl out ↦ absurd (ground (arith, take_last-none (λ q. true) (y ∷ ps) y out))
]

-- Whom an eviction picks: a finished sequence if there is one, else the youngest.
abbrev pub Chosen : Scheduler → ℕ → Type 0
Chosen s p =
    (is_finished (s.seqs p) ≡ true)
    ⊎ ((last s.running ≡ some p)
        × ((r : ℕ) → 0 < count r s.running → is_finished (s.seqs r) ≡ false))

-- The outcome of an eviction: `p` leaves, and every other resident sequence stays as it is.
pub record Evicts (live : List ℕ) (bs : ℕ) (s : Scheduler) (p : ℕ) (s' : Scheduler) : Type 0 where
  pub sound : Sound live bs s'
  pub cfg : s'.cfg ≡ s.cfg
  pub shorter : length s.running ≡ length s'.running + 1
  pub resident : 0 < count p s.running
  pub gone : count p s'.running ≡ 0
  pub rest : s'.running ≡ forget p s.running
  pub choice : Chosen s p
  pub stays :
      (r : ℕ) → r ≢ p → 0 < count r s.running → (0 < count r s'.running) × (s'.seqs r ≡ s.seqs r)

requeue-Sound :
    {live : List ℕ} {bs : ℕ} {s : Scheduler} (h : Sound live bs s) (p : ℕ)
    → Known live p
    → count p s.waiting + count p s.running ≡ 0
    → is_empty (s.seqs p).block_table ≡ true
    → Sound live bs (requeue s p)
unfolding requeue
requeue-Sound {live} {bs} {s} h p known off e =
    let w =
      put_seq-off h p known off (reset (s.seqs p)) refl (omega arith, (h.computed p known).1) in
    record {
      pool = w.pool;
      size = w.size;
      distinct = λ r. ground (arith, w.distinct r, off);
      known = λ r k. elim (Bool-cases (p == r)) [
        | inl hit ↦ subst (Known live) (ground arith) known
        | inr miss ↦ w.known r (ground arith)
      ];
      computed = w.computed;
      waits = λ r k. elim (Bool-cases (r == p)) [
        | inl hit ↦ rw hit (λ ne. absurd (ground arith))
        | inr miss ↦ w.waits r (ground arith)
      ];
      runs = w.runs;
    }

module _ {live : List ℕ} {bs : ℕ} {s : Scheduler} (h : Sound live bs s) (p : ℕ) (rest : List ℕ)
    (c : Splits s.running p rest) (f : rest ≡ forget p s.running) (how : Chosen s p) where
  less : Sound live bs (record s { running = rest })
  less = Sound-less h s.waiting rest (λ r. omega arith) (λ r. omega (arith, c.0 r))

  known : Known live p
  known = h.known p (ground (arith, c.0 p))

  off : count p s.waiting + count p rest ≡ 0
  off = ground (arith, c.0 p, h.distinct p)

  drop_finished-Evicts : (s' : Scheduler) × (drop_finished s p rest ≡ ok s') × Evicts live bs s p s'
  unfolding drop_finished
  drop_finished-Evicts =
      let (s', done, g) = drop_finished-GivesUp less p known off in
      (
        count_finished s',
        rw done,
        record {
          sound = g.sound;
          cfg = g.cfg;
          shorter = rw g.running c.1;
          resident = ground (arith, c.0 p);
          gone = rw g.running (omega (arith, off));
          rest = g.running ∙ f;
          choice = how;
          stays = λ r ne k. (rw g.running (ground (arith, c.0 r)), g.others r ne);
        },
      )

  preempt-Evicts : (s' : Scheduler) × (preempt s p rest ≡ ok s') × Evicts live bs s p s'
  unfolding preempt
  preempt-Evicts =
      let (kv, done, sound) = free_table-off less p known off in
      let freed = put_table (record s { running = rest }) p kv empty_table in
      (
        requeue freed p,
        rw done,
        record {
          sound = requeue-Sound sound p known off (ground arith);
          cfg = unfold requeue in refl;
          shorter = unfold requeue in c.1;
          resident = ground (arith, c.0 p);
          gone = unfold requeue in omega (arith, off);
          rest = unfold requeue in f;
          choice = how;
          stays = λ r ne k.
              unfold requeue in
              (
                ground (arith, c.0 r),
                update_ne freed.seqs p r (reset (freed.seqs p)) ne ∙ update_ne s.seqs p r _ ne,
              );
        },
      )

-- What `evict_for_memory` does: a finished sequence goes for good if there is one, else the youngest
-- resident one is preempted, and only an empty batch yields nothing.
pub data Evicted (live : List ℕ) (bs : ℕ) (s : Scheduler)
    : Checked (Option (ℕ × Scheduler)) → Type 0 where
  evicted : (p : ℕ) (s' : Scheduler) → Evicts live bs s p s' → Evicted live bs s (ok (some (p, s')))
  empty : length s.running ≡ 0 → Evicted live bs s (ok none)

take_last-all : (ps : List ℕ) → take_last (λ p. true) ps ≡ none → length ps ≡ 0
unfolding take_last
take_last-all [] e = refl
take_last-all (p ∷ ps) e = elim (Option-cases (take_last (λ q. true) ps)) [
  | inr ((q, qs), found) ↦ absurd (ground arith)
  | inl out ↦ absurd (ground arith)
]

-- In a sound scheduler `evict_for_memory` fails no assertion. It yields nothing only if nobody is
-- resident; else just one sequence leaves the batch, a finished one if there is one and the youngest
-- otherwise, every other resident sequence is untouched, and the scheduler is sound.
pub evict_for_memory-Evicted :
    {live : List ℕ} {bs : ℕ} {s : Scheduler}
    → Sound live bs s
    → Evicted live bs s (evict_for_memory s)
unfolding evict_for_memory
evict_for_memory-Evicted {s} h =
    elim (Option-cases (take_last (λ p. is_finished (s.seqs p)) s.running)) [
      | inr ((p, rest), found) ↦
          let (s', done, e) =
            (let (c, t) = take_last-Splits _ s.running p rest found in
              drop_finished-Evicts h p rest c
                (take_last-forget _ s.running p rest found (omega (arith, h.distinct p)))
                (inl t)) in
          rw (found, done, evict_for_memory) (evicted p s' e)
      | inl none_finished ↦ elim (Option-cases (take_last (λ p. true) s.running)) [
        | inr ((p, rest), found) ↦
            let (s', done, e) =
              preempt-Evicts h p rest (take_last-Splits _ s.running p rest found).0
                (take_last-forget _ s.running p rest found (omega (arith, h.distinct p)))
                (inr (
                  take_last-last s.running p rest found,
                  (λ r k. take_last-none (λ q. is_finished (s.seqs q)) s.running r none_finished k),
                )) in
            rw (none_finished, found, done, evict_for_memory) (evicted p s' e)
        | inl out ↦ rw (none_finished, out, evict_for_memory) (empty (take_last-all s.running out))
      ]
    ]
