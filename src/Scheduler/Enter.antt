-- ===== src/Scheduler/Enter.antt =====
-- src/scheduler/scheduler.cpp: how `admit_one` moves a request that holds its blocks from the queue
-- to the resident sequences, with its first chunk.
use llm_engine.Base.{
  ℕ, zero, suc, ◌+◌, ◌-◌, ◌≤◌, ◌<◌, ◌≡◌, refl, subst, inl, inr, Bool, true, false, List, [], ◌∷◌,
  some, if◌then◌else◌, ◌==◌, length, length-append, get_elem?, count, count-append, arith,
  Bool-cases, All,
}
use llm_engine.KvCache.{is_empty}
use llm_engine.Sequence.{SeqStatus, StepSlice, num_tokens}
use llm_engine.Scheduler.Defs.{Scheduler, add_prefill_slice}
use llm_engine.Scheduler.Admit.{Progress, chunk_len, enter, start_chunk, remove_at}
use llm_engine.Scheduler.Pool.{Known, IsPool-same}
use llm_engine.Scheduler.Sound.{Sound, Later, update_ne}
use llm_engine.Scheduler.Queues.{get-count}
use llm_engine.Scheduler.Slices.{
  SliceOk, SliceOk-Later, Building, slice_count, All-map, add_prefill_slice-Building,
}

remove_at-count :
    (i : ℕ) (ps : List ℕ) (p r : ℕ)
    → get_elem? ps i ≡ some p
    → (count r (remove_at i ps) + (if p == r then 1 else 0) ≡ count r ps)
      × (length (remove_at i ps) + 1 ≡ length ps)
unfolding remove_at
remove_at-count i [] p r e = absurd (ground arith)
remove_at-count zero (x ∷ ps) p r e = ground arith
remove_at-count (suc i) (x ∷ ps) p r e = ground (arith, remove_at-count i ps p r e)

slice-resident :
    (bs : ℕ) (s : Scheduler) (p : ℕ) (sls : List StepSlice)
    → All (SliceOk bs s) sls
    → 0 < slice_count p sls
    → 0 < count p s.running
unfolding slice_count
slice-resident bs s p [] a h = absurd (omega arith)
slice-resident bs s p (sl ∷ sls) (o, a) h = elim (Bool-cases (sl.seq == p)) [
  | inl hit ↦ let e : sl.seq ≡ p = ground arith in subst (λ q. 0 < count q s.running) e o.resident
  | inr miss ↦ slice-resident bs s p sls a (ground arith)
]

-- A step under construction stays good while the resident sequences stay as they are.
pub Building-Later :
    {live : List ℕ} {bs : ℕ} {decode : List ℕ} (w : Progress) (s : Scheduler)
    → Building live bs decode w
    → Sound live bs s
    → Later w.sched s
    → Building live bs decode (record w { sched = s })
Building-Later {bs} w s b h l = record {
  sound = h;
  slices = All-map _ _ w.step.slices (λ sl o. SliceOk-Later bs sl l o) b.slices;
  prefills = rw l.cfg b.prefills;
  counted = b.counted;
  single = b.single;
  reserve = λ p k.
      let (here, covers, done, left) = b.reserve p k in
      let (here', e) = l.stays p here in (here', rw e covers, rw e done, rw e left);
  no_decode = b.no_decode;
}

-- What one round of `admit_one` does to the step and the queues.
pub record Admits (live : List ℕ) (bs : ℕ) (decode : List ℕ) (w : Progress) (got : Bool)
    (w' : Progress) : Type 0 where
  pub building : Building live bs decode w'
  pub cfg : w'.sched.cfg ≡ w.sched.cfg
  pub spent : w'.step.num_prefill_tokens + w'.budget ≡ w.step.num_prefill_tokens + w.budget
  pub leaves : length w'.sched.waiting + (if got then 1 else 0) ≡ length w.sched.waiting
  pub joins : length w'.sched.running ≡ length w.sched.running + (if got then 1 else 0)

zero_of : (n : ℕ) → (0 < n → ⊥) → n ≡ 0
zero_of zero f = refl
zero_of (suc n) f = absurd (f (omega arith))

module _ {live : List ℕ} {bs : ℕ} {decode : List ℕ} (w : Progress) (b : Building live bs decode w)
    (i p : ℕ) (here : get_elem? w.sched.waiting i ≡ some p)
    (blocks : is_empty (w.sched.seqs p).block_table ≡ false) where
  waits : 0 < count p w.sched.waiting
  waits = omega (arith, get-count i w.sched.waiting p here)

  known : Known live p
  known = b.sound.known p (omega (arith, waits))

  enter-Later : Later w.sched (enter w.sched i p)
  enter-Later = record {
    cfg = refl;
    stays = λ r k. (
      omega (arith, k, count-append r w.sched.running (p ∷ [])),
      update_ne w.sched.seqs p r _ (λ e.
          absurd (
            omega
              (arith, b.sound.distinct p, waits, subst (λ q. 0 < count q w.sched.running) e k))),
    );
  }

  enter-Sound :
      (w.sched.seqs p).num_computed < num_tokens (w.sched.seqs p)
      → Sound live bs (enter w.sched i p)
  enter-Sound left =
      let s = w.sched in
      let h = b.sound in
      let q = record (s.seqs p) { status = SeqStatus.running } in
      let removed = λ (r : ℕ). (remove_at-count i s.waiting p r here).0 in
      let added = λ (r : ℕ). count-append r s.running (p ∷ []) in
      record {
        pool = IsPool-same h.pool p known q refl;
        size = h.size;
        distinct = λ r. omega (arith, h.distinct r, removed r, added r);
        known = λ r k. h.known r (omega (arith, k, removed r, added r));
        computed = λ r k. elim (Bool-cases (r == p)) [
          | inl hit ↦ rw hit (h.computed p known)
          | inr miss ↦ rw miss (h.computed r k)
        ];
        waits = λ r k. elim (Bool-cases (r == p)) [
          | inl hit ↦ rw hit (h.waits p waits)
          | inr miss ↦ rw miss (h.waits r (omega (arith, k, removed r)))
        ];
        runs = λ r k. elim (Bool-cases (r == p)) [
          | inl hit ↦
              let covers = h.waits p waits blocks in
              rw hit (record {
                resident = ground arith;
                slack = omega arith;
                covers = λ _. covers;
                pending = λ _. left;
              })
          | inr miss ↦ rw miss (h.runs r (ground (arith, k, added r)))
        ];
      }

  enter-Building :
      (w.sched.seqs p).num_computed < num_tokens (w.sched.seqs p)
      → Building live bs decode (record w { sched = enter w.sched i p })
  enter-Building left = Building-Later w (enter w.sched i p) b (enter-Sound left) enter-Later

  not_yet : count p decode + slice_count p w.step.slices ≡ 0
  not_yet =
      let absent : count p w.sched.running ≡ 0 = omega (arith, b.sound.distinct p, waits) in
      let undecided = zero_of (count p decode) (λ k. omega (arith, absent, (b.reserve p k).0)) in
      let unsliced =
        zero_of (slice_count p w.step.slices)
          (λ k. omega (arith, absent, slice-resident bs w.sched p w.step.slices b.slices k)) in
      omega (arith, undecided, unsliced)

  same_slice :
      (len : ℕ)
      → add_prefill_slice (enter w.sched i p) w.step p len ≡ add_prefill_slice w.sched w.step p len
  unfolding add_prefill_slice
  same_slice len = let e : (p == p) ≡ true = ground arith in rw e

  -- The request leaves the queue with a chunk within the budget, or nothing happens.
  pub start_chunk-Admits : Admits live bs decode w (start_chunk w i p).0 (start_chunk w i p).1
  unfolding start_chunk
  start_chunk-Admits = elim (Bool-cases (chunk_len w p == 0)) [
    | inl blank ↦ rw blank (record {
      building = b;
      cfg = refl;
      spent = refl;
      leaves = omega arith;
      joins = omega arith;
    })
    | inr chunk ↦
        let len = chunk_len w p in
        let e : (p == p) ≡ true = ground arith in
        let pos : 0 < len = ground arith in
        let fits : (w.sched.seqs p).num_computed + len ≤ num_tokens (w.sched.seqs p) =
          omega (arith, pos) in
        let covers = b.sound.waits p waits blocks in
        let b' =
          add_prefill_slice-Building (record w { sched = enter w.sched i p }) p len (w.budget - len)
            (enter-Building (omega (arith, pos)))
            (omega (arith, count-append p w.sched.running (p ∷ []), get-count 0 (p ∷ []) p refl))
            pos (rw e fits) (omega arith) (rw e covers) not_yet in
        rw chunk (record {
          building =
              subst
                (λ st.
                  Building live bs decode
                    (record { sched = enter w.sched i p; step = st; budget = w.budget - len }))
                (same_slice len) b';
          cfg = refl;
          spent = unfold add_prefill_slice in omega arith;
          leaves = omega (arith, (remove_at-count i w.sched.waiting p p here).1);
          joins = omega (arith, length-append w.sched.running (p ∷ []));
        })
  ]
