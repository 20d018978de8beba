-- ===== src/Scheduler/Place.antt =====
-- src/scheduler/scheduler.cpp, step 2 of `schedule`: slots for the decode tokens.
use native.Mathlib.Nat.{le-div_iff_mul-le}
use llm_engine.Base.{
  ℕ, zero, suc, ◌+◌, ◌-◌, ◌≤◌, ◌<◌, ◌≡◌, refl, sym, ap, subst, ◌∙◌, inl, inr, Bool, true, false,
  List, [], ◌∷◌, Option, some, Checked, ok, if◌then◌else◌, ◌==◌, update, length, take, get_elem?,
  count, arith, Bool-cases, Option-cases,
}
use llm_engine.KvCache.{
  KvCacheManager, BlockTable, SamePool, blocks_needed, is_empty, ensure_slot, ensure_slot-Ensured,
}
use llm_engine.Sequence.{Sequence, num_tokens, prefill_done, is_finished}
use llm_engine.Scheduler.Defs.{Scheduler, put_table, evict_for_memory, forget}
use llm_engine.Scheduler.Step.{Candidates, place, place_all}
use llm_engine.Scheduler.Pool.{IsPool, IsPool-at, IsPool-put}
use llm_engine.Scheduler.Sound.{Sound, RunningOk, update_same}
use llm_engine.Scheduler.Evict.{Evicts, Evicted, evicted, empty, evict_for_memory-Evicted}
use llm_engine.Scheduler.Queues.{
  Sub, Sub-forget, Sub-count, count-forget, length-forget, count-take-le, get-count, count-take-suc,
  take_past, last-absent, count-take-forget,
}

-- The blocks cover every token.
abbrev pub IsCovered : ℕ → Sequence → Type 0
IsCovered bs q = blocks_needed (num_tokens q) bs ≤ length q.block_table.blocks

-- The candidates of a step are resident, in order, and each is on one list.
pub record Ready (live : List ℕ) (bs : ℕ) (c : Candidates) : Type 0 where
  pub sound : Sound live bs c.sched
  pub prefilling :
      (p : ℕ)
      → 0 < count p c.prefill
      → (0 < count p c.sched.running) × (prefill_done (c.sched.seqs p) ≡ false)
  pub decoding :
      (p : ℕ)
      → 0 < count p c.decode
      → (prefill_done (c.sched.seqs p) ≡ true) × (is_finished (c.sched.seqs p) ≡ false)
  pub in_order : Sub c.decode c.sched.running
  pub apart : (p : ℕ) → count p c.prefill + count p c.decode ≤ 1

empty-count : (ps : List ℕ) (p : ℕ) → length ps ≡ 0 → 0 < count p ps → ⊥
empty-count [] p e h = omega arith
empty-count (x ∷ ps) p e h = omega arith

pub blocks_needed-pos : (n bs : ℕ) → 0 < n → 0 < bs → 0 < blocks_needed n bs
unfolding blocks_needed
blocks_needed-pos n bs hn hb = (le-div_iff_mul-le hb).1 (omega arith)

-- A new table for a resident sequence.
pub put_table-Sound :
    {live : List ℕ} {bs : ℕ} {s : Scheduler}
    → Sound live bs s
    → (p : ℕ) (kv : KvCacheManager) (bt : BlockTable) → 0 < count p s.running
    → IsPool live kv (update s.seqs p (record (s.seqs p) { block_table = bt }))
    → SamePool s.kv kv
    → RunningOk bs (record (s.seqs p) { block_table = bt })
    → Sound live bs (put_table s p kv bt)
put_table-Sound {s} h p kv bt here pool same fine = record {
  pool = pool;
  size = same.block_size ∙ h.size;
  distinct = h.distinct;
  known = h.known;
  computed = λ r k. elim (Bool-cases (r == p)) [
    | inl hit ↦ rw hit (h.computed p (h.known p (omega arith)))
    | inr miss ↦ rw miss (h.computed r k)
  ];
  waits = λ r k. elim (Bool-cases (r == p)) [
    | inl hit ↦ absurd (ground (arith, h.distinct r))
    | inr miss ↦ rw miss (h.waits r k)
  ];
  runs =
      λ r k. elim (Bool-cases (r == p)) [ inl hit ↦ rw hit fine | inr miss ↦ rw miss (h.runs r k) ];
}

-- Before position `i` every candidate has its slot.
abbrev pub PlacedTo : ℕ → ℕ → Candidates → Type 0
PlacedTo bs i c = (p : ℕ) → 0 < count p (take i c.decode) → IsCovered bs (c.sched.seqs p)

module _ {live : List ℕ} {bs : ℕ} {c : Candidates} (r : Ready live bs c) (i p : ℕ)
    (here : get_elem? c.decode i ≡ some p) (before : PlacedTo bs i c) where
  resident : 0 < count p c.sched.running
  resident = omega (arith, Sub-count r.in_order p, get-count i c.decode p here)

  -- One round: the position moves on, or a resident sequence leaves.
  abbrev Round : ℕ → Candidates → Type 0
  Round i' c' =
      Ready live bs c'
      × PlacedTo bs i' c'
      × (c'.sched.cfg ≡ c.sched.cfg)
      × (length c'.decode - i' + length c'.sched.running
          < length c.decode - i + length c.sched.running)
      × (length c'.sched.running ≤ length c.sched.running)

  grown-Round :
      (kv : KvCacheManager) (bt : BlockTable)
      → IsPool live kv (update c.sched.seqs p (record (c.sched.seqs p) { block_table = bt }))
      → SamePool c.sched.kv kv
      → blocks_needed (num_tokens (c.sched.seqs p)) bs ≤ length bt.blocks
      → Round (i + 1) (record c { sched = put_table c.sched p kv bt })
  grown-Round kv bt pool same covers =
      let s = c.sched in
      let h = r.sound in
      let pos : 0 < bs = omega (arith, h.pool.sized, h.size) in
      let needs =
        blocks_needed-pos (num_tokens (s.seqs p)) bs
          (h.computed p (h.known p (omega (arith, resident)))).1 pos in
      (
        record {
          sound = put_table-Sound h p kv bt resident pool same (record {
            resident = omega arith;
            slack = omega arith;
            covers = λ _. covers;
            pending = (h.runs p resident).pending;
          });
          prefilling = λ q k. (
            (r.prefilling q k).0,
            elim (Bool-cases (q == p)) [
              | inl hit ↦ rw hit (r.prefilling p (ground arith)).1
              | inr miss ↦ rw miss (r.prefilling q k).1
            ],
          );
          decoding = λ q k. elim (Bool-cases (q == p)) [
            | inl hit ↦ rw hit (r.decoding p (ground arith))
            | inr miss ↦ rw miss (r.decoding q k)
          ];
          in_order = r.in_order;
          apart = r.apart;
        },
        (λ q k. elim (Bool-cases (q == p)) [
          | inl hit ↦ rw hit covers
          | inr miss ↦ rw miss (before q (ground (arith, count-take-suc i c.decode p q here)))
        ]),
        refl,
        omega (arith, get-count i c.decode p here),
        omega arith,
      )

  forgotten :
      (q v : ℕ) (ps : List ℕ) → 0 < count q (forget v ps) → ((q == v) ≡ false) × (0 < count q ps)
  forgotten q v ps k = ground (arith, count-forget q v ps)

  -- The victim is no candidate before position `i`.
  absent_before :
      (kv : KvCacheManager) (v : ℕ) (s' : Scheduler)
      → Evicts live bs (put_table c.sched p kv (c.sched.seqs p).block_table) v s'
      → count v (take i c.decode) ≡ 0
  absent_before kv v s' e = elim e.choice [
    | inl fin ↦
        let done : is_finished (c.sched.seqs v) ≡ true =
          ap is_finished (sym (update_same c.sched.seqs p v _ refl)) ∙ fin in
        ground (arith, r.decoding v, count-take-le v i c.decode)
    | inr young ↦ last-absent r.in_order v i p young.0 (omega (arith, r.sound.distinct v)) here
  ]

  evicted-Round :
      (kv : KvCacheManager) (v : ℕ) (s' : Scheduler)
      → Evicts live bs (put_table c.sched p kv (c.sched.seqs p).block_table) v s'
      → Round i (record { sched = s'; prefill = forget v c.prefill; decode = forget v c.decode })
  evicted-Round kv v s' e =
      let same = λ (q : ℕ). update_same c.sched.seqs p q _ refl in
      let stays : (q : ℕ)
          → (q == v) ≡ false
          → 0 < count q c.sched.running
          → (0 < count q s'.running) × (s'.seqs q ≡ c.sched.seqs q) =
        λ q ne k. let (k', e') = e.stays q (λ hit. ground arith) k in (k', e' ∙ same q) in
      let absent = absent_before kv v s' e in
      (
        record {
          sound = e.sound;
          prefilling = λ q k.
              let (ne, k') = forgotten q v c.prefill k in
              let (here', f) = r.prefilling q k' in
              let (k'', e') = stays q ne here' in (k'', ap prefill_done e' ∙ f);
          decoding = λ q k.
              let (ne, k') = forgotten q v c.decode k in
              let (f, g) = r.decoding q k' in
              let (_, e') = stays q ne (omega (arith, k', Sub-count r.in_order q)) in
              (ap prefill_done e' ∙ f, ap is_finished e' ∙ g);
          in_order = rw e.rest (Sub-forget v r.in_order);
          apart =
              λ q. ground (arith, r.apart q, count-forget q v c.prefill, count-forget q v c.decode);
        },
        (λ q k.
            let k' : 0 < count q (take i c.decode) =
              omega (arith, k, count-take-forget v i c.decode p absent here q) in
            let k'' : 0 < count q c.decode = omega (arith, k', count-take-le q i c.decode) in
            let ne : (q == v) ≡ false = elim (Bool-cases (q == v)) [
              | inl hit ↦ absurd (ground (arith, absent))
              | inr miss ↦ miss
            ] in
            let (_, e') = stays q ne (omega (arith, k'', Sub-count r.in_order q)) in
            subst (IsCovered bs) (sym e') (before q k')),
        e.cfg,
        omega (arith, e.shorter, length-forget v c.decode),
        omega (arith, e.shorter),
      )

  -- What one round of the loop does.
  abbrev Placing : Type 0
  Placing = (i' : ℕ) × (c' : Candidates) × (place c i p ≡ ok (i', c')) × Round i' c'

  place-evicting :
      (kv : KvCacheManager) (o : Checked (Option (ℕ × Scheduler)))
      → evict_for_memory (put_table c.sched p kv (c.sched.seqs p).block_table) ≡ o
      → Evicted live bs (put_table c.sched p kv (c.sched.seqs p).block_table) o
      → ensure_slot c.sched.kv (c.sched.seqs p).block_table (num_tokens (c.sched.seqs p))
        ≡ ok (false, kv, (c.sched.seqs p).block_table)
      → Placing
  unfolding place
  place-evicting kv o e (evicted v s' ev) done = (
    i,
    record { sched = s'; prefill = forget v c.prefill; decode = forget v c.decode },
    rw (done, e),
    evicted-Round kv v s' ev,
  )
  place-evicting kv o e (empty none_left) done =
      absurd (empty-count c.sched.running p none_left resident)

  place-Placing : Placing
  unfolding place
  place-Placing =
      let s = c.sched in
      let h = r.sound in
      let k = h.known p (omega (arith, resident)) in
      let fine = h.runs p resident in
      let (grown, kv, bt, done, o, same, more) =
        ensure_slot-Ensured _ s.kv (s.seqs p).block_table (IsPool-at h.pool p k)
          (num_tokens (s.seqs p)) (rw h.size fine.slack) in
      go grown kv bt done (IsPool-put h.pool p k kv (record (s.seqs p) { block_table = bt }) o same)
        same more
    where
      go :
          (grown : Bool) (kv : KvCacheManager) (bt : BlockTable)
          → ensure_slot c.sched.kv (c.sched.seqs p).block_table (num_tokens (c.sched.seqs p))
            ≡ ok (grown, kv, bt)
          → IsPool live kv (update c.sched.seqs p (record (c.sched.seqs p) { block_table = bt }))
          → SamePool c.sched.kv kv
          → (if grown
              then blocks_needed (num_tokens (c.sched.seqs p)) c.sched.kv.block_size
                ≤ length bt.blocks
              else (bt ≡ (c.sched.seqs p).block_table)
                × (llm_engine.KvCache.num_available_blocks c.sched.kv ≡ 0))
          → Placing
      go true kv bt done pool same more = (
        i + 1,
        record c { sched = put_table c.sched p kv bt },
        rw done,
        grown-Round kv bt pool same (rw r.sound.size at more),
      )
      go false kv bt done pool same more =
          let pool' =
            subst
              (λ t.
                IsPool live kv
                  (update c.sched.seqs p (record (c.sched.seqs p) { block_table = t })))
              more.0 pool in
          let done' =
            subst
              (λ t.
                ensure_slot c.sched.kv (c.sched.seqs p).block_table (num_tokens (c.sched.seqs p))
                ≡ ok (false, kv, t))
              more.0 done in
          place-evicting kv _ refl
            (evict_for_memory-Evicted (
              put_table-Sound r.sound p kv (c.sched.seqs p).block_table resident pool' same
                (r.sound.runs p resident)))
            done'

-- The loop ends, with a slot for every decode token that is left.
pub place_all-Ready :
    (fuel i : ℕ) {live : List ℕ} {bs : ℕ} (c : Candidates)
    → Ready live bs c
    → PlacedTo bs i c
    → length c.decode - i + length c.sched.running < fuel
    → (c' : Candidates) × (place_all fuel i c ≡ ok c')
      × Ready live bs c'
      × ((p : ℕ) → 0 < count p c'.decode → IsCovered bs (c'.sched.seqs p))
      × (c'.sched.cfg ≡ c.sched.cfg)
      × (length c'.sched.running ≤ length c.sched.running)
unfolding place_all
place_all-Ready zero i c r before h = absurd (omega arith)
place_all-Ready (suc fuel) i c r before h = elim (Option-cases (get_elem? c.decode i)) [
  | inl past ↦
      (c, rw (past, place_all), r, rw (take_past i c.decode past) at before, refl, omega arith)
  | inr (p, here) ↦
      let (i', c', done, round) = place-Placing r i p here before in
      let (r', before', cfg, less, fewer) = round in
      let (c'', done', r'', all, cfg', fewer') =
        place_all-Ready fuel i' c' r' before' (omega (arith, less)) in
      (c'', rw (here, done, place_all) done', r'', all, cfg' ∙ cfg, omega (arith, fewer, fewer'))
]
