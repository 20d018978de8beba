-- ===== src/Scheduler/Admission.antt =====
-- src/scheduler/scheduler.cpp: lemmas on `admit_one` and its loop.
use llm_engine.Base.{
  ℕ, zero, suc, ◌+◌, ◌≤◌, ◌<◌, ◌≡◌, refl, ap, subst, ◌∙◌, inl, inr, Bool, true, false, List, [],
  ◌∷◌, some, Checked, ok, ltb, leb, ◌==◌, ◌||◌, update, length, get_elem?, count, arith, Bool-cases,
  Option-cases,
}
use llm_engine.KvCache.{
  lookup_cached_prefix, empty_table, is_empty, allocate_prompt_cases, empty_table-eq, Owns,
  Owns-empty, empty-Owns,
}
use llm_engine.Sequence.{num_tokens}
use llm_engine.Scheduler.Defs.{Scheduler, put_table, admission_fits}
use llm_engine.Scheduler.Admit.{
  Progress, schedule_first, allocate_for, start_chunk, admit_allocated, admit_scan, lookahead,
  admit_one, admit_all,
}
use llm_engine.Scheduler.Pool.{Known, others, IsPool-at, IsPool-put}
use llm_engine.Scheduler.Sound.{Sound, Later-refl}
use llm_engine.Scheduler.Place.{blocks_needed-pos}
use llm_engine.Scheduler.Slices.{Building}
use llm_engine.Scheduler.Enter.{Admits, Building-Later, start_chunk-Admits}
use llm_engine.Scheduler.Queues.{get-count}
use llm_engine.Scheduler.Waiting.{Waits, put_waiting-Waits}

-- Whether the request got its blocks, and the scheduler after the attempt.
abbrev Tried : List ℕ → ℕ → Scheduler → ℕ → Bool → Scheduler → Type 0
Tried live bs s p got s' =
    Waits live bs s s'
    × (s'.waiting ≡ s.waiting)
    × (got ≡ true → is_empty (s'.seqs p).block_table ≡ false)

ltb-of-lt : (a b : ℕ) → a < b → ltb a b ≡ true
ltb-of-lt a b h = ground arith

self : (p : ℕ) → (p == p) ≡ true
self p = ground arith

module _ {live : List ℕ} {bs : ℕ} {s : Scheduler} (h : Sound live bs s) (now p : ℕ)
    (here : 0 < count p s.waiting) (blank : is_empty (s.seqs p).block_table ≡ true) where
  known : Known live p
  known = h.known p (omega arith)

  no_blocks : (s.seqs p).block_table ≡ empty_table
  no_blocks = empty_table-eq _ (h.pool.tables p known) (blank-nil _ (ground arith))
    where
      blank-nil : (xs : List ℕ) → length xs ≡ 0 → xs ≡ []
      blank-nil [] e = refl
      blank-nil (x ∷ xs) e = absurd (omega arith)

  -- The claims of the other sequences are sound by themselves.
  allocate_for-Tried :
      (got : Bool) × (s' : Scheduler) × (allocate_for s now p ≡ ok (got, s'))
      × Tried live bs s p got s'
  unfolding allocate_for
  allocate_for-Tried = elim (Bool-cases (admission_fits s p)) [
    | inr short ↦ (
      false,
      s,
      rw (short, allocate_for),
      (record { sound = h; later = Later-refl s; running = refl }, refl, (λ e. cc)),
    )
    | inl fits ↦
        let rest = others p live s.seqs in
        let v =
          Owns-empty rest s.kv (subst (Owns rest s.kv) no_blocks (IsPool-at h.pool p known)) in
        elim (allocate_prompt_cases rest s.kv v (s.seqs p).tokens h.pool.sized) [
          | inr (kv, done, v', same, _, _) ↦ (
            false,
            put_table s p kv empty_table,
            rw (fits, no_blocks, done, allocate_for),
            (
              put_waiting-Waits h p kv _ here
                  (IsPool-put h.pool p known kv _ (empty-Owns rest kv v') same) same
                  (h.computed p known) (λ ne. absurd (ground arith)),
              refl,
              (λ e. cc),
            ),
          )
          | inl (kv, bt, done, o, same, len) ↦
              let n = lookup_cached_prefix s.kv (s.seqs p).tokens in
              let q = schedule_first (s.seqs p) bt now n in
              let some_tokens = (h.computed p known).1 in
              let filled =
                blocks_needed-pos (num_tokens (s.seqs p)) s.kv.block_size some_tokens
                  h.pool.sized in
              (
                true,
                record s { kv = kv; seqs = update s.seqs p q },
                rw (fits, no_blocks, done, (ltb-of-lt _ _ some_tokens), allocate_for),
                (
                  put_waiting-Waits h p kv q here (IsPool-put h.pool p known kv q o same) same
                      (omega (arith, some_tokens)) (λ ne. omega (arith, rw h.size at len)),
                  refl,
                  (λ _. rw (self p) (ground (arith, len, filled))),
                ),
              )
        ]
  ]

Admits-refl :
    {live : List ℕ} {bs : ℕ} {decode : List ℕ} (w : Progress)
    → Building live bs decode w
    → Admits live bs decode w false w
Admits-refl w b = record {
  building = b;
  cfg = refl;
  spent = refl;
  leaves = omega arith;
  joins = omega arith;
}

Admits-trans :
    {live : List ℕ} {bs : ℕ} {decode : List ℕ} {w w' w'' : Progress} {got : Bool}
    → Admits live bs decode w false w'
    → Admits live bs decode w' got w''
    → Admits live bs decode w got w''
Admits-trans a b = record {
  building = b.building;
  cfg = b.cfg ∙ a.cfg;
  spent = b.spent ∙ a.spent;
  leaves = omega (arith, a.leaves, b.leaves);
  joins = omega (arith, a.joins, b.joins);
}

Waits-Admits :
    {live : List ℕ} {bs : ℕ} {decode : List ℕ} (w : Progress) (s : Scheduler)
    → Building live bs decode w
    → Waits live bs w.sched s
    → s.waiting ≡ w.sched.waiting
    → Admits live bs decode w false (record w { sched = s })
Waits-Admits w s b v same = record {
  building = Building-Later w s b v.sound v.later;
  cfg = v.later.cfg;
  spent = refl;
  leaves = omega (arith, ap (λ ps. length ps) same);
  joins = omega (arith, ap (λ ps. length ps) v.running);
}

-- The outcome of a search of the queue.
abbrev Searched : List ℕ → ℕ → List ℕ → Progress → Checked (Bool × Progress) → Type 0
Searched live bs decode w o =
    (got : Bool) × (w' : Progress) × (o ≡ ok (got, w')) × Admits live bs decode w got w'

admit_allocated-Searched :
    {live : List ℕ} {bs : ℕ} {decode : List ℕ} (w : Progress) (i p : ℕ) (got : Bool) (s : Scheduler)
    (later : Progress → Checked (Bool × Progress))
    → Admits live bs decode w false (record w { sched = s })
    → get_elem? s.waiting i ≡ some p
    → (got ≡ true → is_empty (s.seqs p).block_table ≡ false)
    → ((w' : Progress) → Building live bs decode w' → Searched live bs decode w' (later w'))
    → Searched live bs decode w (admit_allocated w i p later (got, s))
unfolding admit_allocated
admit_allocated-Searched w i p true s later first here blocks search =
    let w' = record w { sched = s } in
    (
      (start_chunk w' i p).0,
      (start_chunk w' i p).1,
      refl,
      Admits-trans first (start_chunk-Admits w' first.building i p here (blocks refl)),
    )
admit_allocated-Searched w i p false s later first here blocks search =
    elim (Bool-cases (leb s.cfg.starvation_wait_steps (s.seqs p).wait_steps)) [
      | inl starved ↦ (false, record w { sched = s }, rw starved, first)
      | inr patient ↦
          let (got, w', done, a) = search (record w { sched = s }) first.building in
          (got, w', rw patient done, Admits-trans first a)
    ]

admit_scan-Searched :
    (rounds now i : ℕ) {live : List ℕ} {bs : ℕ} {decode : List ℕ} (w : Progress)
    → Building live bs decode w
    → Searched live bs decode w (admit_scan rounds now i w)
unfolding admit_scan
admit_scan-Searched zero now i w b = (false, w, refl, Admits-refl w b)
admit_scan-Searched (suc rounds) now i w b = elim (Option-cases (get_elem? w.sched.waiting i)) [
  | inl past ↦ (false, w, rw (past, admit_scan), Admits-refl w b)
  | inr (p, here) ↦ elim (Bool-cases (is_empty (w.sched.seqs p).block_table)) [
    | inr blocks ↦ (
      (start_chunk w i p).0,
      (start_chunk w i p).1,
      rw (here, blocks, admit_scan),
      start_chunk-Admits w b i p here blocks,
    )
    | inl blank ↦
        let (got, s, done, tried) =
          allocate_for-Tried b.sound now p (get-count i w.sched.waiting p here).0 blank in
        let (v, same, got_blocks) = tried in
        let (got', w', done', a) =
          admit_allocated-Searched w i p got s (λ v'. admit_scan rounds now (i + 1) v')
            (Waits-Admits w s b v same) (rw same here) got_blocks
            (λ v' b'. admit_scan-Searched rounds now (i + 1) v' b') in
        (got', w', rw (here, blank, done, admit_scan) done', a)
  ]
]

-- What the admission of any number of requests leaves.
pub record Filled (live : List ℕ) (bs : ℕ) (decode : List ℕ) (w w' : Progress) : Type 0 where
  pub building : Building live bs decode w'
  pub cfg : w'.sched.cfg ≡ w.sched.cfg
  pub spent : w'.step.num_prefill_tokens + w'.budget ≡ w.step.num_prefill_tokens + w.budget
  pub bounded :
      length w.sched.running ≤ w.sched.cfg.max_num_seqs
      → length w'.sched.running ≤ w'.sched.cfg.max_num_seqs

admit_one-Searched :
    (now : ℕ) {live : List ℕ} {bs : ℕ} {decode : List ℕ} (w : Progress)
    → Building live bs decode w
    → (got : Bool) × (w' : Progress) × (admit_one now w ≡ ok (got, w'))
      × Admits live bs decode w got w'
      × (got ≡ true → length w.sched.running < w.sched.cfg.max_num_seqs)
unfolding admit_one
admit_one-Searched now w b = elim (Bool-cases (length w.sched.waiting == 0 || w.budget == 0)) [
  | inl stop ↦ (false, w, rw (stop, admit_one), Admits-refl w b, (λ e. cc))
  | inr go ↦ elim (Bool-cases (leb w.sched.cfg.max_num_seqs (length w.sched.running))) [
    | inl full ↦ (false, w, rw (go, full, admit_one), Admits-refl w b, (λ e. cc))
    | inr room ↦
        let (got, w', done, a) = admit_scan-Searched (lookahead w.sched) now 0 w b in
        (got, w', rw (go, room, admit_one) done, a, (λ _. ground arith))
  ]
]

-- `schedule`'s fuel, one more than the queue's length, lets the loop end by itself.
pub admit_all-Filled :
    (fuel now : ℕ) {live : List ℕ} {bs : ℕ} {decode : List ℕ} (w : Progress)
    → Building live bs decode w
    → length w.sched.waiting < fuel
    → (w' : Progress) × (admit_all fuel now w ≡ ok w') × Filled live bs decode w w'
unfolding admit_all
admit_all-Filled zero now w b h = absurd (omega arith)
admit_all-Filled (suc fuel) now {live} {bs} {decode} w b h =
    go (admit_one-Searched now w b) (λ w' b'. admit_all-Filled fuel now w' b')
  where
    go :
        ((got : Bool) × (w' : Progress) × (admit_one now w ≡ ok (got, w'))
          × Admits live bs decode w got w'
          × (got ≡ true → length w.sched.running < w.sched.cfg.max_num_seqs))
        → ((w' : Progress)
            → Building live bs decode w'
            → length w'.sched.waiting < fuel
            → (w'' : Progress) × (admit_all fuel now w' ≡ ok w'') × Filled live bs decode w' w'')
        → (w' : Progress) × (admit_all (suc fuel) now w ≡ ok w') × Filled live bs decode w w'
    go (false, w', done, a, room) more = (
      w',
      rw (done, admit_all),
      record {
        building = a.building;
        cfg = a.cfg;
        spent = a.spent;
        bounded = λ k. rw a.cfg (omega (arith, a.joins));
      },
    )
    go (true, w', done, a, room) more =
        let (w'', done', f) = more w' a.building (omega (arith, a.leaves)) in
        (
          w'',
          rw (done, admit_all) done',
          record {
            building = f.building;
            cfg = f.cfg ∙ a.cfg;
            spent = f.spent ∙ a.spent;
            bounded = λ k. f.bounded (rw a.cfg (omega (arith, a.joins, room refl)));
          },
        )
