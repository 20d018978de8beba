-- ===== src/Scheduler/Sound.antt =====
-- The invariant of src/scheduler/scheduler.cpp, and the operations that take a request off a
-- queue.
use llm_engine.Base.{
  ℕ, ◌+◌, ◌≤◌, ◌<◌, ◌≡◌, ◌≢◌, refl, ap, ◌∙◌, inl, inr, false, List, none, ok, ◌==◌, update, length,
  count, arith, Bool-cases,
}
use llm_engine.KvCache.{
  KvCacheManager, empty_table, SamePool, SamePool-refl, blocks_needed, is_empty,
}
use llm_engine.Sequence.{Sequence, FinishReason, num_tokens, prefill_done, is_finished}
use llm_engine.Scheduler.Defs.{
  Scheduler, put_table, put_seq, free_table, retire, notify, mark_finished, count_finished,
}
use llm_engine.Scheduler.Pool.{Known, IsPool, IsPool-same, free_table-ok}

-- A waiting sequence that holds blocks holds all that its tokens need.
abbrev pub QueuedOk : ℕ → Sequence → Type 0
QueuedOk bs q =
    is_empty q.block_table ≡ false → blocks_needed (num_tokens q) bs ≤ length q.block_table.blocks

-- A resident sequence has blocks for its tokens, but for the last one if that is all that is left.
pub record RunningOk (bs : ℕ) (q : Sequence) : Type 0 where
  pub resident : 0 < length q.block_table.blocks
  pub slack : blocks_needed (num_tokens q) bs ≤ length q.block_table.blocks + 1
  pub covers :
      prefill_done q ≡ false → blocks_needed (num_tokens q) bs ≤ length q.block_table.blocks
  -- there is always a token left to compute
  pub pending : is_finished q ≡ false → q.num_computed < num_tokens q

-- `live` names the sequences that may hold blocks, each once.
pub record Sound (live : List ℕ) (bs : ℕ) (s : Scheduler) : Type 0 where
  pub pool : IsPool live s.kv s.seqs
  pub size : s.kv.block_size ≡ bs
  -- a sequence stands in one queue, once
  pub distinct : (p : ℕ) → count p s.waiting + count p s.running ≤ 1
  pub known : (p : ℕ) → 0 < count p s.waiting + count p s.running → Known live p
  pub computed :
      (p : ℕ)
      → Known live p
      → ((s.seqs p).num_computed ≤ num_tokens (s.seqs p)) × (0 < num_tokens (s.seqs p))
  pub waits : (p : ℕ) → 0 < count p s.waiting → QueuedOk bs (s.seqs p)
  pub runs : (p : ℕ) → 0 < count p s.running → RunningOk bs (s.seqs p)

-- `s'` keeps every resident sequence of `s`, untouched.
pub record Later (s s' : Scheduler) : Type 0 where
  pub cfg : s'.cfg ≡ s.cfg
  pub stays : (p : ℕ) → 0 < count p s.running → (0 < count p s'.running) × (s'.seqs p ≡ s.seqs p)

pub Later-refl : (s : Scheduler) → Later s s
Later-refl s = record { cfg = refl; stays = λ p h. (h, refl) }

pub Later-trans : {s t u : Scheduler} → Later s t → Later t u → Later s u
Later-trans a b = record {
  cfg = b.cfg ∙ a.cfg;
  stays = λ p h. let (h', e) = a.stays p h in let (h'', e') = b.stays p h' in (h'', e' ∙ e);
}

-- The log, the counters and the batch flag are no part of the invariant.
pub Sound-view :
    {live : List ℕ} {bs : ℕ} {s : Scheduler} (s' : Scheduler)
    → s'.kv ≡ s.kv
    → s'.seqs ≡ s.seqs
    → s'.waiting ≡ s.waiting
    → s'.running ≡ s.running
    → Sound live bs s
    → Sound live bs s'
Sound-view {live} s' k q w r h = record {
  pool = rw (k, q) h.pool;
  size = rw k h.size;
  distinct = rw (w, r) h.distinct;
  known = rw (w, r) h.known;
  computed = rw q h.computed;
  waits = rw (w, q) h.waits;
  runs = rw (r, q) h.runs;
}

-- A write to a known sequence that stands in no queue.
pub Sound-off :
    {live : List ℕ} {bs : ℕ} {s : Scheduler}
    → Sound live bs s
    → (p : ℕ) (q : Sequence) (kv : KvCacheManager) → count p s.waiting + count p s.running ≡ 0
    → IsPool live kv (update s.seqs p q)
    → SamePool s.kv kv
    → (q.num_computed ≤ num_tokens q) × (0 < num_tokens q)
    → Sound live bs (record s { kv = kv; seqs = update s.seqs p q })
Sound-off {s} h p q kv off pool same fine = record {
  pool = pool;
  size = same.block_size ∙ h.size;
  distinct = h.distinct;
  known = h.known;
  computed = λ r k. elim (Bool-cases (r == p)) [
    | inl hit ↦ rw hit fine
    | inr miss ↦ rw miss (h.computed r k)
  ];
  waits = λ r k. rw (ne r (omega arith)) (h.waits r k);
  runs = λ r k. rw (ne r (omega arith)) (h.runs r k);
}
  where
    ne : (r : ℕ) → 0 < count r s.waiting + count r s.running → (r == p) ≡ false
    ne r k = elim (Bool-cases (r == p)) [ inl hit ↦ absurd (ground arith) | inr miss ↦ miss ]

-- Fewer sequences in the queues.
pub Sound-less :
    {live : List ℕ} {bs : ℕ} {s : Scheduler}
    → Sound live bs s
    → (waiting running : List ℕ) → ((r : ℕ) → count r waiting ≤ count r s.waiting)
    → ((r : ℕ) → count r running ≤ count r s.running)
    → Sound live bs (record s { waiting = waiting; running = running })
Sound-less h waiting running w u = record {
  pool = h.pool;
  size = h.size;
  distinct = λ r. omega (arith, h.distinct r, w r, u r);
  known = λ r k. h.known r (omega (arith, w r, u r));
  computed = h.computed;
  waits = λ r k. h.waits r (omega (arith, w r));
  runs = λ r k. h.runs r (omega (arith, u r));
}

-- The outcome of a step that gives up sequence `p`, which stands in no queue by then.
pub record GivesUp (live : List ℕ) (bs : ℕ) (s : Scheduler) (p : ℕ) (s' : Scheduler) : Type 0 where
  pub sound : Sound live bs s'
  pub waiting : s'.waiting ≡ s.waiting
  pub running : s'.running ≡ s.running
  pub cfg : s'.cfg ≡ s.cfg
  pub others : (r : ℕ) → r ≢ p → s'.seqs r ≡ s.seqs r

module _ {live : List ℕ} {bs : ℕ} {s : Scheduler} (h : Sound live bs s) (p : ℕ)
    (known : Known live p) (off : count p s.waiting + count p s.running ≡ 0) where
  -- A write that leaves the table alone.
  pub put_seq-off :
      (q : Sequence)
      → q.block_table ≡ (s.seqs p).block_table
      → (q.num_computed ≤ num_tokens q) × (0 < num_tokens q)
      → Sound live bs (put_seq s p q)
  put_seq-off q e fine =
      Sound-off h p q s.kv off (IsPool-same h.pool p known q e) (SamePool-refl s.kv) fine

  pub free_table-off :
      (kv : KvCacheManager) × (free_table s p ≡ ok (put_table s p kv empty_table))
      × Sound live bs (put_table s p kv empty_table)
  free_table-off =
      let (kv, done, pool, same) = free_table-ok live s p h.pool known in
      (kv, done, Sound-off h p _ kv off pool same (h.computed p known))

pub update_ne {ℓ} : {A : Type ℓ} (f : ℕ → A) (k j : ℕ) (v : A) → j ≢ k → update f k v j ≡ f j
update_ne f k j v ne = elim (Bool-cases (j == k)) [
  | inl hit ↦ absurd (ne (ground arith))
  | inr miss ↦ rw miss
]

pub update_same {ℓ} : {A : Type ℓ} (f : ℕ → A) (k j : ℕ) (v : A) → v ≡ f k → update f k v j ≡ f j
update_same f k j v e = elim (Bool-cases (j == k)) [
  | inl hit ↦ rw hit (e ∙ ap f (ground arith))
  | inr miss ↦ rw miss
]

module _ {live : List ℕ} {bs : ℕ} {s : Scheduler} (h : Sound live bs s) (p : ℕ)
    (known : Known live p) (off : count p s.waiting + count p s.running ≡ 0) where
  -- `retire` succeeds on a request that has left its queue.
  pub retire-GivesUp :
      (now : ℕ) (r : FinishReason)
      → (s' : Scheduler) × (retire s now p r ≡ ok s') × GivesUp live bs s p s'
  unfolding retire
  retire-GivesUp now r =
      let marked = put_seq s p (mark_finished (s.seqs p) now r) in
      let (kv, done, sound) =
        free_table-off
          (put_seq-off h p known off (mark_finished (s.seqs p) now r) refl (h.computed p known)) p
          (known) off in
      (
        notify (count_finished (put_table marked p kv empty_table)) p none r,
        rw done,
        record {
          sound = Sound-view _ refl refl refl refl sound;
          waiting = refl;
          running = refl;
          cfg = refl;
          others = λ j ne.
              update_ne marked.seqs p j _ ne
              ∙ update_ne s.seqs p j (mark_finished (s.seqs p) now r) ne;
        },
      )

  pub drop_finished-GivesUp :
      (s' : Scheduler) × (free_table s p ≡ ok s') × GivesUp live bs s p (count_finished s')
  drop_finished-GivesUp =
      let (kv, done, sound) = free_table-off h p known off in
      (
        put_table s p kv empty_table,
        done,
        record {
          sound = Sound-view _ refl refl refl refl sound;
          waiting = refl;
          running = refl;
          cfg = refl;
          others = λ j ne. update_ne s.seqs p j _ ne;
        },
      )
