-- ===== src/Scheduler/Touch.antt =====
-- src/scheduler/scheduler.cpp, `on_step_done`: writes to one resident sequence.
use native.Mathlib.Nat.{lt-mul-div-succ, div-le_of_le-mul}
use llm_engine.Base.{
  ℕ, ◌+◌, ◌-◌, ◌≤◌, ◌<◌, ◌≡◌, ◌≢◌, refl, ap, subst, ◌∙◌, inl, inr, true, List, Option, ok, ◌==◌,
  update, length, count, arith, Bool-cases,
}
use llm_engine.KvCache.{Owns, blocks_needed, commit_computed-Committed}
use llm_engine.Sequence.{Sequence, FinishReason, StepSlice, num_tokens}
use llm_engine.Scheduler.Defs.{Scheduler, put_seq, put_table, notify}
use llm_engine.Scheduler.Done.{commit_slice}
use llm_engine.Scheduler.Pool.{Known, IsPool, others, IsPool-at, IsPool-put, IsPool-same}
use llm_engine.Scheduler.Sound.{Sound, RunningOk, update_ne}

-- `s'` differs from `s` at sequence `p` only, which has `n` tokens by then, `c` of them computed, in
-- `m` blocks.
pub record Touches (live : List ℕ) (s : Scheduler) (p n c m : ℕ) (s' : Scheduler) : Type 0 where
  pub pool : IsPool live s'.kv s'.seqs
  pub block_size : s'.kv.block_size ≡ s.kv.block_size
  pub waiting : s'.waiting ≡ s.waiting
  pub running : s'.running ≡ s.running
  pub cfg : s'.cfg ≡ s.cfg
  pub others : (r : ℕ) → r ≢ p → s'.seqs r ≡ s.seqs r
  pub tokens : num_tokens (s'.seqs p) ≡ n
  pub computed : (s'.seqs p).num_computed ≡ c
  pub blocks : length (s'.seqs p).block_table.blocks ≡ m

update_at : (f : ℕ → Sequence) (p : ℕ) (q : Sequence) → update f p q p ≡ q
update_at f p q = let e : (p == p) ≡ true = ground arith in rw e

-- One more write, which leaves the table alone.
pub Touches-put :
    {live : List ℕ} {s s' : Scheduler} {p n c m n' c' : ℕ}
    → Touches live s p n c m s'
    → Known live p
    → (q : Sequence) → q.block_table ≡ (s'.seqs p).block_table
    → num_tokens q ≡ n'
    → q.num_computed ≡ c'
    → Touches live s p n' c' m (put_seq s' p q)
Touches-put {s' = s'} {p = p} t known q e tokens computed = record {
  pool = IsPool-same t.pool p known q e;
  block_size = t.block_size;
  waiting = t.waiting;
  running = t.running;
  cfg = t.cfg;
  others = λ r ne. update_ne s'.seqs p r q ne ∙ t.others r ne;
  tokens = ap num_tokens (update_at s'.seqs p q) ∙ tokens;
  computed = ap (λ x. x.num_computed) (update_at s'.seqs p q) ∙ computed;
  blocks =
      ap (λ x. length x.block_table.blocks) (update_at s'.seqs p q)
      ∙ ap (λ x. length x.blocks) e
      ∙ t.blocks;
}

pub Touches-notify :
    {live : List ℕ} {s s' : Scheduler} {p n c m : ℕ}
    → Touches live s p n c m s'
    → (tok : Option ℕ) (r : FinishReason) → Touches live s p n c m (notify s' p tok r)
Touches-notify t tok r = record {
  pool = t.pool;
  block_size = t.block_size;
  waiting = t.waiting;
  running = t.running;
  cfg = t.cfg;
  others = t.others;
  tokens = t.tokens;
  computed = t.computed;
  blocks = t.blocks;
}

-- A touched resident sequence that has its blocks leaves the scheduler sound.
pub Touches-Sound :
    {live : List ℕ} {bs : ℕ} {s s' : Scheduler} {p n c m : ℕ}
    → Sound live bs s
    → 0 < count p s.running
    → Touches live s p n c m s'
    → RunningOk bs (s'.seqs p)
    → c ≤ n
    → 0 < n
    → Sound live bs s'
Touches-Sound {s = s} {s' = s'} {p = p} h here t fine le pos = record {
  pool = t.pool;
  size = t.block_size ∙ h.size;
  distinct = λ r. rw (t.waiting, t.running) (h.distinct r);
  known = λ r k. h.known r (rw (t.waiting, t.running) at k);
  computed = λ r k. elim (Bool-cases (r == p)) [
    | inl hit ↦
        let e : r ≡ p = ground arith in
        rw e (omega (arith, t.tokens, t.computed), omega (arith, t.tokens))
    | inr miss ↦ rw (t.others r (λ e. ground arith)) (h.computed r k)
  ];
  waits = λ r k.
      let k' = rw t.waiting at k in
      rw (t.others r (λ e. absurd (ground (arith, h.distinct r)))) (h.waits r k');
  runs = λ r k. elim (Bool-cases (r == p)) [
    | inl hit ↦ let e : r ≡ p = ground arith in rw e fine
    | inr miss ↦ rw (t.others r (λ e. ground arith)) (h.runs r (rw t.running at k))
  ];
}

-- One more token needs one more block at most.
pub blocks_needed-suc : (n bs : ℕ) → 0 < bs → blocks_needed (n + 1) bs ≤ blocks_needed n bs + 1
unfolding blocks_needed
blocks_needed-suc n bs h =
    let room = lt-mul-div-succ (n + bs - 1) h in div-le_of_le-mul bs (grind (arith, room))

-- The cache of a resident sequence after its slice.
pub commit_slice-Touches :
    {live : List ℕ} {bs : ℕ} (s : Scheduler) (sl : StepSlice)
    → Sound live bs s
    → 0 < count sl.seq s.running
    → (s.seqs sl.seq).num_computed + sl.len ≤ num_tokens (s.seqs sl.seq)
    → (s' : Scheduler) × (commit_slice s sl ≡ ok s')
      × Touches live s sl.seq
          (num_tokens (s.seqs sl.seq))
          ((s.seqs sl.seq).num_computed + sl.len)
          (length (s.seqs sl.seq).block_table.blocks)
          s'
      × ((s'.seqs sl.seq).status ≡ (s.seqs sl.seq).status)
unfolding commit_slice
commit_slice-Touches {live} s sl h here fits =
    let p = sl.seq in
    let q = s.seqs p in
    let c = q.num_computed + sl.len in
    let known = h.known p (omega (arith, here)) in
    let q' = record q { num_computed = c } in
    let seqs = update s.seqs p q' in
    let at_p = update_at s.seqs p q' in
    let first = IsPool-same h.pool p known q' refl in
    let (kv, bt, done, o, same, blocks, _) =
      commit_computed-Committed (others p live seqs) s.kv q.block_table
        (subst (Owns (others p live seqs) s.kv) (ap (λ x. x.block_table) at_p)
          (IsPool-at first p known))
        q.tokens c fits in
    let last = record (seqs p) { block_table = bt } in
    let at_last = update_at seqs p last in
    (
      put_table (put_seq s p q') p kv bt,
      rw done,
      record {
        pool = IsPool-put first p known kv last o same;
        block_size = same.block_size;
        waiting = refl;
        running = refl;
        cfg = refl;
        others = λ r ne. update_ne seqs p r last ne ∙ update_ne s.seqs p r q' ne;
        tokens = ap num_tokens at_last ∙ ap num_tokens at_p;
        computed = ap (λ x. x.num_computed) at_last ∙ ap (λ x. x.num_computed) at_p;
        blocks = ap (λ x. length x.block_table.blocks) at_last ∙ ap (λ bs. length bs) blocks;
      },
      ap (λ x. x.status) at_last ∙ ap (λ x. x.status) at_p,
    )
