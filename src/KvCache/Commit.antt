-- ===== src/KvCache/Commit.antt =====
-- src/kv_cache/block_allocator.cpp: lemmas on the loop of `commit_computed`.
use llm_engine.Base.{
  ℕ, zero, suc, ◌+◌, ◌-◌, ◌*◌, ◌≤◌, ◌<◌, ◌≡◌, ◌≢◌, refl, ap, sym, ◌∙◌, inl, inr, List, [], ◌∷◌,
  ◌++◌, Option, none, some, arith, if◌then◌else◌, ltb, leb, ◌==◌, ◌&&◌, not, true, false, length,
  get_or, set, length-set, length-append, Checked, ok, assert_failed, Bool-cases, Option-cases, ◌⊎◌,
  subst,
}
use llm_engine.KvCache.Defs.{KvCacheManager, BlockTable, hash_block, hash_full_block, block_tokens}
use llm_engine.KvCache.Alloc.{can_commit, commit_next, commit_loop}
use llm_engine.KvCache.Accounting.{Inv, Inv-cong, IsTable, one, entries, table_entries}
use llm_engine.KvCache.Blocks.{SamePool, SamePool-refl, SamePool-trans, publish-Inv}

-- The entry at a position is one of the table's entries.
one-le-entries :
    (bs hs : List ℕ) (i b h : ℕ)
    → length hs ≡ length bs
    → i < length bs
    → one (get_or bs i 0) (get_or hs i 0) b h ≤ entries bs hs b h
unfolding entries
one-le-entries [] hs i b h e lt = absurd (omega arith)
one-le-entries (x ∷ bs) [] i b h e lt = absurd (omega arith)
one-le-entries (x ∷ bs) (y ∷ hs) zero b h e lt = omega arith
one-le-entries (x ∷ bs) (y ∷ hs) (suc i) b h e lt =
    omega (arith, one-le-entries bs hs i b h (omega arith) (omega arith))

-- A new hash at a position exchanges one entry.
entries-set :
    (bs hs : List ℕ) (i v b h : ℕ)
    → length hs ≡ length bs
    → i < length bs
    → entries bs (set hs i v) b h + one (get_or bs i 0) (get_or hs i 0) b h
      ≡ entries bs hs b h + one (get_or bs i 0) v b h
unfolding entries
entries-set [] hs i v b h e lt = absurd (omega arith)
entries-set (x ∷ bs) [] i v b h e lt = absurd (omega arith)
entries-set (x ∷ bs) (y ∷ hs) zero v b h e lt = omega arith
entries-set (x ∷ bs) (y ∷ hs) (suc i) v b h e lt =
    omega (arith, entries-set bs hs i v b h (omega arith) (omega arith))

hash_block-ne_zero : (prev : ℕ) (tokens : List ℕ) → hash_block prev tokens ≢ 0
unfolding hash_block
hash_block-ne_zero prev tokens = ground arith

get_or-set_ne : (hs : List ℕ) (i j v : ℕ) → i ≢ j → get_or (set hs i v) j 0 ≡ get_or hs j 0
get_or-set_ne [] i j v h = refl
get_or-set_ne (x ∷ hs) zero zero v h = absurd (h refl)
get_or-set_ne (x ∷ hs) zero (suc j) v h = refl
get_or-set_ne (x ∷ hs) (suc i) zero v h = refl
get_or-set_ne (x ∷ hs) (suc i) (suc j) v h = get_or-set_ne hs i j v (λ e. h (ap suc e))

-- What `hash_full_block` does: nothing, or it publishes the block under an unused hash.
data Hashes (kv : KvCacheManager) (bt : BlockTable) (i : ℕ) (r : KvCacheManager × BlockTable)
    : Type 0 where
  kept : r ≡ (kv, bt) → Hashes kv bt i r
  published :
      (h : ℕ)
      → h ≢ 0
      → kv.hash_to_block h ≡ none
      → r ≡ (
        record kv {
          hash_to_block = llm_engine.Base.update kv.hash_to_block h (some (get_or bt.blocks i 0));
          block_hash = llm_engine.Base.update kv.block_hash (get_or bt.blocks i 0) h;
        },
        record bt { hashes = set bt.hashes i h },
      )
      → Hashes kv bt i r

hash_full_block-Hashes :
    (kv : KvCacheManager) (bt : BlockTable) (i : ℕ) (tokens : List ℕ)
    → Hashes kv bt i (hash_full_block kv bt i tokens)
unfolding hash_full_block
hash_full_block-Hashes kv bt i tokens =
    let prev = if i == 0 then 0 else get_or bt.hashes (i - 1) 0 in
    let h = hash_block prev (block_tokens kv i tokens) in
    elim (Bool-cases (not kv.prefix_caching)) [
      | inl off ↦ kept (rw off)
      | inr on ↦ elim (Bool-cases (ltb 0 i && prev == 0)) [
        | inl cut ↦ kept (rw (on, cut))
        | inr chained ↦ elim (Option-cases (kv.hash_to_block h)) [
          | inl new ↦
              published h (hash_block-ne_zero _ _) new (rw (on, chained, new, hash_full_block))
          | inr (b, old) ↦ kept (rw (on, chained, old, hash_full_block))
        ]
      ]
    ]

-- `num_committed` blocks of the table have been tried, and none past them is hashed.
module _ (kv : KvCacheManager) (claims : ℕ → ℕ → ℕ) (bt : BlockTable) (t : IsTable bt)
    (v : Inv kv (λ b h. table_entries bt b h + claims b h)) (tokens : List ℕ)
    (more : bt.num_committed < length bt.blocks) where
  abbrev Committed : KvCacheManager × BlockTable → Type 0
  Committed r =
      Inv r.0 (λ b h. table_entries r.1 b h + claims b h)
      × IsTable (record (r.1) { num_committed = r.1.num_committed + 1 })
      × SamePool kv r.0
      × (r.1.blocks ≡ bt.blocks)
      × (r.1.num_committed ≡ bt.num_committed)

  Hashes-Committed :
      (r : KvCacheManager × BlockTable) → Hashes kv bt bt.num_committed r → Committed r
  Hashes-Committed r (kept e) = rw e (
    v,
    record {
      parallel = t.parallel;
      committed = omega arith;
      unhashed = λ i le. t.unhashed i (omega arith);
    },
    SamePool-refl kv,
    refl,
    refl,
  )
  Hashes-Committed r (published h nz new e) =
      let i = bt.num_committed in
      let b = get_or bt.blocks i 0 in
      let clean : get_or bt.hashes i 0 ≡ 0 = t.unhashed i (omega arith) in
      let fits = λ (b' h' : ℕ). one-le-entries bt.blocks bt.hashes i b' h' t.parallel more in
      let swaps = λ (b' h' : ℕ). entries-set bt.blocks bt.hashes i h b' h' t.parallel more in
      let others = λ (b' h' : ℕ). table_entries bt b' h' - one b 0 b' h' + claims b' h' in
      rw e (
        Inv-cong _ _ (λ b' h'. omega (arith, rw clean at (swaps b' h'), rw clean at (fits b' h')))
            (publish-Inv kv others b h
              (Inv-cong _ _ (λ b' h'. omega (arith, rw clean at (fits b' h'))) v) new nz),
        record {
          parallel = omega (arith, t.parallel, length-set bt.hashes i h);
          committed = omega arith;
          unhashed = λ j le.
              omega
                (arith, t.unhashed j (omega arith), get_or-set_ne bt.hashes i j h (omega arith));
        },
        record { num_blocks = refl; block_size = refl; prefix_caching = refl },
        refl,
        refl,
      )

  pub hash_full_block-Committed : Committed (hash_full_block kv bt bt.num_committed tokens)
  hash_full_block-Committed =
      Hashes-Committed _ (hash_full_block-Hashes kv bt bt.num_committed tokens)

commit_next-Committed :
    (kv : KvCacheManager) (claims : ℕ → ℕ → ℕ) (bt : BlockTable)
    → IsTable bt
    → Inv kv (λ b h. table_entries bt b h + claims b h)
    → (tokens : List ℕ) → bt.num_committed < length bt.blocks
    → Inv
        (commit_next kv bt tokens).0
        (λ b h. table_entries (commit_next kv bt tokens).1 b h + claims b h)
      × IsTable (commit_next kv bt tokens).1
      × SamePool kv (commit_next kv bt tokens).0
      × ((commit_next kv bt tokens).1.blocks ≡ bt.blocks)
      × ((commit_next kv bt tokens).1.num_committed ≡ bt.num_committed + 1)
unfolding commit_next
commit_next-Committed kv claims bt t v tokens more =
    let (w, t', same, bs, n) = hash_full_block-Committed kv claims bt t v tokens more in
    (w, t', same, bs, ap (λ k. k + 1) n)

-- The loop keeps the accounting, and with a round for each block left it ends by its test.
pub commit_loop-Committed :
    (fuel : ℕ) (kv : KvCacheManager) (claims : ℕ → ℕ → ℕ) (bt : BlockTable)
    → IsTable bt
    → Inv kv (λ b h. table_entries bt b h + claims b h)
    → (tokens : List ℕ) (num_computed : ℕ) → length bt.blocks ≤ fuel + bt.num_committed
    → let r = commit_loop fuel kv bt tokens num_computed in
      Inv r.0 (λ b h. table_entries r.1 b h + claims b h)
      × IsTable r.1
      × SamePool kv r.0
      × (r.1.blocks ≡ bt.blocks)
      × (can_commit r.0 r.1 num_computed ≡ false)
unfolding commit_loop can_commit
commit_loop-Committed zero kv claims bt t v tokens c h =
    (v, t, SamePool-refl kv, refl, ground arith)
commit_loop-Committed (suc fuel) kv claims bt t v tokens c h =
    elim (Bool-cases (can_commit kv bt c)) [
      | inl more ↦
          let (w, t', same, bs, n) = commit_next-Committed kv claims bt t v tokens (ground arith) in
          let next = commit_next kv bt tokens in
          let len : length next.1.blocks ≡ length bt.blocks = ap length bs in
          let (w', t'', same', bs', stop) =
            commit_loop-Committed fuel next.0 claims next.1 t' w tokens c (omega (arith, len, n)) in
          rw (more, commit_loop) (w', t'', SamePool-trans same same', bs' ∙ bs, stop)
      | inr done ↦ rw (done, commit_loop) (v, t, SamePool-refl kv, refl, done)
    ]

-- What the tokens that are computed say of the blocks that are published: the old ones stay, each block
-- that was added has all its slots computed, and the next block of the table, if there is one, has not.
pub record Published (block_size num_computed : ℕ) (old new : BlockTable) : Type 0 where
  pub onward : old.num_committed ≤ new.num_committed
  pub full :
      (new.num_committed ≡ old.num_committed) ⊎ (new.num_committed * block_size ≤ num_computed)
  pub last :
      (length old.blocks ≤ new.num_committed)
      ⊎ (num_computed < (new.num_committed + 1) * block_size)

stops-Published :
    (kv : KvCacheManager) (bt : BlockTable) (c : ℕ)
    → can_commit kv bt c ≡ false
    → Published kv.block_size c bt bt
unfolding can_commit
stops-Published kv bt c e = record {
  onward = omega arith;
  full = inl refl;
  last = ground (arith, e);
}

can_commit-true :
    (kv : KvCacheManager) (bt : BlockTable) (c : ℕ)
    → can_commit kv bt c ≡ true
    → (bt.num_committed < length bt.blocks) × ((bt.num_committed + 1) * kv.block_size ≤ c)
unfolding can_commit
can_commit-true kv bt c e = (ground (arith, e), ground (arith, e))

step-Published :
    (bs c : ℕ) (bt next new : BlockTable)
    → next.num_committed ≡ bt.num_committed + 1
    → (bt.num_committed + 1) * bs ≤ c
    → next.blocks ≡ bt.blocks
    → Published bs c next new
    → Published bs c bt new
step-Published bs c bt next new n slots same p = record {
  onward = omega (arith, p.onward, n);
  full = elim p.full [ inl e ↦ inr (subst (λ k. k * bs ≤ c) (sym (e ∙ n)) slots) | inr f ↦ inr f ];
  last = elim p.last [ inl all ↦ inl (omega (arith, all, ap length same)) | inr part ↦ inr part ];
}

pub commit_loop-Published :
    (fuel : ℕ) (kv : KvCacheManager) (claims : ℕ → ℕ → ℕ) (bt : BlockTable)
    → IsTable bt
    → Inv kv (λ b h. table_entries bt b h + claims b h)
    → (tokens : List ℕ) (num_computed : ℕ) → length bt.blocks ≤ fuel + bt.num_committed
    → Published kv.block_size num_computed bt (commit_loop fuel kv bt tokens num_computed).1
unfolding commit_loop
commit_loop-Published zero kv claims bt t v tokens c h = record {
  onward = omega arith;
  full = inl refl;
  last = inl (omega (arith, h));
}
commit_loop-Published (suc fuel) kv claims bt t v tokens c h =
    elim (Bool-cases (can_commit kv bt c)) [
      | inl more ↦
          let (below, slots) = can_commit-true kv bt c more in
          let (w, t', same, bs, n) = commit_next-Committed kv claims bt t v tokens below in
          let next = commit_next kv bt tokens in
          let len : length next.1.blocks ≡ length bt.blocks = ap length bs in
          let p =
            commit_loop-Published fuel next.0 claims next.1 t' w tokens c (omega (arith, len, n)) in
          rw (more, commit_loop)
            (step-Published kv.block_size c bt next.1 _ n slots bs (
              subst (λ k. Published k c next.1 (commit_loop fuel next.0 next.1 tokens c).1)
                same.block_size p))
      | inr done ↦ rw (done, commit_loop) (stops-Published kv bt c done)
    ]
