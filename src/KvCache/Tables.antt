-- ===== src/KvCache/Tables.antt =====
-- src/kv_cache/block_allocator.cpp: lemmas on the loops over the blocks of a table.
use llm_engine.Base.{
  ℕ, zero, suc, ◌+◌, ◌≤◌, ◌≡◌, refl, List, [], ◌∷◌, arith, length, length-append, ok,
}
use llm_engine.KvCache.Defs.{KvCacheManager, BlockTable, drop_reference, num_available_blocks}
use llm_engine.KvCache.Alloc.{claim, push_block, take_fresh, release_entries}
use llm_engine.KvCache.Accounting.{Inv, Inv-cong, one, entries, table_entries, entries-push}
use llm_engine.KvCache.Blocks.{
  SamePool, SamePool-refl, SamePool-trans, drop_reference-SamePool, take_block-Taken,
  take_block-some, release-Inv, release_block-ok,
}

-- Give back one table's blocks, others' claims beside it: no assertion fails.
pub release_entries-Inv :
    (blocks hashes : List ℕ) (kv : KvCacheManager) (claims : ℕ → ℕ → ℕ)
    → length hashes ≡ length blocks
    → Inv kv (λ b h. entries blocks hashes b h + claims b h)
    → (kv' : KvCacheManager) × (release_entries blocks hashes kv ≡ ok kv')
      × Inv kv' claims
      × SamePool kv kv'
unfolding entries release_entries
release_entries-Inv [] hs kv claims e v =
    (kv, refl, Inv-cong _ claims (λ b h. omega arith) v, SamePool-refl kv)
release_entries-Inv (b ∷ bs) [] kv claims e v = absurd (omega arith)
release_entries-Inv (b ∷ bs) (h ∷ hs) kv claims e v =
    let (mid, done, w, same) =
      release_entries-Inv bs hs kv (λ b' h'. one b h b' h' + claims b' h') (omega arith)
        (Inv-cong _ _ (λ b' h'. omega arith) v) in
    (
      drop_reference mid b h,
      rw done (release_block-ok claims b h w),
      release-Inv claims b h w,
      SamePool-trans same (drop_reference-SamePool mid b h),
    )

pub push-entries :
    (bt : BlockTable) (x y b h : ℕ)
    → length bt.hashes ≡ length bt.blocks
    → table_entries (push_block bt x y) b h ≡ one x y b h + table_entries bt b h
push-entries bt x y b h e = entries-push bt.blocks bt.hashes x y b h e

pub push-parallel :
    (bt : BlockTable) (x y : ℕ)
    → length bt.hashes ≡ length bt.blocks
    → length (push_block bt x y).hashes ≡ length (push_block bt x y).blocks
push-parallel bt x y e =
    omega (arith, length-append bt.hashes (y ∷ []), length-append bt.blocks (x ∷ []))

-- What a growing table keeps, the claims of the other tables beside it.
pub record Grows (kv : KvCacheManager) (claims : ℕ → ℕ → ℕ) (bt : BlockTable) : Type 0 where
  pub inv : Inv kv (λ b h. table_entries bt b h + claims b h)
  pub parallel : length bt.hashes ≡ length bt.blocks

pub Grows-push :
    (kv : KvCacheManager) (claims : ℕ → ℕ → ℕ) (bt : BlockTable) (b h : ℕ)
    → length bt.hashes ≡ length bt.blocks
    → Inv kv (λ b' h'. one b h b' h' + (table_entries bt b' h' + claims b' h'))
    → Grows kv claims (push_block bt b h)
Grows-push kv claims bt b h e v = record {
  inv = Inv-cong _ _ (λ b' h'. omega (arith, push-entries bt b h b' h' e)) v;
  parallel = push-parallel bt b h e;
}

-- As long as there are blocks to spare, fresh ones are taken with no assertion failing.
pub take_fresh-Grows :
    (n : ℕ) (kv : KvCacheManager) (claims : ℕ → ℕ → ℕ) (bt : BlockTable)
    → Grows kv claims bt
    → n ≤ num_available_blocks kv
    → (kv' : KvCacheManager) × (bt' : BlockTable) × (take_fresh n kv bt ≡ ok (kv', bt'))
      × Grows kv' claims bt'
      × SamePool kv kv'
      × (num_available_blocks kv' + n ≡ num_available_blocks kv)
      × (length bt'.blocks ≡ length bt.blocks + n)
unfolding take_fresh
take_fresh-Grows zero kv claims bt g h =
    (kv, bt, refl, g, SamePool-refl kv, omega arith, omega arith)
take_fresh-Grows (suc n) kv claims bt g h =
    let (b, mid, e) = take_block-some kv (omega arith) in
    let t = take_block-Taken g.inv b mid e in
    let (kv', bt', done, g', same, left, len) =
      take_fresh-Grows n (claim mid b) claims (push_block bt b 0)
        (Grows-push _ claims bt b 0 g.parallel t.inv) (omega (arith, t.one_less)) in
    (
      kv',
      bt',
      rw (e, take_fresh) done,
      g',
      SamePool-trans t.same same,
      omega (arith, t.one_less),
      omega (arith, length-append bt.blocks (b ∷ [])),
    )
