-- ===== src/KvCache/Owned.antt =====
-- src/kv_cache/block_allocator.cpp: the operations on a table that a sequence owns already, and the
-- constructor.
use llm_engine.Base.{
  ℕ, zero, suc, ◌+◌, ◌≤◌, ◌<◌, ◌≡◌, refl, ◌∙◌, inl, inr, List, [], ◌∷◌, some, arith, if◌then◌else◌,
  ltb, leb, ◌&&◌, Bool, true, false, length, length-append, count, ok, Bool-cases, Option-cases,
  ◌⊎◌,
}
use llm_engine.KvCache.Defs.{
  KvCacheManager, BlockTable, empty_table, ids_from, fresh_pool, make, take_block,
  num_available_blocks, blocks_needed,
}
use llm_engine.KvCache.Alloc.{
  claim, push_block, count_failure, ensure_slot, commit_loop, commit_computed, free,
}
use llm_engine.KvCache.Accounting.{Inv, IsTable}
use llm_engine.KvCache.Blocks.{SamePool, SamePool-refl, take_block-Taken, take_block-none}
use llm_engine.KvCache.Tables.{Grows-push, release_entries-Inv}
use llm_engine.KvCache.Commit.{commit_loop-Committed, Published, commit_loop-Published}
use llm_engine.KvCache.Laws.{Owns, Inv-count_failure, get_or-push_zero}

leb-of-le : (a b : ℕ) → a ≤ b → leb a b ≡ true
leb-of-le a b h = ground arith

push_zero-IsTable : (bt : BlockTable) (b : ℕ) → IsTable bt → IsTable (push_block bt b 0)
push_zero-IsTable bt b t = record {
  parallel =
      omega (arith, t.parallel, length-append bt.hashes (0 ∷ []), length-append bt.blocks (b ∷ []));
  committed = omega (arith, t.committed, length-append bt.blocks (b ∷ []));
  unhashed = λ i le. get_or-push_zero bt.hashes i ∙ t.unhashed i le;
}

module _ (claims : ℕ → ℕ → ℕ) (kv : KvCacheManager) (bt : BlockTable) (o : Owns claims kv bt) where
  -- The outcomes of `ensure_slot`.
  abbrev pub Ensured : ℕ → Type 0
  Ensured num_tokens =
      (grown : Bool) × (kv' : KvCacheManager) × (bt' : BlockTable) × (ensure_slot kv bt num_tokens
        ≡ ok (grown, kv', bt'))
      × Owns claims kv' bt'
      × SamePool kv kv'
      × (if grown
          then blocks_needed num_tokens kv.block_size ≤ length bt'.blocks
          else (bt' ≡ bt) × (num_available_blocks kv ≡ 0))

  -- For a table that owns its blocks in an exact pool, `ensure_slot` for at most one more block than
  -- the table has fails no assertion. It returns true with a table that covers the tokens, or false
  -- with the table as it was, and then no block was available; the pool is exact for the table it
  -- returns.
  pub ensure_slot-Ensured :
      (num_tokens : ℕ)
      → blocks_needed num_tokens kv.block_size ≤ length bt.blocks + 1
      → Ensured num_tokens
  unfolding ensure_slot
  ensure_slot-Ensured num_tokens h =
      let needed = blocks_needed num_tokens kv.block_size in
      elim (Bool-cases (ltb (length bt.blocks) needed)) [
        | inl more ↦ elim (Option-cases (take_block kv)) [
          | inl out ↦ (
            false,
            count_failure kv,
            bt,
            rw (more, leb-of-le needed _ h, out, ensure_slot),
            record { inv = Inv-count_failure kv _ o.inv; table = o.table },
            record { num_blocks = refl; block_size = refl; prefix_caching = refl },
            (refl, take_block-none kv out),
          )
          | inr ((b, kv'), got) ↦
              let t = take_block-Taken o.inv b kv' got in
              let g = Grows-push _ claims bt b 0 o.table.parallel t.inv in
              (
                true,
                claim kv' b,
                push_block bt b 0,
                rw (more, leb-of-le needed _ h, got, ensure_slot),
                record { inv = g.inv; table = push_zero-IsTable bt b o.table },
                t.same,
                omega (arith, length-append bt.blocks (b ∷ [])),
              )
        ]
        | inr enough ↦ (true, kv, bt, ground arith, o, SamePool-refl kv, ground arith)
      ]

  -- The outcome of `commit_computed`.
  abbrev pub Committed : List ℕ → ℕ → Type 0
  Committed tokens num_computed =
      (kv' : KvCacheManager) × (bt' : BlockTable) × (commit_computed kv bt tokens num_computed
        ≡ ok (kv', bt'))
      × Owns claims kv' bt'
      × SamePool kv kv'
      × (bt'.blocks ≡ bt.blocks)
      × (((kv.prefix_caching ≡ false) × (bt' ≡ bt)) ⊎ Published kv.block_size num_computed bt bt')

  pub commit_computed-Committed :
      (tokens : List ℕ) (num_computed : ℕ)
      → num_computed ≤ length tokens
      → Committed tokens num_computed
  unfolding commit_computed
  commit_computed-Committed tokens c h = elim (Bool-cases kv.prefix_caching) [
    | inr off ↦ (kv, bt, ground arith, o, SamePool-refl kv, refl, inl (off, refl))
    | inl on ↦
        let r = commit_loop (length bt.blocks) kv bt tokens c in
        let (v, t, same, bs, stop) =
          commit_loop-Committed (length bt.blocks) kv claims bt o.table o.inv tokens c
            (omega arith) in
        (
          r.0,
          r.1,
          ground (arith, leb-of-le c (length tokens) h),
          record { inv = v; table = t },
          same,
          bs,
          inr (
              commit_loop-Published (length bt.blocks) kv claims bt o.table o.inv tokens c
                (omega arith)),
        )
  ]

  -- For a table that owns its blocks in an exact pool, `free` fails no assertion and returns the
  -- empty table, with a pool that is exact for the other tables alone.
  pub free-Freed :
      (kv' : KvCacheManager) × (free kv bt ≡ ok (kv', empty_table))
      × Inv kv' claims
      × SamePool kv kv'
  unfolding free
  free-Freed =
      let (kv', done, v, same) =
        release_entries-Inv bt.blocks bt.hashes kv claims o.table.parallel o.inv in
      (kv', rw done, v, same)

count-ids : (b i n : ℕ) → count b (ids_from i n) ≡ (if leb i b && ltb b (i + n) then 1 else 0)
unfolding ids_from
count-ids b i zero = ground arith
count-ids b i (suc n) = ground (arith, count-ids b (suc i) n)

abbrev pub no_claims : ℕ → ℕ → ℕ
no_claims b h = 0

fresh_pool-Inv : (n bs : ℕ) (caching : Bool) → Inv (fresh_pool n bs caching) no_claims
unfolding fresh_pool
fresh_pool-Inv n bs caching = record {
  held = λ b h. ground arith;
  placed = λ b. ground (arith, count-ids b 0 n);
  indexed = λ h b e. cc;
  published = λ b ne. absurd (ne refl);
  in_pool = λ b ne. absurd (ne refl);
  free_clean = λ b h. refl;
  cached_hashed = λ b h. absurd (omega arith);
  unshared = λ b e. omega arith;
}

-- With positive sizes the constructor succeeds, and the pool that it returns is exact for no table
-- at all.
pub make-Inv :
    (num_blocks block_size : ℕ) (caching : Bool)
    → 0 < num_blocks
    → 0 < block_size
    → (make num_blocks block_size caching ≡ some (fresh_pool num_blocks block_size caching))
      × Inv (fresh_pool num_blocks block_size caching) no_claims
unfolding make
make-Inv n bs caching hn hb = (ground arith, fresh_pool-Inv n bs caching)
