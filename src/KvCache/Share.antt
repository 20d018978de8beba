-- ===== src/KvCache/Share.antt =====
-- src/kv_cache/block_allocator.cpp: the cached prefix of a prompt, in `allocate_prompt`.
use llm_engine.Base.{
  ℕ, zero, suc, ◌+◌, ◌*◌, ◌/◌, ◌≤◌, ◌≡◌, refl, List, [], ◌∷◌, some, arith, if◌then◌else◌, ◌==◌,
  length, length-append, length-erase, All, length-erase,
}
use llm_engine.KvCache.Defs.{
  KvCacheManager, BlockTable, touch_cached, hash_block, num_available_blocks, block_tokens,
}
use llm_engine.KvCache.Alloc.{
  reuse, count_idle, push_block, share_hits, walk_hits, prefix_hits, count_hits,
  lookup_cached_prefix,
}
use llm_engine.KvCache.Accounting.{Inv}
use llm_engine.KvCache.Blocks.{SamePool, SamePool-refl, SamePool-trans, reuse-Inv}
use llm_engine.KvCache.Tables.{Grows, Grows-push}

-- Each hit is published, under its hash.
abbrev pub AllPublished : KvCacheManager → List (ℕ × ℕ) → Type 0
AllPublished kv hits = All (λ p. kv.hash_to_block p.0 ≡ some p.1) hits

walk_hits-AllPublished :
    (kv : KvCacheManager) (rounds i prev : ℕ) (tokens : List ℕ)
    → AllPublished kv (walk_hits kv rounds i prev tokens)
unfolding walk_hits
walk_hits-AllPublished kv zero i prev tokens = tt
walk_hits-AllPublished kv (suc rounds) i prev tokens =
    let h = hash_block prev (block_tokens kv i tokens) in
    ground (arith, walk_hits-AllPublished kv rounds (i + 1) h tokens)

pub prefix_hits-AllPublished :
    (kv : KvCacheManager) (tokens : List ℕ) → AllPublished kv (prefix_hits kv tokens)
unfolding prefix_hits
prefix_hits-AllPublished kv tokens =
    ground (arith, walk_hits-AllPublished kv (length tokens / kv.block_size) 0 0 tokens)

length-walk_hits :
    (kv : KvCacheManager) (rounds i prev : ℕ) (tokens : List ℕ)
    → (length (walk_hits kv rounds i prev tokens) ≡ count_hits kv rounds i prev tokens)
      × (count_hits kv rounds i prev tokens ≤ rounds)
unfolding walk_hits count_hits
length-walk_hits kv zero i prev tokens = (refl, omega arith)
length-walk_hits kv (suc rounds) i prev tokens =
    let h = hash_block prev (block_tokens kv i tokens) in
    ground (arith, length-walk_hits kv rounds (i + 1) h tokens)

-- For any pool and prompt, the walk over the cached prefix in `allocate_prompt` finds as many tokens
-- as `lookup_cached_prefix` counts, in full blocks of the prompt only.
pub length-prefix_hits :
    (kv : KvCacheManager) (tokens : List ℕ)
    → (length (prefix_hits kv tokens) * kv.block_size ≡ lookup_cached_prefix kv tokens)
      × (length (prefix_hits kv tokens) ≤ length tokens / kv.block_size)
unfolding prefix_hits lookup_cached_prefix
length-prefix_hits kv tokens =
    ground (arith, length-walk_hits kv (length tokens / kv.block_size) 0 0 tokens)

count_idle-reuse :
    (kv : KvCacheManager) (b : ℕ) (hits : List (ℕ × ℕ))
    → count_idle (reuse kv b) hits ≤ count_idle kv hits
unfolding count_idle reuse touch_cached
count_idle-reuse kv b [] = omega arith
count_idle-reuse kv b ((h, x) ∷ hits) = ground (arith, count_idle-reuse kv b hits)

-- Only a block that nobody references leaves the LRU list.
available-reuse :
    {kv : KvCacheManager} {claims : ℕ → ℕ → ℕ} (v : Inv kv claims) (b : ℕ)
    → num_available_blocks kv
      ≤ num_available_blocks (reuse kv b) + (if kv.ref_count b == 0 then 1 else 0)
unfolding reuse touch_cached
available-reuse {kv} v b = ground (arith, v.placed b, length-erase b kv.lru)

reuse-SamePool : (kv : KvCacheManager) (b : ℕ) → SamePool kv (reuse kv b)
unfolding reuse touch_cached
reuse-SamePool kv b = record { num_blocks = refl; block_size = refl; prefix_caching = refl }

AllPublished-reuse :
    (kv : KvCacheManager) (b : ℕ) (hits : List (ℕ × ℕ))
    → AllPublished kv hits
    → AllPublished (reuse kv b) hits
unfolding reuse touch_cached
AllPublished-reuse kv b hits a = a

-- Each hit becomes a block of the table, and what is no longer available was an idle hit.
pub share_hits-Grows :
    (hits : List (ℕ × ℕ)) (kv : KvCacheManager) (claims : ℕ → ℕ → ℕ) (bt : BlockTable)
    → Grows kv claims bt
    → AllPublished kv hits
    → Grows (share_hits hits kv bt).0 claims (share_hits hits kv bt).1
      × SamePool kv (share_hits hits kv bt).0
      × (num_available_blocks kv
          ≤ num_available_blocks (share_hits hits kv bt).0 + count_idle kv hits)
      × (length (share_hits hits kv bt).1.blocks ≡ length bt.blocks + length hits)
unfolding share_hits count_idle
share_hits-Grows [] kv claims bt g a = (g, SamePool-refl kv, omega arith, omega arith)
share_hits-Grows ((h, b) ∷ hits) kv claims bt g a =
    let (g', same, left, len) =
      share_hits-Grows hits (reuse kv b) claims (push_block bt b h)
        (Grows-push _ claims bt b h g.parallel (reuse-Inv g.inv h b a.0))
        (AllPublished-reuse kv b hits a.1) in
    (
      g',
      SamePool-trans (reuse-SamePool kv b) same,
      omega (arith, left, available-reuse g.inv b, count_idle-reuse kv b hits),
      omega (arith, len, length-append bt.blocks (b ∷ [])),
    )
