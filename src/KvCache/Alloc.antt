-- ===== src/KvCache/Alloc.antt =====
-- src/kv_cache/block_allocator.cpp: the operations on a sequence's block table.
use llm_engine.Base.{
  ℕ, zero, suc, ◌+◌, ◌-◌, ◌*◌, ◌/◌, Bool, true, false, List, [], ◌∷◌, ◌++◌, Option, none, some,
  Checked, ok, assert_failed, ◌>>=◌, ◌>>◌, assert, if◌then◌else◌, ltb, leb, ◌==◌, not, ◌&&◌, update,
  length,
}
use llm_engine.KvCache.Defs.{
  BlockTable, KvCacheManager, num_available_blocks, blocks_needed, hash_block, block_tokens,
  take_block, touch_cached, release_block, hash_full_block,
}

-- `lookup_cached_prefix`, its loop: the number of leading blocks found, from block `i` on.
unfoldable pub count_hits : KvCacheManager → ℕ → ℕ → ℕ → List ℕ → ℕ
count_hits kv zero i prev tokens = 0
count_hits kv (suc rounds) i prev tokens =
    let h = hash_block prev (block_tokens kv i tokens) in
    elim (kv.hash_to_block h) [ none ↦ 0 | some _ ↦ suc (count_hits kv rounds (i + 1) h tokens) ]

unfoldable pub lookup_cached_prefix : KvCacheManager → List ℕ → ℕ
lookup_cached_prefix kv tokens =
    if not kv.prefix_caching
    then 0
    else count_hits kv (length tokens / kv.block_size) 0 0 tokens * kv.block_size

-- The walk of `allocate_prompt`: the hash and the block of each leading block that is cached.
unfoldable pub walk_hits : KvCacheManager → ℕ → ℕ → ℕ → List ℕ → List (ℕ × ℕ)
walk_hits kv zero i prev tokens = []
walk_hits kv (suc rounds) i prev tokens =
    let h = hash_block prev (block_tokens kv i tokens) in
    elim (kv.hash_to_block h) [ none ↦ [] | some b ↦ (h, b) ∷ walk_hits kv rounds (i + 1) h tokens ]

unfoldable pub prefix_hits : KvCacheManager → List ℕ → List (ℕ × ℕ)
prefix_hits kv tokens =
    if kv.prefix_caching then walk_hits kv (length tokens / kv.block_size) 0 0 tokens else []

-- How many of the hits nobody references.
unfoldable pub count_idle : KvCacheManager → List (ℕ × ℕ) → ℕ
count_idle kv [] = 0
count_idle kv ((h, b) ∷ hits) = (if kv.ref_count b == 0 then 1 else 0) + count_idle kv hits

abbrev pub push_block : BlockTable → ℕ → ℕ → BlockTable
push_block bt b h = record bt { blocks = bt.blocks ++ (b ∷ []); hashes = bt.hashes ++ (h ∷ []) }

-- One more reference to a cached block.
unfoldable pub reuse : KvCacheManager → ℕ → KvCacheManager
reuse kv b =
    let touched = touch_cached kv b in
    record touched { ref_count = update touched.ref_count b (touched.ref_count b + 1) }

unfoldable pub share_hits : List (ℕ × ℕ) → KvCacheManager → BlockTable → KvCacheManager × BlockTable
share_hits [] kv bt = (kv, bt)
share_hits ((h, b) ∷ hits) kv bt = share_hits hits (reuse kv b) (push_block bt b h)

-- A new block becomes the table's last one, unhashed and with one reference.
abbrev pub claim : KvCacheManager → ℕ → KvCacheManager
claim kv b = record kv { ref_count = update kv.ref_count b 1 }

unfoldable pub take_fresh : ℕ → KvCacheManager → BlockTable → Checked (KvCacheManager × BlockTable)
take_fresh zero kv bt = ok (kv, bt)
take_fresh (suc n) kv bt = elim (take_block kv) [
  | none ↦ assert_failed
  | some (b, kv') ↦ take_fresh n (claim kv' b) (push_block bt b 0)
]

abbrev pub is_empty : BlockTable → Bool
is_empty bt = length bt.blocks == 0

abbrev pub count_query : KvCacheManager → ℕ → KvCacheManager
count_query kv full = record kv {
  stats = record (kv.stats) {
    prefix_queries = kv.stats.prefix_queries + 1;
    prefix_total_blocks = kv.stats.prefix_total_blocks + full;
  };
}

abbrev pub count_failure : KvCacheManager → KvCacheManager
count_failure kv = record kv {
  stats = record (kv.stats) { allocation_failures = kv.stats.allocation_failures + 1 };
}

abbrev pub count_cached : KvCacheManager → ℕ → KvCacheManager
count_cached kv cached = record kv {
  stats = record (kv.stats) { prefix_hit_blocks = kv.stats.prefix_hit_blocks + cached };
}

-- `needed - cached > num_available_blocks() - lru_hits`, with no subtraction.
unfoldable pub lacks_room : KvCacheManager → List (ℕ × ℕ) → ℕ → Bool
lacks_room kv hits needed =
    ltb (num_available_blocks kv + length hits) (needed + count_idle kv hits)

-- The blocks of the hits, then fresh ones up to `needed`.
unfoldable pub fill_table :
    List (ℕ × ℕ) → ℕ → KvCacheManager → BlockTable → Checked (KvCacheManager × BlockTable)
fill_table hits needed kv bt =
    let (kv', bt') = share_hits hits kv bt in
    take_fresh (needed - length hits) (count_cached kv' (length hits)) bt'

-- `none` is `std::nullopt`: the pool cannot fit the prompt.
unfoldable pub allocate_prompt :
    KvCacheManager → BlockTable → List ℕ → Checked (Option ℕ × KvCacheManager × BlockTable)
allocate_prompt kv bt tokens = do
  assert (is_empty bt)
  let needed = blocks_needed (length tokens) kv.block_size
  let queried = count_query kv (length tokens / kv.block_size)
  let hits = prefix_hits queried tokens
  if lacks_room queried hits needed then ok (none, count_failure queried, bt) else do
    (kv', bt') ← fill_table hits needed queried bt
    ok (some (length hits * kv.block_size), kv', record bt' { num_committed = length hits })

-- `false`: out of memory.
unfoldable pub ensure_slot :
    KvCacheManager → BlockTable → ℕ → Checked (Bool × KvCacheManager × BlockTable)
ensure_slot kv bt num_tokens = do
  let needed = blocks_needed num_tokens kv.block_size
  assert (leb needed (length bt.blocks + 1))
  if ltb (length bt.blocks) needed
      then elim (take_block kv) [
        | none ↦ ok (false, count_failure kv, bt)
        | some (b, kv') ↦ ok (true, claim kv' b, push_block bt b 0)
      ]
      else ok (true, kv, bt)

-- The condition of the loop of `commit_computed`.
unfoldable pub can_commit : KvCacheManager → BlockTable → ℕ → Bool
can_commit kv bt num_computed =
    ltb bt.num_committed (length bt.blocks)
    && leb ((bt.num_committed + 1) * kv.block_size) num_computed

-- Its body.
unfoldable pub commit_next : KvCacheManager → BlockTable → List ℕ → KvCacheManager × BlockTable
commit_next kv bt tokens =
    let (kv', bt') = hash_full_block kv bt bt.num_committed tokens in
    (kv', record bt' { num_committed = bt'.num_committed + 1 })

unfoldable pub commit_loop :
    ℕ → KvCacheManager → BlockTable → List ℕ → ℕ → KvCacheManager × BlockTable
commit_loop zero kv bt tokens num_computed = (kv, bt)
commit_loop (suc fuel) kv bt tokens num_computed = elim (can_commit kv bt num_computed) [
  | false ↦ (kv, bt)
  | true ↦ let (kv', bt') = commit_next kv bt tokens in commit_loop fuel kv' bt' tokens num_computed
]

-- The loop runs at most once for each block of the table.
unfoldable pub commit_computed :
    KvCacheManager → BlockTable → List ℕ → ℕ → Checked (KvCacheManager × BlockTable)
commit_computed kv bt tokens num_computed = if not kv.prefix_caching then ok (kv, bt) else do
  assert (leb num_computed (length tokens))
  ok (commit_loop (length bt.blocks) kv bt tokens num_computed)

-- The last block is released first.
unfoldable pub release_entries : List ℕ → List ℕ → KvCacheManager → Checked KvCacheManager
release_entries [] hashes kv = ok kv
release_entries (b ∷ blocks) [] kv = assert_failed
release_entries (b ∷ blocks) (h ∷ hashes) kv = do
  kv' ← release_entries blocks hashes kv
  release_block kv' b h

unfoldable pub free : KvCacheManager → BlockTable → Checked (KvCacheManager × BlockTable)
free kv bt = do
  kv' ← release_entries bt.blocks bt.hashes kv
  ok (kv', record { blocks = []; hashes = []; num_committed = 0 })
