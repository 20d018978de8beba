-- ===== src/KvCache/Defs.antt =====
-- include/engine/kv_cache.h and src/kv_cache/block_allocator.cpp: the state and its operations.
--
-- `ref_count_`, `block_hash_` and `hash_to_block_` are functions of their index. The head of `free`
-- is the back of the vector `free_`, the head of `lru` is the front of the list `lru_`, and the
-- iterators of `lru_pos_` are positions in `lru`. A token is the bit pattern of its `int32_t`.
use Prim.Native.Nat.{bit_xor}
use llm_engine.Base.{
  ℕ, zero, suc, ◌+◌, ◌-◌, ◌*◌, ◌/◌, ◌%◌, ◌^◌, Bool, List, [], ◌∷◌, ◌++◌, Option, none, some,
  Checked, ok, ◌>>◌, assert, if◌then◌else◌, ltb, ◌==◌, not, ◌&&◌, ◌||◌, update, length, get_or, set,
  take, drop, erase,
}

pub record BlockTable : Type 0 where
  pub blocks : List ℕ
  pub hashes : List ℕ
  pub num_committed : ℕ

pub record KvCacheStats : Type 0 where
  pub prefix_queries : ℕ
  pub prefix_hit_blocks : ℕ
  pub prefix_total_blocks : ℕ
  pub evictions : ℕ
  pub allocation_failures : ℕ

pub record KvCacheManager : Type 0 where
  pub num_blocks : ℕ
  pub block_size : ℕ
  pub prefix_caching : Bool
  pub free_list : List ℕ
  pub ref_count : ℕ → ℕ
  pub hash_to_block : ℕ → Option ℕ
  pub block_hash : ℕ → ℕ
  pub lru : List ℕ
  pub stats : KvCacheStats

abbrev pub empty_table : BlockTable
empty_table = record { blocks = []; hashes = []; num_committed = 0 }

unfoldable pub slot : BlockTable → ℕ → ℕ → ℕ
slot bt pos block_size = get_or bt.blocks (pos / block_size) 0 * block_size + pos % block_size

abbrev pub num_available_blocks : KvCacheManager → ℕ
num_available_blocks kv = length kv.free_list + length kv.lru

unfoldable pub num_used_blocks : KvCacheManager → ℕ
num_used_blocks kv = kv.num_blocks - num_available_blocks kv

abbrev pub capacity_tokens : KvCacheManager → ℕ
capacity_tokens kv = kv.num_blocks * kv.block_size

unfoldable pub blocks_needed : ℕ → ℕ → ℕ
blocks_needed num_tokens block_size = (num_tokens + block_size - 1) / block_size

-- `for (b = num_blocks - 1; b >= 0; b--) free_.push_back(b)`: block 0 ends up at the back.
unfoldable pub ids_from : ℕ → ℕ → List ℕ
ids_from b zero = []
ids_from b (suc n) = b ∷ ids_from (suc b) n

abbrev no_stats : KvCacheStats
no_stats = record {
  prefix_queries = 0;
  prefix_hit_blocks = 0;
  prefix_total_blocks = 0;
  evictions = 0;
  allocation_failures = 0;
}

-- The members that the constructor sets.
unfoldable pub fresh_pool : ℕ → ℕ → Bool → KvCacheManager
unfolding ids_from
fresh_pool num_blocks block_size caching = record {
  num_blocks = num_blocks;
  block_size = block_size;
  prefix_caching = caching;
  free_list = ids_from 0 num_blocks;
  ref_count = λ _. 0;
  hash_to_block = λ _. none;
  block_hash = λ _. 0;
  lru = [];
  stats = no_stats;
}

-- The constructor; `none` is `std::invalid_argument`.
unfoldable pub make : ℕ → ℕ → Bool → Option KvCacheManager
make num_blocks block_size caching =
    if num_blocks == 0 || block_size == 0
    then none
    else some (fresh_pool num_blocks block_size caching)

xorshift : ℕ → ℕ → ℕ
xorshift z k = bit_xor z (z / 2 ^ k)

mix : ℕ → ℕ
unfolding xorshift
mix z =
    let z1 = (z + 0x9E3779B97F4A7C15) % 2 ^ 64 in
    let z2 = xorshift z1 30 * 0xBF58476D1CE4E5B9 % 2 ^ 64 in
    let z3 = xorshift z2 27 * 0x94D049BB133111EB % 2 ^ 64 in xorshift z3 31

mix_tokens : ℕ → List ℕ → ℕ
unfolding mix
mix_tokens h [] = h
mix_tokens h (t ∷ ts) = mix_tokens (mix (bit_xor h (t % 2 ^ 32))) ts

unfoldable pub hash_block : ℕ → List ℕ → ℕ
unfolding mix_tokens
hash_block prev_hash tokens =
    let h = mix_tokens (bit_xor prev_hash 0x9E3779B97F4A7C15) tokens in if h == 0 then 1 else h

-- The block at the front of the LRU list, and the pool without it.
unfoldable pub evict : KvCacheManager → ℕ → List ℕ → ℕ × KvCacheManager
evict kv b rest = (
  b,
  record kv {
    lru = rest;
    hash_to_block = update kv.hash_to_block (kv.block_hash b) none;
    block_hash = update kv.block_hash b 0;
    stats = record (kv.stats) { evictions = kv.stats.evictions + 1 };
  },
)

unfoldable pub take_block : KvCacheManager → Option (ℕ × KvCacheManager)
unfolding evict
take_block kv = elim kv.free_list [
  | b ∷ rest ↦ some (b, record kv { free_list = rest })
  | [] ↦ elim kv.lru [ [] ↦ none | b ∷ rest ↦ some (evict kv b rest) ]
]

unfoldable pub touch_cached : KvCacheManager → ℕ → KvCacheManager
touch_cached kv b = record kv { lru = erase b kv.lru }

-- `release_block` once the last reference is gone: keep the block for reuse, or free it.
unfoldable pub retire_block : KvCacheManager → ℕ → ℕ → KvCacheManager
retire_block kv b hash =
    if kv.prefix_caching && (not (hash == 0) && kv.block_hash b == hash)
    then record kv { lru = kv.lru ++ (b ∷ []) }
    else if kv.block_hash b == 0
    then record kv { free_list = b ∷ kv.free_list }
    else record kv {
      hash_to_block = update kv.hash_to_block (kv.block_hash b) none;
      block_hash = update kv.block_hash b 0;
      free_list = b ∷ kv.free_list;
    }

-- `release_block` past its assertion.
unfoldable pub drop_reference : KvCacheManager → ℕ → ℕ → KvCacheManager
unfolding retire_block
drop_reference kv b hash =
    let dropped = record kv { ref_count = update kv.ref_count b (kv.ref_count b - 1) } in
    if ltb 0 (dropped.ref_count b) then dropped else retire_block dropped b hash

unfoldable pub release_block : KvCacheManager → ℕ → ℕ → Checked KvCacheManager
unfolding drop_reference
release_block kv b hash = do assert (ltb 0 (kv.ref_count b)); ok (drop_reference kv b hash)

-- The tokens of the `i`-th block.
abbrev pub block_tokens : KvCacheManager → ℕ → List ℕ → List ℕ
block_tokens kv i tokens = take kv.block_size (drop (i * kv.block_size) tokens)

unfoldable pub hash_full_block :
    KvCacheManager → BlockTable → ℕ → List ℕ → KvCacheManager × BlockTable
hash_full_block kv bt i tokens =
    let prev = if i == 0 then 0 else get_or bt.hashes (i - 1) 0 in
    let h = hash_block prev (block_tokens kv i tokens) in
    let b = get_or bt.blocks i 0 in
    if not kv.prefix_caching
    then (kv, bt)
    else if ltb 0 i && prev == 0
    then (kv, bt)
    else elim (kv.hash_to_block h) [
      | some _ ↦ (kv, bt)
      | none ↦ (
        record kv {
          hash_to_block = update kv.hash_to_block h (some b);
          block_hash = update kv.block_hash b h;
        },
        record bt { hashes = set bt.hashes i h },
      )
    ]
