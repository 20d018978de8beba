-- ===== src/KvCache/Accounting.antt =====
-- The accounting of the block pool of src/kv_cache/block_allocator.cpp: what the entries of all
-- block tables say of the pool's arrays.
use llm_engine.Base.{
  ℕ, suc, ◌+◌, ◌≤◌, ◌<◌, ◌≡◌, ◌≢◌, List, [], ◌∷◌, ◌++◌, some, arith, if◌then◌else◌, ltb, ◌==◌, ◌&&◌,
  length, count,
}
use llm_engine.KvCache.Defs.{KvCacheManager, BlockTable}

-- 1 for the entry (x, y) itself, and 0 for any other.
abbrev pub one : ℕ → ℕ → ℕ → ℕ → ℕ
one x y b h = if x == b then (if y == h then 1 else 0) else 0

-- How often block `b` stands in a table beside the hash `h`.
unfoldable pub entries : List ℕ → List ℕ → ℕ → ℕ → ℕ
entries [] hs b h = 0
entries (x ∷ xs) [] b h = 0
entries (x ∷ xs) (y ∷ ys) b h = one x y b h + entries xs ys b h

abbrev pub table_entries : BlockTable → ℕ → ℕ → ℕ
table_entries bt = entries bt.blocks bt.hashes

-- `claims b h` is how often block `b` stands beside hash `h` in the tables of all sequences.
pub record Inv (kv : KvCacheManager) (claims : ℕ → ℕ → ℕ) : Type 0 where
  -- references are counted exactly, and each table knows the hash of its blocks
  pub held : (b h : ℕ) → claims b h ≡ (if kv.block_hash b == h then kv.ref_count b else 0)
  -- a block of the pool is free, cached or referenced, and only one of these
  pub placed :
      (b : ℕ)
      → count b kv.free_list + count b kv.lru + (if kv.ref_count b == 0 then 0 else 1)
        ≡ (if ltb b kv.num_blocks then 1 else 0)
  -- the map from hashes and the array of hashes agree
  pub indexed : (h b : ℕ) → kv.hash_to_block h ≡ some b → (kv.block_hash b ≡ h) × (h ≢ 0)
  pub published : (b : ℕ) → kv.block_hash b ≢ 0 → kv.hash_to_block (kv.block_hash b) ≡ some b
  pub in_pool : (b : ℕ) → kv.block_hash b ≢ 0 → b < kv.num_blocks
  -- a free block has no content, a cached one has
  pub free_clean : (b : ℕ) → 0 < count b kv.free_list → kv.block_hash b ≡ 0
  pub cached_hashed : (b : ℕ) → 0 < count b kv.lru → kv.block_hash b ≢ 0
  -- only published blocks are shared
  pub unshared : (b : ℕ) → kv.block_hash b ≡ 0 → kv.ref_count b ≤ 1

-- A table as the operations keep it: parallel vectors, and no hash past the committed blocks.
abbrev pub UnhashedFrom : ℕ → List ℕ → Type 0
UnhashedFrom n hs = (i : ℕ) → n ≤ i → llm_engine.Base.get_or hs i 0 ≡ 0

pub record IsTable (bt : BlockTable) : Type 0 where
  pub parallel : length bt.hashes ≡ length bt.blocks
  pub committed : bt.num_committed ≤ length bt.blocks
  pub unhashed : UnhashedFrom bt.num_committed bt.hashes

pub Inv-cong :
    {kv : KvCacheManager} (c d : ℕ → ℕ → ℕ) → ((b h : ℕ) → c b h ≡ d b h) → Inv kv c → Inv kv d
Inv-cong c d e v = record {
  held = λ b h. omega (arith, e b h, v.held b h);
  placed = v.placed;
  indexed = v.indexed;
  published = v.published;
  in_pool = v.in_pool;
  free_clean = v.free_clean;
  cached_hashed = v.cached_hashed;
  unshared = v.unshared;
}

pub entries-push :
    (xs ys : List ℕ) (x y b h : ℕ)
    → length ys ≡ length xs
    → entries (xs ++ (x ∷ [])) (ys ++ (y ∷ [])) b h ≡ one x y b h + entries xs ys b h
unfolding entries
entries-push [] [] x y b h e = omega arith
entries-push [] (y' ∷ ys) x y b h e = absurd (omega arith)
entries-push (x' ∷ xs) [] x y b h e = absurd (omega arith)
entries-push (x' ∷ xs) (y' ∷ ys) x y b h e = omega (arith, entries-push xs ys x y b h (omega arith))
