-- ===== src/KvCache/Usage.antt =====
-- include/engine/kv_cache.h: what the pool's gauges count.
use llm_engine.Base.{
  ℕ, zero, suc, ◌+◌, ◌≤◌, ◌≡◌, refl, List, [], ◌∷◌, arith, if◌then◌else◌, ltb, ◌==◌, length,
  sum_below, sum_below-add, sum_below-cong, count,
}
use llm_engine.KvCache.Defs.{KvCacheManager, num_available_blocks, num_used_blocks}
use llm_engine.KvCache.Accounting.{Inv}

sum_below-one : (n x : ℕ) → sum_below n (λ b. if x == b then 1 else 0) ≡ (if ltb x n then 1 else 0)
unfolding sum_below
sum_below-one zero x = ground arith
sum_below-one (suc n) x = ground (arith, sum_below-one n x)

sum_below-zero : (n : ℕ) → sum_below n (λ b. 0) ≡ 0
unfolding sum_below
sum_below-zero zero = refl
sum_below-zero (suc n) = omega (arith, sum_below-zero n)

sum_below-ones : (n m : ℕ) → n ≤ m → sum_below n (λ b. if ltb b m then 1 else 0) ≡ n
unfolding sum_below
sum_below-ones zero m h = refl
sum_below-ones (suc n) m h = ground (arith, sum_below-ones n m)

-- A list of numbers below `n` is as long as its counts add up to.
sum_below-count :
    (n : ℕ) (xs : List ℕ)
    → ((b : ℕ) → n ≤ b → count b xs ≡ 0)
    → sum_below n (λ b. count b xs) ≡ length xs
sum_below-count n [] h = sum_below-zero n
sum_below-count n (x ∷ xs) h = omega (
  arith,
  sum_below-add n (λ b. if x == b then 1 else 0) (λ b. count b xs),
  sum_below-one n x,
  sum_below-count n xs (λ b le. omega (arith, h b le)),
  below,
)
  where
    below : ◌≡◌ {A = ℕ} (if ltb x n then 1 else 0) 1
    below = ground (arith, h x)

-- The number of blocks that some sequence references.
pub count_referenced : KvCacheManager → ℕ
unfolding sum_below
count_referenced kv = sum_below kv.num_blocks (λ b. if kv.ref_count b == 0 then 0 else 1)

-- In an exact pool the available blocks, free or cached, and the blocks that some table references
-- add up to the size of the pool: no block leaks.
pub available-referenced :
    {kv : KvCacheManager} {claims : ℕ → ℕ → ℕ}
    → Inv kv claims
    → num_available_blocks kv + count_referenced kv ≡ kv.num_blocks
unfolding count_referenced
available-referenced {kv} v =
    let n = kv.num_blocks in
    let used : ℕ → ℕ = λ b. if kv.ref_count b == 0 then 0 else 1 in
    omega (
      arith,
      sum_below-count n kv.free_list (λ b le. ground (arith, v.placed b)),
      sum_below-count n kv.lru (λ b le. ground (arith, v.placed b)),
      sum_below-add n (λ b. count b kv.free_list + count b kv.lru) used,
      sum_below-add n (λ b. count b kv.free_list) (λ b. count b kv.lru),
      sum_below-cong n _ (λ b. if ltb b n then 1 else 0) (λ b _. v.placed b),
      sum_below-ones n n (omega arith),
    )

-- In an exact pool `num_used_blocks` is the number of blocks that some table references, each
-- counted once.
pub num_used_blocks-referenced :
    {kv : KvCacheManager} {claims : ℕ → ℕ → ℕ}
    → Inv kv claims
    → num_used_blocks kv ≡ count_referenced kv
unfolding num_used_blocks
num_used_blocks-referenced v = omega (arith, available-referenced v)
