-- ===== src/KvCache/Empty.antt =====
-- include/engine/kv_cache.h: the table of a sequence that holds no block.
use llm_engine.Base.{ℕ, ◌≡◌, refl, [], arith}
use llm_engine.KvCache.Defs.{KvCacheManager, BlockTable, empty_table}
use llm_engine.KvCache.Accounting.{Inv, Inv-cong, IsTable, entries}
use llm_engine.KvCache.Laws.{Owns}

-- A table with no block is the empty one.
pub empty_table-eq : (bt : BlockTable) → IsTable bt → bt.blocks ≡ [] → bt ≡ empty_table
empty_table-eq bt t e = ground (arith, t.parallel, t.committed)

pub empty_table-IsTable : IsTable empty_table
empty_table-IsTable = record { parallel = refl; committed = omega arith; unhashed = λ i h. refl }

pub empty-Owns :
    (claims : ℕ → ℕ → ℕ) (kv : KvCacheManager) → Inv kv claims → Owns claims kv empty_table
unfolding entries
empty-Owns claims kv v = record {
  inv = Inv-cong _ _ (λ b h. omega arith) v;
  table = empty_table-IsTable;
}

pub Owns-empty :
    (claims : ℕ → ℕ → ℕ) (kv : KvCacheManager) → Owns claims kv empty_table → Inv kv claims
unfolding entries
Owns-empty claims kv o = Inv-cong _ _ (λ b h. omega arith) o.inv
