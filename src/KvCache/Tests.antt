-- ===== src/KvCache/Tests.antt =====
-- Runs of the paged KV cache on small pools.
use mathlib.Core.Option.{some-injective}
use llm_engine.Base.{
  ℕ, ◌*◌, ◌/◌, ◌≤◌, ◌≡◌, ◌⊎◌, refl, sym, ap, subst, ◌∙◌, Bool, true, List, [], ◌∷◌, Checked, ok,
  assert_failed, length, arith,
}
use llm_engine.KvCache.Defs.{
  KvCacheManager, BlockTable, empty_table, fresh_pool, make, num_available_blocks, num_used_blocks,
  blocks_needed, slot, hash_block,
}
use llm_engine.KvCache.Alloc.{ensure_slot, free, lookup_cached_prefix, prefix_hits}
use llm_engine.KvCache.Accounting.{Inv, Inv-cong}
use llm_engine.KvCache.Blocks.{SamePool}
use llm_engine.KvCache.Laws.{Owns, Fits, Refused, allocate_prompt_cases}
use llm_engine.KvCache.Share.{length-prefix_hits}
use llm_engine.KvCache.Empty.{empty-Owns, empty_table-IsTable}
use llm_engine.KvCache.Owned.{no_claims, Ensured, ensure_slot-Ensured, free-Freed, make-Inv}
use llm_engine.KvCache.History.{
  System, Op, step, IsSound, Sounds, step-IsSound, Reach, here, next, Reach-IsSound,
}

-- Four blocks of two slots.
abbrev pool : KvCacheManager
pool = fresh_pool 4 2 true

pool-Inv : Inv pool no_claims
pool-Inv = (make-Inv 4 2 true (omega arith) (omega arith)).1

pool-Owns : Owns no_claims pool empty_table
pool-Owns = empty-Owns no_claims pool pool-Inv

one_block : blocks_needed 2 pool.block_size ≤ 1
unfolding blocks_needed fresh_pool
one_block = omega arith

abbrev result : Checked (Bool × KvCacheManager × BlockTable) → KvCacheManager × BlockTable
result (ok (_, kv, bt)) = (kv, bt)
result assert_failed = (pool, empty_table)

-- A sequence with its first block.
abbrev grown : KvCacheManager × BlockTable
grown = result (ensure_slot pool empty_table 2)

grown-Owns : Owns no_claims grown.0 grown.1
grown-Owns =
    let (g, kv, bt, done, o, _, _) =
      ensure_slot-Ensured no_claims pool empty_table pool-Owns 2 one_block in
    subst (λ (r : KvCacheManager × BlockTable). Owns no_claims r.0 r.1) (sym (ap result done)) o

grown_blocks : grown.1.blocks ≡ 0 ∷ []
unfolding ensure_slot blocks_needed fresh_pool llm_engine.KvCache.Defs.take_block
    llm_engine.KvCache.Defs.ids_from
grown_blocks = refl

abbrev prompt_tokens : List ℕ
prompt_tokens = 5 ∷ 6 ∷ 7 ∷ []

allocate_prompt_cases_example :
    Fits no_claims pool pool-Inv prompt_tokens ⊎ Refused no_claims pool pool-Inv prompt_tokens
allocate_prompt_cases_example =
    allocate_prompt_cases no_claims pool pool-Inv prompt_tokens (unfold fresh_pool in omega arith)

length-prefix_hits_example :
    (length (prefix_hits grown.0 prompt_tokens) * grown.0.block_size
      ≡ lookup_cached_prefix grown.0 prompt_tokens)
    × (length (prefix_hits grown.0 prompt_tokens) ≤ length prompt_tokens / grown.0.block_size)
length-prefix_hits_example = length-prefix_hits grown.0 prompt_tokens

ensure_slot-Ensured_example : Ensured no_claims pool empty_table pool-Owns 2
ensure_slot-Ensured_example = ensure_slot-Ensured no_claims pool empty_table pool-Owns 2 one_block

free-Freed_example :
    (kv' : KvCacheManager) × (free grown.0 grown.1 ≡ ok (kv', empty_table))
    × Inv kv' no_claims
    × SamePool grown.0 kv'
free-Freed_example = free-Freed no_claims grown.0 grown.1 grown-Owns

-- One sequence arrived.
abbrev system : System
system = record { kv = pool; tables = empty_table ∷ [] }

system-IsSound : IsSound system
unfolding llm_engine.KvCache.History.all_entries llm_engine.KvCache.Accounting.entries fresh_pool
system-IsSound = record {
  inv = Inv-cong _ _ (λ b h. omega arith) pool-Inv;
  tables = (empty_table-IsTable, tt);
  sized = omega arith;
}

step-IsSound_example : Sounds (step system (Op.prompt 0 prompt_tokens))
step-IsSound_example =
    step-IsSound system (Op.prompt 0 prompt_tokens) system-IsSound
      (λ bt e. ap (λ t. t.blocks) (some-injective bt empty_table (sym e)))

abbrev after : Checked System → System
after (ok s) = s
after assert_failed = system

after-ok : (r : Checked System) → Sounds r → r ≡ ok (after r)
after-ok r (s, e, h) = e ∙ ap ok (sym (ap after e))

-- The sequence has the blocks of its prompt.
abbrev prompted : System
prompted = after (step system (Op.prompt 0 prompt_tokens))
