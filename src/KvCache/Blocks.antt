-- ===== src/KvCache/Blocks.antt =====
-- src/kv_cache/block_allocator.cpp: lemmas on the steps on one block.
use native.Mathlib.Decide.{dec_lt}
use llm_engine.Base.{
  ℕ, ◌+◌, ◌<◌, ◌≡◌, ◌≢◌, refl, sym, ◌∙◌, List, [], ◌∷◌, none, some, arith, length, count-append,
  count-erase, ok, update,
}
use llm_engine.KvCache.Defs.{
  KvCacheManager, take_block, evict, touch_cached, drop_reference, release_block,
  num_available_blocks,
}
use llm_engine.KvCache.Alloc.{claim, reuse}
use llm_engine.KvCache.Accounting.{Inv, one}

-- What stays of the pool while blocks are taken and released.
pub record SamePool (kv kv' : KvCacheManager) : Type 0 where
  pub num_blocks : kv'.num_blocks ≡ kv.num_blocks
  pub block_size : kv'.block_size ≡ kv.block_size
  pub prefix_caching : kv'.prefix_caching ≡ kv.prefix_caching

pub record Taken (kv : KvCacheManager) (b : ℕ) (kv' : KvCacheManager) (claims : ℕ → ℕ → ℕ)
    : Type 0 where
  pub inv : Inv (claim kv' b) claims
  pub one_less : num_available_blocks kv' + 1 ≡ num_available_blocks kv
  pub same : SamePool kv (claim kv' b)

module _ {kv : KvCacheManager} {claims : ℕ → ℕ → ℕ} (v : Inv kv claims) where
  -- A published block can be given to one more table; it leaves the LRU list.
  pub reuse-Inv :
      (h b : ℕ)
      → kv.hash_to_block h ≡ some b
      → Inv (reuse kv b) (λ b' h'. one b h b' h' + claims b' h')
  unfolding reuse touch_cached
  reuse-Inv h b e = record {
    held = λ b' h'. ground (arith, v.held b' h', v.indexed h b e);
    placed = λ b'. ground (
      arith,
      v.placed b',
      v.placed b,
      v.indexed h b e,
      v.in_pool b,
      v.free_clean b,
      count-erase b' b kv.lru,
    );
    indexed = v.indexed;
    published = v.published;
    in_pool = v.in_pool;
    free_clean = v.free_clean;
    cached_hashed = λ b' c. v.cached_hashed b' (ground (arith, count-erase b' b kv.lru));
    unshared = λ b' u. ground (arith, v.unshared b', v.indexed h b e);
  }

  take_free-Inv :
      (b : ℕ) (rest : List ℕ)
      → kv.free_list ≡ b ∷ rest
      → Inv (claim (record kv { free_list = rest }) b) (λ b' h'. one b 0 b' h' + claims b' h')
  take_free-Inv b rest e =
      let clean : kv.block_hash b ≡ 0 = v.free_clean b (ground arith) in
      record {
        held = λ b' h'. ground (arith, v.held b' h', v.placed b);
        placed = λ b'. ground (arith, v.placed b', v.placed b);
        indexed = v.indexed;
        published = v.published;
        in_pool = v.in_pool;
        free_clean = λ b' c. v.free_clean b' (ground arith);
        cached_hashed = v.cached_hashed;
        unshared = λ b' u. ground (arith, v.unshared b');
      }

  take_cached-Inv :
      (b : ℕ) (rest : List ℕ)
      → kv.lru ≡ b ∷ rest
      → Inv (claim (evict kv b rest).1 b) (λ b' h'. one b 0 b' h' + claims b' h')
  unfolding evict
  take_cached-Inv b rest e =
      let hashed : kv.block_hash b ≢ 0 = v.cached_hashed b (ground arith) in
      record {
        held = λ b' h'. ground (arith, v.held b' h', v.placed b);
        placed = λ b'. ground (arith, v.placed b', v.placed b);
        indexed = λ h' b' e'. ground (arith, v.indexed h' b', v.published b hashed);
        published = λ b' u. ground (arith, v.published b', v.published b hashed);
        in_pool = λ b' u. ground (arith, v.in_pool b');
        free_clean = λ b' c. ground (arith, v.free_clean b' c);
        cached_hashed = λ b' c. ground (arith, v.cached_hashed b', v.placed b);
        unshared = λ b' u. ground (arith, v.unshared b');
      }

  take_cases :
      (free lru : List ℕ) (b : ℕ) (kv' : KvCacheManager)
      → kv.free_list ≡ free
      → kv.lru ≡ lru
      → take_block kv ≡ some (b, kv')
      → Taken kv b kv' (λ b' h'. one b 0 b' h' + claims b' h')
  unfolding take_block evict
  take_cases [] [] b kv' f l e = ground arith
  take_cases [] (c ∷ rest) b kv' f l e = record {
    inv = ground (arith, take_cached-Inv c rest l);
    one_less = ground arith;
    same = ground arith;
  }
  take_cases (c ∷ rest) lru b kv' f l e = record {
    inv = ground (arith, take_free-Inv c rest f);
    one_less = ground arith;
    same = ground arith;
  }

  pub take_block-Taken :
      (b : ℕ) (kv' : KvCacheManager)
      → take_block kv ≡ some (b, kv')
      → Taken kv b kv' (λ b' h'. one b 0 b' h' + claims b' h')
  take_block-Taken b kv' e = take_cases kv.free_list kv.lru b kv' refl refl e

take_some :
    (kv : KvCacheManager) (free lru : List ℕ)
    → kv.free_list ≡ free
    → kv.lru ≡ lru
    → 0 < length free + length lru
    → (b : ℕ) × (kv' : KvCacheManager) × (take_block kv ≡ some (b, kv'))
unfolding take_block
take_some kv [] [] f l h = absurd (omega arith)
take_some kv [] (b ∷ rest) f l h = (b, (evict kv b rest).1, ground arith)
take_some kv (b ∷ rest) lru f l h = (b, record kv { free_list = rest }, ground arith)

-- A pool with a block to spare gives one.
pub take_block-some :
    (kv : KvCacheManager)
    → 0 < num_available_blocks kv
    → (b : ℕ) × (kv' : KvCacheManager) × (take_block kv ≡ some (b, kv'))
take_block-some kv h = take_some kv kv.free_list kv.lru refl refl h

module _ {kv : KvCacheManager} (claims : ℕ → ℕ → ℕ) (b h : ℕ)
    (v : Inv kv (λ b' h'. one b h b' h' + claims b' h')) where
  -- The entry that is given up knows the block's hash, and counts as a reference.
  pub held_entry : (kv.block_hash b ≡ h) × (0 < kv.ref_count b)
  held_entry = ground (arith, v.held b h)

  pub release-Inv : Inv (drop_reference kv b h) claims
  unfolding drop_reference
  release-Inv = record {
    held = λ b' h'. ground (arith, v.held b' h', v.placed b, held_entry);
    placed =
        λ b'. ground (arith, v.placed b', v.placed b, held_entry, count-append b' kv.lru (b ∷ []));
    indexed = λ h' b' e'. ground (arith, v.indexed h' b', held_entry);
    published = λ b' u. ground (arith, v.published b', v.published b, held_entry);
    in_pool = λ b' u. ground (arith, v.in_pool b');
    free_clean = λ b' c. ground (arith, v.free_clean b', v.placed b, held_entry);
    cached_hashed = λ b' c.
        ground (arith, v.cached_hashed b', v.placed b, held_entry, count-append b' kv.lru (b ∷ []));
    unshared = λ b' u. ground (arith, v.unshared b', v.unshared b);
  }

  pub release_block-ok : release_block kv b h ≡ ok (drop_reference kv b h)
  unfolding release_block
  release_block-ok = ground (arith, held_entry)

-- It fails on an empty pool only.
pub take_block-none : (kv : KvCacheManager) → take_block kv ≡ none → num_available_blocks kv ≡ 0
take_block-none kv e = elim (dec_lt 0 (num_available_blocks kv)) [
  | yes h ↦ let (b, kv', got) = take_block-some kv h in absurd (let p = sym got ∙ e in cc)
  | no h ↦ omega arith
]

pub SamePool-refl : (kv : KvCacheManager) → SamePool kv kv
SamePool-refl kv = record { num_blocks = refl; block_size = refl; prefix_caching = refl }

pub SamePool-trans : {j k l : KvCacheManager} → SamePool j k → SamePool k l → SamePool j l
SamePool-trans p q = record {
  num_blocks = q.num_blocks ∙ p.num_blocks;
  block_size = q.block_size ∙ p.block_size;
  prefix_caching = q.prefix_caching ∙ p.prefix_caching;
}

pub drop_reference-SamePool : (kv : KvCacheManager) (b h : ℕ) → SamePool kv (drop_reference kv b h)
unfolding drop_reference
drop_reference-SamePool kv b h = ground arith

-- A block that one table holds unhashed can be published under a new hash.
pub publish-Inv :
    (kv : KvCacheManager) (claims : ℕ → ℕ → ℕ) (b h : ℕ)
    → Inv kv (λ b' h'. one b 0 b' h' + claims b' h')
    → kv.hash_to_block h ≡ none
    → h ≢ 0
    → Inv
        (record kv {
          hash_to_block = update kv.hash_to_block h (some b);
          block_hash = update kv.block_hash b h;
        })
        (λ b' h'. one b h b' h' + claims b' h')
publish-Inv kv claims b h v e ne =
    let (clean, used) = held_entry claims b 0 v in
    record {
      held = λ b' h'. ground (arith, v.held b' h', v.held b 0, v.unshared b);
      placed = v.placed;
      indexed = λ h' b' e'. ground (arith, v.indexed h' b');
      published = λ b' u. ground (arith, v.published b');
      in_pool = λ b' u. ground (arith, v.in_pool b', v.placed b);
      free_clean = λ b' c. ground (arith, v.free_clean b', v.placed b);
      cached_hashed = λ b' c. ground (arith, v.cached_hashed b');
      unshared = λ b' u. ground (arith, v.unshared b');
    }
