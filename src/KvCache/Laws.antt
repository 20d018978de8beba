-- ===== src/KvCache/Laws.antt =====
-- src/kv_cache/block_allocator.cpp: the operations on one table, beside the claims of all others.
use native.Mathlib.Nat.{le-div_iff_mul-le, div-mul-le_self}
use llm_engine.Base.{
  ℕ, zero, suc, ◌+◌, ◌-◌, ◌/◌, ◌≤◌, ◌<◌, ◌≡◌, refl, ◌∙◌, ◌⊎◌, inl, inr, List, [], ◌∷◌, ◌++◌, none,
  some, arith, true, false, length, get_or, ok, Bool-cases, Option-cases,
}
use llm_engine.KvCache.Defs.{
  KvCacheManager, BlockTable, empty_table, take_block, num_available_blocks, blocks_needed,
  hash_block, block_tokens,
}
use llm_engine.KvCache.Alloc.{
  claim, count_idle, push_block, share_hits, take_fresh, count_query, count_failure, count_cached,
  prefix_hits, lookup_cached_prefix, count_hits, lacks_room, fill_table, allocate_prompt,
}
use llm_engine.KvCache.Accounting.{Inv, Inv-cong, IsTable, entries, table_entries}
use llm_engine.KvCache.Blocks.{SamePool, SamePool-trans}
use llm_engine.KvCache.Tables.{Grows, take_fresh-Grows}
use llm_engine.KvCache.Share.{
  AllPublished, prefix_hits-AllPublished, length-prefix_hits, share_hits-Grows,
}

-- One table of a sound pool; `claims` stands for the tables of all other sequences.
pub record Owns (claims : ℕ → ℕ → ℕ) (kv : KvCacheManager) (bt : BlockTable) : Type 0 where
  pub inv : Inv kv (λ b h. table_entries bt b h + claims b h)
  pub table : IsTable bt

get_or-past : (hs : List ℕ) (i : ℕ) → length hs ≤ i → get_or hs i 0 ≡ 0
get_or-past [] i h = refl
get_or-past (x ∷ hs) zero h = absurd (omega arith)
get_or-past (x ∷ hs) (suc i) h = get_or-past hs i (omega arith)

pub get_or-push_zero : (hs : List ℕ) (i : ℕ) → get_or (hs ++ (0 ∷ [])) i 0 ≡ get_or hs i 0
get_or-push_zero [] zero = refl
get_or-push_zero [] (suc i) = refl
get_or-push_zero (x ∷ hs) zero = refl
get_or-push_zero (x ∷ hs) (suc i) = get_or-push_zero hs i

-- Fresh blocks are unhashed.
take_fresh-hashes :
    (n : ℕ) (kv : KvCacheManager) (bt : BlockTable) (kv' : KvCacheManager) (bt' : BlockTable)
    → take_fresh n kv bt ≡ ok (kv', bt')
    → (i : ℕ) → get_or bt'.hashes i 0 ≡ get_or bt.hashes i 0
unfolding take_fresh
take_fresh-hashes zero kv bt kv' bt' e i = ground arith
take_fresh-hashes (suc n) kv bt kv' bt' e i = elim (Option-cases (take_block kv)) [
  | inl out ↦ absurd (let f = rw (out, take_fresh) at e in cc)
  | inr ((b, mid), got) ↦
      take_fresh-hashes n (claim mid b) (push_block bt b 0) kv' bt' (rw (got, take_fresh) at e) i
      ∙ get_or-push_zero bt.hashes i
]

-- The query counters are no part of the accounting.
Inv-count_query :
    (kv : KvCacheManager) (claims : ℕ → ℕ → ℕ) (n : ℕ)
    → Inv kv claims
    → Inv (count_query kv n) claims
Inv-count_query kv claims n v = record {
  held = v.held;
  placed = v.placed;
  indexed = v.indexed;
  published = v.published;
  in_pool = v.in_pool;
  free_clean = v.free_clean;
  cached_hashed = v.cached_hashed;
  unshared = v.unshared;
}

pub Inv-count_failure :
    (kv : KvCacheManager) (claims : ℕ → ℕ → ℕ) → Inv kv claims → Inv (count_failure kv) claims
Inv-count_failure kv claims v = record {
  held = v.held;
  placed = v.placed;
  indexed = v.indexed;
  published = v.published;
  in_pool = v.in_pool;
  free_clean = v.free_clean;
  cached_hashed = v.cached_hashed;
  unshared = v.unshared;
}

Grows-count_cached :
    (kv : KvCacheManager) (claims : ℕ → ℕ → ℕ) (bt : BlockTable) (n : ℕ)
    → Grows kv claims bt
    → Grows (count_cached kv n) claims bt
Grows-count_cached kv claims bt n g =
    let v = g.inv in
    record {
      inv = record {
        held = v.held;
        placed = v.placed;
        indexed = v.indexed;
        published = v.published;
        in_pool = v.in_pool;
        free_clean = v.free_clean;
        cached_hashed = v.cached_hashed;
        unshared = v.unshared;
      };
      parallel = g.parallel;
    }

blocks_needed-ge_full : (n bs : ℕ) → 0 < bs → n / bs ≤ blocks_needed n bs
unfolding blocks_needed
blocks_needed-ge_full n bs h = (le-div_iff_mul-le h).1 (omega (arith, div-mul-le_self n bs))

count_idle-le : (kv : KvCacheManager) (hits : List (ℕ × ℕ)) → count_idle kv hits ≤ length hits
unfolding count_idle
count_idle-le kv [] = omega arith
count_idle-le kv ((h, b) ∷ hits) = ground (arith, count_idle-le kv hits)

-- An allocation is refused only where the pool has fewer blocks to spare than the prompt needs.
lacks_room-lt :
    (kv : KvCacheManager) (hits : List (ℕ × ℕ)) (needed : ℕ)
    → lacks_room kv hits needed ≡ true
    → num_available_blocks kv < needed
unfolding lacks_room
lacks_room-lt kv hits needed e = ground (arith, count_idle-le kv hits)

count_hits-count_query :
    (kv : KvCacheManager) (n rounds i prev : ℕ) (tokens : List ℕ)
    → count_hits (count_query kv n) rounds i prev tokens ≡ count_hits kv rounds i prev tokens
unfolding count_hits
count_hits-count_query kv n zero i prev tokens = refl
count_hits-count_query kv n (suc rounds) i prev tokens =
    let h = hash_block prev (block_tokens kv i tokens) in
    ground (arith, count_hits-count_query kv n rounds (i + 1) h tokens)

lookup-count_query :
    (kv : KvCacheManager) (n : ℕ) (tokens : List ℕ)
    → lookup_cached_prefix (count_query kv n) tokens ≡ lookup_cached_prefix kv tokens
unfolding lookup_cached_prefix
lookup-count_query kv n tokens = rw (count_hits-count_query kv n _ 0 0 tokens)

module _ (claims : ℕ → ℕ → ℕ) (kv : KvCacheManager) (v : Inv kv claims) where
  fill_table-Owns :
      (hits : List (ℕ × ℕ)) (needed : ℕ)
      → AllPublished kv hits
      → length hits ≤ needed
      → lacks_room kv hits needed ≡ false
      → (kv' : KvCacheManager) × (bt' : BlockTable) × (fill_table hits needed kv empty_table
          ≡ ok (kv', bt'))
        × Owns claims kv' (record bt' { num_committed = length hits })
        × SamePool kv kv'
        × (length bt'.blocks ≡ needed)
  unfolding fill_table lacks_room entries
  fill_table-Owns hits needed a le room =
      let start : Grows kv claims empty_table = record {
        inv = Inv-cong _ _ (λ b h. omega arith) v;
        parallel = refl;
      } in
      let (g, same, left, len) = share_hits-Grows hits kv claims empty_table start a in
      let s = share_hits hits kv empty_table in
      let counted = Grows-count_cached s.0 claims s.1 (length hits) g in
      let (kv', bt', done, g', same', _, len') =
        take_fresh-Grows (needed - length hits) _ claims s.1 counted (ground (arith, left)) in
      (
        kv',
        bt',
        done,
        record {
          inv = g'.inv;
          table = record {
            parallel = g'.parallel;
            committed = omega (arith, len, len');
            unhashed = λ i past.
                take_fresh-hashes _ _ s.1 kv' bt' done i
                ∙ get_or-past s.1.hashes i (omega (arith, g.parallel, len));
          };
        },
        SamePool-trans same (
            SamePool-trans (record { num_blocks = refl; block_size = refl; prefix_caching = refl })
              same'),
        omega (arith, len, len'),
      )

module _ (claims : ℕ → ℕ → ℕ) (kv : KvCacheManager) (v : Inv kv claims) where
  -- The outcomes of `allocate_prompt` on a fresh sequence: the table, or a pool as it was.
  abbrev pub Fits : List ℕ → Type 0
  Fits tokens =
      (kv' : KvCacheManager) × (bt' : BlockTable) × (allocate_prompt kv empty_table tokens
        ≡ ok (some (lookup_cached_prefix kv tokens), kv', bt'))
      × Owns claims kv' bt'
      × SamePool kv kv'
      × (length bt'.blocks ≡ blocks_needed (length tokens) kv.block_size)

  abbrev pub Refused : List ℕ → Type 0
  Refused tokens =
      (kv' : KvCacheManager) × (allocate_prompt kv empty_table tokens ≡ ok (none, kv', empty_table))
      × Inv kv' claims
      × SamePool kv kv'
      × (num_available_blocks kv' ≡ num_available_blocks kv)
      × (num_available_blocks kv < blocks_needed (length tokens) kv.block_size)

  -- On an empty table, with a pool that is exact for the other tables and a positive block size,
  -- `allocate_prompt` either returns what `lookup_cached_prefix` counts, with a table of just the
  -- blocks that the prompt needs and a pool that is exact for it; or it refuses, with an empty table
  -- and as many available blocks as before, and then the pool had fewer available blocks than the
  -- prompt needs. No assertion fails.
  pub allocate_prompt_cases : (tokens : List ℕ) → 0 < kv.block_size → Fits tokens ⊎ Refused tokens
  unfolding allocate_prompt
  allocate_prompt_cases tokens pos =
      let full = length tokens / kv.block_size in
      let needed = blocks_needed (length tokens) kv.block_size in
      let queried = count_query kv full in
      let hits = prefix_hits queried tokens in
      let w = Inv-count_query kv claims full v in
      let (found, short) = length-prefix_hits queried tokens in
      elim (Bool-cases (lacks_room queried hits needed)) [
        | inl lacks ↦ inr (
          count_failure queried,
          rw (lacks, allocate_prompt),
          Inv-count_failure queried claims w,
          record { num_blocks = refl; block_size = refl; prefix_caching = refl },
          refl,
          lacks_room-lt queried hits needed lacks,
        )
        | inr room ↦
            let (kv', bt', done, owns, same, len) =
              fill_table-Owns claims queried w hits needed (prefix_hits-AllPublished queried tokens)
                (omega (arith, short, blocks_needed-ge_full (length tokens) kv.block_size pos))
                room in
            inl (
              kv',
              record bt' { num_committed = length hits },
              rw (room, done, allocate_prompt, ← lookup-count_query kv full tokens, ← found),
              owns,
              SamePool-trans
                  (record { num_blocks = refl; block_size = refl; prefix_caching = refl }) same,
              len,
            )
      ]
