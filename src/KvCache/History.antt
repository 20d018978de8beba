-- ===== src/KvCache/History.antt =====
-- Histories of the block pool of src/kv_cache/block_allocator.cpp: many sequences, each with its
-- block table, in any interleaving.
use mathlib.Core.Option.{some-injective}
use llm_engine.Base.{
  ℕ, zero, suc, ◌+◌, ◌≤◌, ◌<◌, ◌≡◌, refl, sym, subst, ◌∙◌, inl, inr, List, [], ◌∷◌, none, some,
  arith, length, get_elem?, set, All, Checked, ok, ◌>>=◌, Option-cases,
}
use llm_engine.KvCache.Defs.{KvCacheManager, BlockTable, empty_table, blocks_needed}
use llm_engine.KvCache.Alloc.{allocate_prompt, ensure_slot, commit_computed, free}
use llm_engine.KvCache.Accounting.{Inv, Inv-cong, IsTable, table_entries}
use llm_engine.KvCache.Blocks.{SamePool}
use llm_engine.KvCache.Laws.{Owns, allocate_prompt_cases}
use llm_engine.KvCache.Empty.{empty_table-eq, empty_table-IsTable, empty-Owns, Owns-empty}
use llm_engine.KvCache.Owned.{ensure_slot-Ensured, commit_computed-Committed, free-Freed}

-- The pool, and the tables of the sequences that arrived so far.
pub record System : Type 0 where
  pub kv : KvCacheManager
  pub tables : List BlockTable

-- The calls of a client; a number names a sequence in the order of `tables`.
pub data Op : Type 0 where
  arrive : Op
  prompt : ℕ → List ℕ → Op
  grow : ℕ → ℕ → Op
  commit : ℕ → List ℕ → ℕ → Op
  release : ℕ → Op

abbrev put : System → ℕ → KvCacheManager → BlockTable → System
put s k kv bt = record { kv = kv; tables = set s.tables k bt }

-- A call on the table of sequence `k`.
call : System → ℕ → BlockTable → Op → Checked System
call s k bt arrive = ok s
call s k bt (prompt _ tokens) = do
  (_, kv, bt') ← allocate_prompt s.kv bt tokens
  ok (put s k kv bt')
call s k bt (grow _ n) = do (_, kv, bt') ← ensure_slot s.kv bt n; ok (put s k kv bt')
call s k bt (commit _ tokens n) = do
  (kv, bt') ← commit_computed s.kv bt tokens n
  ok (put s k kv bt')
call s k bt (release _) = do (kv, bt') ← free s.kv bt; ok (put s k kv bt')

-- A sequence that did not arrive makes no call.
abbrev on_table : System → ℕ → Op → Checked System
on_table s k op = elim (get_elem? s.tables k) [ none ↦ ok s | some bt ↦ call s k bt op ]

unfoldable pub step : System → Op → Checked System
unfolding call
step s arrive = ok (record s { tables = empty_table ∷ s.tables })
step s (prompt k tokens) = on_table s k (prompt k tokens)
step s (grow k n) = on_table s k (grow k n)
step s (commit k tokens n) = on_table s k (commit k tokens n)
step s (release k) = on_table s k (release k)

-- What the client keeps to, per call: a prompt is allocated on an empty table, a table grows by one
-- block at most, and no more tokens are committed than there are.
abbrev Keeps : BlockTable → ℕ → Op → Type 0
Keeps bt bs (prompt k tokens) = bt.blocks ≡ []
Keeps bt bs (grow k n) = blocks_needed n bs ≤ length bt.blocks + 1
Keeps bt bs (commit k tokens n) = n ≤ length tokens
Keeps bt bs _ = Unit

abbrev target : Op → ℕ
target (prompt k tokens) = k
target (grow k n) = k
target (commit k tokens n) = k
target (release k) = k
target arrive = 0

abbrev pub Allowed : System → Op → Type 0
Allowed s op =
    (bt : BlockTable) → get_elem? s.tables (target op) ≡ some bt → Keeps bt s.kv.block_size op

-- The entries of all tables.
unfoldable pub all_entries : List BlockTable → ℕ → ℕ → ℕ
all_entries [] b h = 0
all_entries (bt ∷ tables) b h = table_entries bt b h + all_entries tables b h

-- The pool's accounting is exact for the tables at hand.
pub record IsSound (s : System) : Type 0 where
  pub inv : Inv s.kv (all_entries s.tables)
  pub tables : All IsTable s.tables
  pub sized : 0 < s.kv.block_size

-- The entries of all tables but one.
others : ℕ → List BlockTable → ℕ → ℕ → ℕ
others k [] b h = 0
others zero (bt ∷ tables) b h = all_entries tables b h
others (suc k) (bt ∷ tables) b h = table_entries bt b h + others k tables b h

all_entries-split :
    (k : ℕ) (tables : List BlockTable) (bt : BlockTable)
    → get_elem? tables k ≡ some bt
    → (b h : ℕ) → all_entries tables b h ≡ table_entries bt b h + others k tables b h
unfolding all_entries others
all_entries-split k [] bt e b h = cc
all_entries-split zero (x ∷ tables) bt e b h = ground arith
all_entries-split (suc k) (x ∷ tables) bt e b h = omega (arith, all_entries-split k tables bt e b h)

all_entries-set :
    (k : ℕ) (tables : List BlockTable) (bt bt' : BlockTable)
    → get_elem? tables k ≡ some bt
    → (b h : ℕ) → table_entries bt' b h + others k tables b h ≡ all_entries (set tables k bt') b h
unfolding all_entries others
all_entries-set k [] bt bt' e b h = cc
all_entries-set zero (x ∷ tables) bt bt' e b h = refl
all_entries-set (suc k) (x ∷ tables) bt bt' e b h =
    omega (arith, all_entries-set k tables bt bt' e b h)

All-get :
    (k : ℕ) (tables : List BlockTable) (bt : BlockTable)
    → get_elem? tables k ≡ some bt
    → All IsTable tables
    → IsTable bt
All-get k [] bt e a = cc
All-get zero (x ∷ tables) bt e a = subst IsTable (some-injective x bt e) a.0
All-get (suc k) (x ∷ tables) bt e a = All-get k tables bt e a.1

All-set :
    (k : ℕ) (tables : List BlockTable) (bt : BlockTable)
    → IsTable bt
    → All IsTable tables
    → All IsTable (set tables k bt)
All-set k [] bt t a = tt
All-set zero (x ∷ tables) bt t a = (t, a.1)
All-set (suc k) (x ∷ tables) bt t a = (a.0, All-set k tables bt t a.1)

-- After a call on table `k` that left the pool sound beside the other tables.
put-IsSound :
    (s : System) (k : ℕ) (bt bt' : BlockTable) (kv : KvCacheManager)
    → IsSound s
    → get_elem? s.tables k ≡ some bt
    → Owns (others k s.tables) kv bt'
    → SamePool s.kv kv
    → IsSound (put s k kv bt')
put-IsSound s k bt bt' kv h e o same = record {
  inv = Inv-cong _ _ (all_entries-set k s.tables bt bt' e) o.inv;
  tables = All-set k s.tables bt' o.table h.tables;
  sized = omega (arith, same.block_size, h.sized);
}

at :
    (s : System) (k : ℕ) (bt : BlockTable)
    → IsSound s
    → get_elem? s.tables k ≡ some bt
    → Owns (others k s.tables) s.kv bt
at s k bt h e = record {
  inv = Inv-cong _ _ (all_entries-split k s.tables bt e) h.inv;
  table = All-get k s.tables bt e h.tables;
}

ok-injective : (s t : System) → ok s ≡ ok t → s ≡ t
ok-injective s t e = cc

abbrev pub Sounds : Checked System → Type 0
Sounds r = (s : System) × (r ≡ ok s) × IsSound s

module _ (s : System) (h : IsSound s) (k : ℕ) (bt : BlockTable)
    (e : get_elem? s.tables k ≡ some bt) where
  call-Sounds : (op : Op) → Keeps bt s.kv.block_size op → Sounds (call s k bt op)
  unfolding call
  call-Sounds arrive keep = (s, refl, h)
  call-Sounds (prompt k' tokens) keep =
      let c = others k s.tables in
      let o = at s k bt h e in
      let empty = empty_table-eq bt o.table keep in
      let v = Owns-empty c s.kv (subst (Owns c s.kv) empty o) in
      elim (allocate_prompt_cases c s.kv v tokens h.sized) [
        | inl (kv, bt', done, o', same, _) ↦
            (put s k kv bt', rw (empty, done), put-IsSound s k bt bt' kv h e o' same)
        | inr (kv, done, v', same, _, _) ↦ (
          put s k kv empty_table,
          rw (empty, done),
          put-IsSound s k bt empty_table kv h e (empty-Owns c kv v') same,
        )
      ]
  call-Sounds (grow k' n) keep =
      let (grown, kv, bt', done, o, same, _) =
        ensure_slot-Ensured _ s.kv bt (at s k bt h e) n keep in
      (put s k kv bt', rw done, put-IsSound s k bt bt' kv h e o same)
  call-Sounds (commit k' tokens n) keep =
      let (kv, bt', done, o, same, _, _) =
        commit_computed-Committed _ s.kv bt (at s k bt h e) tokens n keep in
      (put s k kv bt', rw done, put-IsSound s k bt bt' kv h e o same)
  call-Sounds (release k') keep =
      let (kv, done, v, same) = free-Freed _ s.kv bt (at s k bt h e) in
      (
        put s k kv empty_table,
        rw done,
        put-IsSound s k bt empty_table kv h e (empty-Owns _ kv v) same,
      )

on_table-Sounds :
    (s : System) (h : IsSound s) (op : Op) → Allowed s op → Sounds (on_table s (target op) op)
on_table-Sounds s h op allow = elim (Option-cases (get_elem? s.tables (target op))) [
  | inl e ↦ (s, rw (e, on_table), h)
  | inr (bt, e) ↦ rw (e, on_table) (call-Sounds s h (target op) bt e op (allow bt e))
]

-- In a sound system of block tables over one pool, every allowed call of the cache manager ends
-- without a failed assertion and leaves a sound system. Allowed means: a prompt is allocated on a
-- table with no block, a table grows by one block at most, and no more tokens are committed than
-- there are. Sound means that references are counted exactly, each block is free, cached or
-- referenced, and only published blocks are shared.
pub step-IsSound : (s : System) (op : Op) → IsSound s → Allowed s op → Sounds (step s op)
unfolding step all_entries
step-IsSound s arrive h allow = (
  record s { tables = empty_table ∷ s.tables },
  refl,
  record {
    inv = (empty-Owns (all_entries s.tables) s.kv h.inv).inv;
    tables = (empty_table-IsTable, h.tables);
    sized = h.sized;
  },
)
step-IsSound s (prompt k tokens) h allow = on_table-Sounds s h (prompt k tokens) allow
step-IsSound s (grow k n) h allow = on_table-Sounds s h (grow k n) allow
step-IsSound s (commit k tokens n) h allow = on_table-Sounds s h (commit k tokens n) allow
step-IsSound s (release k) h allow = on_table-Sounds s h (release k) allow

-- Histories of allowed calls.
pub data Reach (s : System) : System → Type 0 where
  here : Reach s s
  next : {t u : System} → Reach s t → (op : Op) → Allowed t op → step t op ≡ ok u → Reach s u

-- Every history of allowed calls that starts in a sound system of block tables leads to a sound one.
pub Reach-IsSound : {s t : System} → IsSound s → Reach s t → IsSound t
Reach-IsSound h here = h
Reach-IsSound h (next {t} {u} r op allow e) =
    let (u', e', sound) = step-IsSound t op (Reach-IsSound h r) allow in
    subst IsSound (ok-injective u' u (sym e' ∙ e)) sound
