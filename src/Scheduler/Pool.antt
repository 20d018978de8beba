-- ===== src/Scheduler/Pool.antt =====
-- The block tables of all sequences of src/scheduler/scheduler.cpp, and the pool behind them.
use llm_engine.Base.{
  ℕ, ◌+◌, ◌≤◌, ◌<◌, ◌≡◌, refl, sym, subst, ◌∙◌, List, [], ◌∷◌, inl, inr, ok, if◌then◌else◌, ◌==◌,
  update, count, arith, Bool-cases,
}
use llm_engine.KvCache.{
  KvCacheManager, empty_table, Inv, Inv-cong, IsTable, table_entries, SamePool, SamePool-refl, Owns,
  free-Freed, empty-Owns,
}
use llm_engine.Sequence.{Sequence}
use llm_engine.Scheduler.Defs.{Scheduler, put_table, free_table}

-- The entries of the tables of all live sequences.
unfoldable pub tables_of : List ℕ → (ℕ → Sequence) → ℕ → ℕ → ℕ
tables_of [] seqs b h = 0
tables_of (p ∷ ps) seqs b h = table_entries (seqs p).block_table b h + tables_of ps seqs b h

-- Those of all but one.
pub others : ℕ → List ℕ → (ℕ → Sequence) → ℕ → ℕ → ℕ
others q [] seqs b h = 0
others q (p ∷ ps) seqs b h =
    (if p == q then 0 else table_entries (seqs p).block_table b h) + others q ps seqs b h

abbrev pub Known : List ℕ → ℕ → Type 0
Known live p = 0 < count p live

-- The pool's accounting is exact for the tables of the live sequences, each of which is sound.
pub record IsPool (live : List ℕ) (kv : KvCacheManager) (seqs : ℕ → Sequence) : Type 0 where
  pub inv : Inv kv (tables_of live seqs)
  pub tables : (p : ℕ) → Known live p → IsTable (seqs p).block_table
  pub sized : 0 < kv.block_size
  pub unique : (p : ℕ) → count p live ≤ 1

tables_of-absent :
    (q : ℕ) (live : List ℕ) (seqs : ℕ → Sequence) (x : Sequence)
    → count q live ≡ 0
    → (b h : ℕ)
    → (tables_of live seqs b h ≡ others q live seqs b h)
      × (tables_of live (update seqs q x) b h ≡ others q live seqs b h)
unfolding tables_of others
tables_of-absent q [] seqs x e b h = (refl, refl)
tables_of-absent q (p ∷ ps) seqs x e b h =
    ground (arith, tables_of-absent q ps seqs x (ground arith) b h)

tables_of-split :
    (q : ℕ) (live : List ℕ) (seqs : ℕ → Sequence) (x : Sequence)
    → count q live ≡ 1
    → (b h : ℕ)
    → (tables_of live seqs b h ≡ table_entries (seqs q).block_table b h + others q live seqs b h)
      × (tables_of live (update seqs q x) b h
          ≡ table_entries x.block_table b h + others q live seqs b h)
unfolding tables_of others
tables_of-split q [] seqs x e b h = absurd (omega arith)
tables_of-split q (p ∷ ps) seqs x e b h = elim (Bool-cases (p == q)) [
  | inl hit ↦ ground (arith, tables_of-absent q ps seqs x (ground arith) b h)
  | inr miss ↦ ground (arith, tables_of-split q ps seqs x (ground arith) b h)
]

module _ {live : List ℕ} {kv : KvCacheManager} {seqs : ℕ → Sequence} (h : IsPool live kv seqs)
    (p : ℕ) (known : Known live p) where
  -- One live sequence and the rest.
  pub IsPool-at : Owns (others p live seqs) kv (seqs p).block_table
  IsPool-at = record {
    inv =
        Inv-cong _ _
          (λ b h'. (tables_of-split p live seqs (seqs p) (omega (arith, h.unique p)) b h').0) h.inv;
    table = h.tables p known;
  }

  -- A write to one live sequence and to the pool.
  pub IsPool-put :
      (kv' : KvCacheManager) (q : Sequence)
      → Owns (others p live seqs) kv' q.block_table
      → SamePool kv kv'
      → IsPool live kv' (update seqs p q)
  IsPool-put kv' q o same = record {
    inv =
        Inv-cong _ _
          (λ b h'. sym (tables_of-split p live seqs q (omega (arith, h.unique p)) b h').1) o.inv;
    tables = λ r k. elim (Bool-cases (r == p)) [
      | inl hit ↦ rw hit o.table
      | inr miss ↦ rw miss (h.tables r k)
    ];
    sized = omega (arith, same.block_size, h.sized);
    unique = h.unique;
  }

  -- A write that leaves the table alone.
  pub IsPool-same :
      (q : Sequence) → q.block_table ≡ (seqs p).block_table → IsPool live kv (update seqs p q)
  IsPool-same q e =
      IsPool-put kv q (subst (Owns (others p live seqs) kv) (sym e) IsPool-at) (SamePool-refl kv)

tables_of-cong :
    (live : List ℕ) (seqs seqs' : ℕ → Sequence)
    → ((p : ℕ) → (seqs' p).block_table ≡ (seqs p).block_table)
    → (b h : ℕ) → tables_of live seqs b h ≡ tables_of live seqs' b h
unfolding tables_of
tables_of-cong [] seqs seqs' e b h = refl
tables_of-cong (p ∷ ps) seqs seqs' e b h =
    rw (e p) (omega (arith, tables_of-cong ps seqs seqs' e b h))

-- A write to a sequence outside changes no table.
pub tables_of-update :
    (q : ℕ) (live : List ℕ) (seqs : ℕ → Sequence) (x : Sequence)
    → count q live ≡ 0
    → (b h : ℕ) → tables_of live (update seqs q x) b h ≡ tables_of live seqs b h
tables_of-update q live seqs x e b h =
    let (a, c) = tables_of-absent q live seqs x e b h in c ∙ sym a

-- Only the tables matter.
pub IsPool-cong :
    {live : List ℕ} {kv : KvCacheManager} {seqs seqs' : ℕ → Sequence}
    → IsPool live kv seqs
    → ((p : ℕ) → (seqs' p).block_table ≡ (seqs p).block_table)
    → IsPool live kv seqs'
IsPool-cong {live} h e = record {
  inv = Inv-cong _ _ (tables_of-cong live _ _ e) h.inv;
  tables = λ p k. rw (e p) (h.tables p k);
  sized = h.sized;
  unique = h.unique;
}

-- `kv_.free` succeeds on the table of a live sequence, and leaves it empty.
pub free_table-ok :
    (live : List ℕ) (s : Scheduler) (p : ℕ)
    → IsPool live s.kv s.seqs
    → Known live p
    → (kv : KvCacheManager) × (free_table s p ≡ ok (put_table s p kv empty_table))
      × IsPool live kv (update s.seqs p (record (s.seqs p) { block_table = empty_table }))
      × SamePool s.kv kv
unfolding free_table
free_table-ok live s p h k =
    let (kv, done, v, same) = free-Freed _ s.kv (s.seqs p).block_table (IsPool-at h p k) in
    (kv, rw done, IsPool-put h p k kv _ (empty-Owns _ kv v) same, same)
