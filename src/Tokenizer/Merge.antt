-- ===== src/Tokenizer/Merge.antt =====
-- src/tokenizer/tokenizer.cpp, `bpe_merge`: the lowest-ranked adjacent merge, again and again.
use llm_engine.Base.{
  ℕ, zero, suc, List, [], ◌∷◌, ◌++◌, Option, none, some, if◌then◌else◌, ltb, ◌==◌, ◌&&◌, ◌≡◌, ◌<◌,
  length,
}

pub record Merge : Type 0 where
  pub rank : ℕ
  pub id : ℕ

-- `merges_`
abbrev pub Merges : Type 0
Merges = ℕ → ℕ → Option Merge

-- `best_rank`, `merged_id`, `ids[best_i]` and `ids[best_i + 1]`.
pub record Best : Type 0 where
  pub rank : ℕ
  pub id : ℕ
  pub left : ℕ
  pub right : ℕ

-- `INT32_MAX`
abbrev pub int32_max : ℕ
int32_max = 2147483647

abbrev pub no_merge : Best
no_merge = record { rank = int32_max; id = 0; left = 0; right = 0 }

unfoldable pub better : Merges → ℕ → ℕ → Best → Best
better m x y b = elim (m x y) [
  | none ↦ b
  | some g ↦
      if ltb g.rank b.rank then record { rank = g.rank; id = g.id; left = x; right = y } else b
]

unfoldable pub find_best : Merges → List ℕ → Best → Best
find_best m [] b = b
find_best m (x ∷ []) b = b
find_best m (x ∷ y ∷ ids) b = find_best m (y ∷ ids) (better m x y b)

-- Every occurrence of the pair, left to right.
unfoldable pub apply_merge : ℕ → ℕ → ℕ → List ℕ → List ℕ
apply_merge a b id [] = []
apply_merge a b id (x ∷ []) = x ∷ []
apply_merge a b id (x ∷ y ∷ ids) =
    let merged = apply_merge a b id ids in
    let kept = apply_merge a b id (y ∷ ids) in if x == a && y == b then id ∷ merged else x ∷ kept

unfoldable pub merge_rounds : ℕ → Merges → List ℕ → List ℕ
merge_rounds zero m ids = ids
merge_rounds (suc fuel) m ids =
    let best = find_best m ids no_merge in
    let rest = merge_rounds fuel m (apply_merge best.left best.right best.id ids) in
    if ltb (length ids) 2 then ids else if best.rank == int32_max then ids else rest

unfoldable pub bpe_merge : Merges → List ℕ → List ℕ
bpe_merge m ids = merge_rounds (length ids) m ids

-- What the constructor of the tokenizer makes sure of: ranks count the merges, and a merged token is
-- spelled as its two parts.
pub record IsMerges (m : Merges) (spell : ℕ → List ℕ) : Type 0 where
  pub ranked : (x y : ℕ) (g : Merge) → m x y ≡ some g → g.rank < int32_max
  pub spelled : (x y : ℕ) (g : Merge) → m x y ≡ some g → spell g.id ≡ spell x ++ spell y
