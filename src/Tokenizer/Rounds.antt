-- ===== src/Tokenizer/Rounds.antt =====
-- src/tokenizer/tokenizer.cpp, `bpe_merge`: lemmas on the search for the best pair.
use llm_engine.Base.{
  ℕ, ◌≤◌, ◌<◌, ◌≡◌, refl, sym, ap, subst, ◌∙◌, ◌⊎◌, Bool, true, false, List, [], ◌∷◌, ◌++◌, Option,
  none, some, ltb, ◌==◌, ◌&&◌, ◌||◌, arith, Bool-cases, Option-cases, inl, inr,
}
use llm_engine.Tokenizer.Merge.{Merge, Merges, Best, int32_max, better, find_best, IsMerges}

-- The text of a list of tokens.
unfoldable pub text_of : (ℕ → List ℕ) → List ℕ → List ℕ
text_of spell [] = []
text_of spell (x ∷ ids) = spell x ++ text_of spell ids

abbrev pub is_some : Option Merge → Bool
is_some none = false
is_some (some g) = true

-- Whether some adjacent pair has a merge.
unfoldable pub can_merge : Merges → List ℕ → Bool
can_merge m [] = false
can_merge m (x ∷ []) = false
can_merge m (x ∷ y ∷ ids) = is_some (m x y) || can_merge m (y ∷ ids)

unfoldable pub occurs : ℕ → ℕ → List ℕ → Bool
occurs a b [] = false
occurs a b (x ∷ []) = false
occurs a b (x ∷ y ∷ ids) = (x == a && y == b) || occurs a b (y ∷ ids)

pub append_assoc : (xs ys zs : List ℕ) → (xs ++ ys) ++ zs ≡ xs ++ (ys ++ zs)
append_assoc [] ys zs = refl
append_assoc (x ∷ xs) ys zs = ap (λ l. x ∷ l) (append_assoc xs ys zs)

-- The best pair so far is the one before, or one that occurs, with its merge and a lower rank.
abbrev pub Picked : Merges → List ℕ → Best → Best → Type 0
Picked m ids old b =
    (b ≡ old)
    ⊎ ((occurs b.left b.right ids ≡ true)
        × (m b.left b.right ≡ some (record { rank = b.rank; id = b.id }))
        × (b.rank < old.rank))

-- One pair: it is not better, or it is the new best.
abbrev Bettered : Merges → ℕ → ℕ → Best → Best → Type 0
Bettered m x y b n =
    (n ≡ b)
    ⊎ ((n.left ≡ x)
        × (n.right ≡ y)
        × (m x y ≡ some (record { rank = n.rank; id = n.id }))
        × (n.rank < b.rank))

better-Bettered : (m : Merges) (x y : ℕ) (b : Best) → Bettered m x y b (better m x y b)
unfolding better
better-Bettered m x y b = elim (Option-cases (m x y)) [
  | inl no_pair ↦ inl (rw (no_pair, better))
  | inr (g, pair) ↦ elim (Bool-cases (ltb g.rank b.rank)) [
    | inr worse ↦ inl (rw (pair, better, worse))
    | inl lower ↦ inr (rw (pair, better, lower) (refl, refl, refl, ground arith))
  ]
]

first_occurs : (a b x y : ℕ) (ids : List ℕ) → a ≡ x → b ≡ y → occurs a b (x ∷ y ∷ ids) ≡ true
unfolding occurs
first_occurs a b x y ids e f = ground arith

later_occurs :
    (a b x y : ℕ) (ids : List ℕ) → occurs a b (y ∷ ids) ≡ true → occurs a b (x ∷ y ∷ ids) ≡ true
unfolding occurs
later_occurs a b x y ids e = ground arith

Picked-step :
    (m : Merges) (x y : ℕ) (ids : List ℕ) (b n r : Best)
    → Bettered m x y b n
    → Picked m (y ∷ ids) n r
    → Picked m (x ∷ y ∷ ids) b r
Picked-step m x y ids b n r (inl kept) (inl same) = inl (same ∙ kept)
Picked-step m x y ids b n r (inl kept) (inr (o, e, l)) =
    inr (later_occurs r.left r.right x y ids o, e, subst (λ k. r.rank < k.rank) kept l)
Picked-step m x y ids b n r (inr (p, q, e, l)) (inl same) =
    subst (Picked m (x ∷ y ∷ ids) b) (sym same)
      (inr (first_occurs n.left n.right x y ids p q, ap (λ k. m k n.right) p ∙ ap (m x) q ∙ e, l))
Picked-step m x y ids b n r (inr (p, q, e, l)) (inr (o, e', l')) =
    inr (later_occurs r.left r.right x y ids o, e', omega (arith, l, l'))

pub find_best-Picked : (m : Merges) (ids : List ℕ) (b : Best) → Picked m ids b (find_best m ids b)
unfolding find_best
find_best-Picked m [] b = inl refl
find_best-Picked m (x ∷ []) b = inl refl
find_best-Picked m (x ∷ y ∷ ids) b =
    Picked-step m x y ids b (better m x y b) (find_best m (y ∷ ids) (better m x y b))
      (better-Bettered m x y b) (find_best-Picked m (y ∷ ids) (better m x y b))

find_best-le : (m : Merges) (ids : List ℕ) (b : Best) → (find_best m ids b).rank ≤ b.rank
find_best-le m ids b = elim (find_best-Picked m ids b) [
  | inl same ↦ omega (arith, ap (λ k. k.rank) same)
  | inr (o, e, l) ↦ omega (arith, l)
]

-- If the search finds nothing, there is nothing to find.
pub find_best-none :
    (m : Merges) (spell : ℕ → List ℕ)
    → IsMerges m spell
    → (ids : List ℕ) (b : Best) → (find_best m ids b).rank ≡ int32_max
    → can_merge m ids ≡ false
unfolding find_best can_merge better
find_best-none m spell g [] b e = refl
find_best-none m spell g (x ∷ []) b e = refl
find_best-none m spell g (x ∷ y ∷ ids) b e =
    let rest = find_best-none m spell g (y ∷ ids) (better m x y b) e in
    let small = find_best-le m (y ∷ ids) (better m x y b) in
    elim (Option-cases (m x y)) [
      | inl no_pair ↦ rw (no_pair, rest)
      | inr (h, pair) ↦ absurd (omega (arith, small, e, g.ranked x y h pair, lowers m x y h b pair))
    ]
  where
    lowers :
        (m : Merges) (x y : ℕ) (h : Merge) (b : Best)
        → m x y ≡ some h
        → (better m x y b).rank ≤ h.rank
    lowers m x y h b pair = elim (Bool-cases (ltb h.rank b.rank)) [
      | inl lower ↦ rw (pair, better, lower) (omega arith)
      | inr worse ↦ rw (pair, better, worse) (ground arith)
    ]
