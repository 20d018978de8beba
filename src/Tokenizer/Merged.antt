-- ===== src/Tokenizer/Merged.antt =====
-- src/tokenizer/tokenizer.cpp, `bpe_merge`: the text of the tokens.
use llm_engine.Base.{
  ℕ, zero, suc, ◌≤◌, ◌<◌, ◌≡◌, refl, sym, ap, ◌∙◌, true, false, List, [], ◌∷◌, ◌++◌, some, ltb,
  ◌==◌, ◌&&◌, length, arith, Bool-cases, inl, inr,
}
use llm_engine.Tokenizer.Merge.{
  Merges, Best, int32_max, no_merge, find_best, apply_merge, merge_rounds, bpe_merge, IsMerges,
}
use llm_engine.Tokenizer.Rounds.{
  text_of, can_merge, occurs, Picked, append_assoc, find_best-Picked, find_best-none,
}

apply_merge-text :
    (spell : ℕ → List ℕ) (a b id : ℕ) (ids : List ℕ)
    → spell id ≡ spell a ++ spell b
    → text_of spell (apply_merge a b id ids) ≡ text_of spell ids
unfolding text_of apply_merge
apply_merge-text spell a b id [] e = refl
apply_merge-text spell a b id (x ∷ []) e = refl
apply_merge-text spell a b id (x ∷ y ∷ ids) e = elim (Bool-cases (x == a && y == b)) [
  | inr other ↦ rw other (ap (λ l. spell x ++ l) (apply_merge-text spell a b id (y ∷ ids) e))
  | inl hit ↦
      let p : x ≡ a = ground arith in
      let q : y ≡ b = ground arith in
      let rest = apply_merge-text spell a b id ids e in
      let glued : spell id ++ text_of spell ids ≡ spell x ++ (spell y ++ text_of spell ids) =
        ap (λ l. l ++ text_of spell ids)
          (e ∙ sym (ap (λ k. spell k ++ spell b) p) ∙ sym (ap (λ k. spell x ++ spell k) q))
        ∙ append_assoc (spell x) (spell y) (text_of spell ids) in
      rw hit (ap (λ l. spell id ++ l) rest ∙ glued)
]

apply_merge-shorter :
    (a b id : ℕ) (ids : List ℕ)
    → (length (apply_merge a b id ids) ≤ length ids)
      × (occurs a b ids ≡ true → length (apply_merge a b id ids) < length ids)
unfolding apply_merge occurs
apply_merge-shorter a b id [] = (omega arith, (λ e. cc))
apply_merge-shorter a b id (x ∷ []) = (omega arith, (λ e. cc))
apply_merge-shorter a b id (x ∷ y ∷ ids) =
    ground (arith, apply_merge-shorter a b id (y ∷ ids), apply_merge-shorter a b id ids)

-- The outcome: the same text, and no adjacent pair with a merge.
abbrev pub Merged : Merges → (ℕ → List ℕ) → List ℕ → List ℕ → Type 0
Merged m spell ids out = (text_of spell out ≡ text_of spell ids) × (can_merge m out ≡ false)

alone : (m : Merges) (ids : List ℕ) → length ids < 2 → can_merge m ids ≡ false
unfolding can_merge
alone m [] h = refl
alone m (x ∷ []) h = refl
alone m (x ∷ y ∷ ids) h = absurd (omega arith)

module _ (m : Merges) (spell : ℕ → List ℕ) (g : IsMerges m spell) where
  merge_rounds-Merged :
      (fuel : ℕ) (ids : List ℕ) → length ids ≤ fuel → Merged m spell ids (merge_rounds fuel m ids)
  unfolding merge_rounds
  merge_rounds-Merged zero ids h = (refl, alone m ids (omega arith))
  merge_rounds-Merged (suc fuel) ids h = elim (Bool-cases (ltb (length ids) 2)) [
    | inl short ↦ rw short (refl, alone m ids (ground arith))
    | inr long ↦
        let best = find_best m ids no_merge in
        elim (Bool-cases (best.rank == int32_max)) [
          | inl nothing ↦
              rw (long, nothing) (refl, find_best-none m spell g ids no_merge (ground arith))
          | inr something ↦
              let (o, e) = found best something (find_best-Picked m ids no_merge) in
              let less = (apply_merge-shorter best.left best.right best.id ids).1 o in
              let (same, over) =
                merge_rounds-Merged fuel (apply_merge best.left best.right best.id ids)
                  (omega arith) in
              rw (long, something)
                (
                  same
                      ∙ apply_merge-text spell best.left best.right best.id ids
                          (g.spelled best.left best.right _ e),
                  over,
                )
        ]
  ]
    where
      found :
          (b : Best)
          → (b.rank == int32_max) ≡ false
          → Picked m ids no_merge b
          → (occurs b.left b.right ids ≡ true)
            × (m b.left b.right ≡ some (record { rank = b.rank; id = b.id }))
      found b ne (inl same) = absurd (ground (arith, ap (λ k. k.rank) same))
      found b ne (inr (o, e, l)) = (o, e)

  -- If each merge has a rank below `INT32_MAX` and gives a token spelled as its two parts, then
  -- `bpe_merge` ends within one round per token, its result spells the same text, and no adjacent
  -- pair of it has a merge.
  pub bpe_merge-Merged : (ids : List ℕ) → Merged m spell ids (bpe_merge m ids)
  unfolding bpe_merge
  bpe_merge-Merged ids = merge_rounds-Merged (length ids) ids (omega arith)
