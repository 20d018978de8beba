-- ===== src/Sampler/Nucleus.antt =====
-- src/model/sampler.cpp, `sample`: the widening window and the token that is drawn.
use llm_engine.Base.{
  ℕ, zero, suc, ◌+◌, ◌*◌, ◌≤◌, ◌<◌, ◌≡◌, refl, ap, subst, ◌∙◌, true, List, [], ◌∷◌, ltb, leb, ◌==◌,
  ◌||◌, length, take, arith, Bool-cases, inl, inr,
}
use llm_engine.Sampler.Defs.{sort_by, iota, window, walk, nucleus, widen_at, widen}
use llm_engine.Sampler.Order.{length-sort_by, length-iota}

-- A walk that stops inside a window stops there in the whole list too.
walk-take :
    (p : ℕ → ℕ) (top_p k : ℕ) (xs : List ℕ) (cum : ℕ)
    → (walk p top_p (take k xs) cum).0 < k
    → (walk p top_p (take k xs) cum).0 < length xs
    → walk p top_p (take k xs) cum ≡ walk p top_p xs cum
unfolding walk
walk-take p top_p zero xs cum h l = absurd (omega arith)
walk-take p top_p (suc k) [] cum h l = refl
walk-take p top_p (suc k) (x ∷ xs) cum h l = elim (Bool-cases (leb top_p (cum + p x))) [
  | inl closed ↦ rw closed refl
  | inr more ↦
      let inner : (walk p top_p (take k xs) (cum + p x)).0 < k = ground (arith, more, h) in
      let within : (walk p top_p (take k xs) (cum + p x)).0 < length xs = ground (arith, more, l) in
      let same = walk-take p top_p k xs (cum + p x) inner within in rw (more, same) refl
]

take-length : (xs : List ℕ) → take (length xs) xs ≡ xs
take-length [] = refl
take-length (x ∷ xs) = ap (λ l. x ∷ l) (take-length xs)

walk-le : (p : ℕ → ℕ) (top_p : ℕ) (xs : List ℕ) (cum : ℕ) → (walk p top_p xs cum).0 ≤ length xs
unfolding walk
walk-le p top_p [] cum = omega arith
walk-le p top_p (x ∷ xs) cum = elim (Bool-cases (leb top_p (cum + p x))) [
  | inl closed ↦ rw closed (omega arith)
  | inr more ↦ rw more (omega (arith, walk-le p top_p xs (cum + p x)))
]

-- All tokens, in the order of their probabilities.
unfoldable pub order : (ℕ → ℕ) → ℕ → List ℕ
order p vocab = sort_by p (iota 0 vocab)

pub length-order : (p : ℕ → ℕ) (vocab : ℕ) → length (order p vocab) ≡ vocab
unfolding order
length-order p vocab = length-sort_by p (iota 0 vocab) ∙ length-iota 0 vocab

window-all : (p : ℕ → ℕ) (vocab : ℕ) → window p vocab vocab ≡ order p vocab
unfolding window order
window-all p vocab =
    subst (λ n. take n (order p vocab) ≡ order p vocab) (length-order p vocab)
      (take-length (order p vocab))

take-within : (m k : ℕ) (xs : List ℕ) → m ≤ k → take m (take k xs) ≡ take m xs
take-within zero k xs h = refl
take-within (suc m) zero xs h = absurd (omega arith)
take-within (suc m) (suc k) [] h = refl
take-within (suc m) (suc k) (x ∷ xs) h = ap (λ l. x ∷ l) (take-within m k xs (omega arith))

-- A nucleus that closes inside the window is the nucleus of all tokens.
window-closed :
    (p : ℕ → ℕ) (top_p vocab k : ℕ)
    → k < vocab
    → (walk p top_p (window p vocab k) 0).0 < k
    → nucleus p top_p (window p vocab k) ≡ nucleus p top_p (order p vocab)
unfolding window nucleus order
window-closed p top_p vocab k narrow closed =
    let shorter : (walk p top_p (take k (order p vocab)) 0).0 < length (order p vocab) =
      omega (arith, length-order p vocab) in
    let same = walk-take p top_p k (order p vocab) 0 closed shorter in
    let kept = take-within (walk p top_p (window p vocab k) 0).0 k (order p vocab) (omega arith) in
    ap (λ l. (l, (walk p top_p (window p vocab k) 0).1)) kept
    ∙ ap (λ f. (take f.0 (order p vocab), f.1)) same

-- The loop's test at a width.
widen_at-closed :
    (p : ℕ → ℕ) (top_p vocab k : ℕ) (wider : List ℕ × ℕ)
    → k ≤ vocab
    → (k < vocab → wider ≡ nucleus p top_p (order p vocab))
    → widen_at p top_p vocab k wider ≡ nucleus p top_p (order p vocab)
unfolding widen_at
widen_at-closed p top_p vocab k wider within next =
    elim (Bool-cases (ltb (walk p top_p (window p vocab k) 0).0 k || k == vocab)) [
      | inl stop ↦ rw stop (elim (Bool-cases (k == vocab)) [
        | inl all ↦
            let same : k ≡ vocab = ground arith in
            rw same (ap (nucleus p top_p) (window-all p vocab))
        | inr part ↦
            window-closed p top_p vocab k (ground (arith, part)) (ground (arith, part, stop))
      ])
      | inr more ↦ rw more (next (ground (arith, more)))
    ]

-- For every width of the first window that is not 0, the loop ends with what a walk over the tokens in
-- their full order finds.
pub widen-nucleus :
    (fuel : ℕ) (p : ℕ → ℕ) (top_p vocab k : ℕ)
    → 0 < k
    → vocab ≤ k + fuel
    → widen (suc fuel) p top_p vocab k ≡ nucleus p top_p (order p vocab)
unfolding widen
widen-nucleus zero p top_p vocab k pos enough =
    let wide : leb vocab k ≡ true = ground arith in
    rw wide (widen_at-closed p top_p vocab vocab _ (omega arith) (λ h. absurd (omega arith)))
widen-nucleus (suc fuel) p top_p vocab k pos enough = elim (Bool-cases (leb vocab k)) [
  | inl wide ↦
      rw wide (widen_at-closed p top_p vocab vocab _ (omega arith) (λ h. absurd (omega arith)))
  | inr narrow ↦
      let next = widen-nucleus fuel p top_p vocab (k * 4) (omega arith) (omega arith) in
      rw narrow (
        widen_at-closed p top_p vocab k (widen (suc fuel) p top_p vocab (k * 4))
          (ground (arith, narrow)) (λ _. next))
]
