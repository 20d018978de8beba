-- ===== src/Tokenizer/Cuts.antt =====
-- src/tokenizer/tokenizer.cpp, `encode`: which added tokens cut a text.
use llm_engine.Base.{
  ℕ, suc, ◌≤◌, ◌<◌, ◌≡◌, refl, ap, ◌∙◌, ◌⊎◌, inl, inr, true, List, [], ◌∷◌, ◌++◌, Option, none,
  some, length, All, arith, Bool-cases,
}
use llm_engine.Tokenizer.Vocab.{AddedToken}
use llm_engine.Tokenizer.Encode.{starts_with, find, is_better, choose, first_added}

starts_with-itself : (needle rest : List ℕ) → starts_with needle (needle ++ rest) ≡ true
unfolding starts_with
starts_with-itself [] rest = refl
starts_with-itself (x ∷ xs) rest = ground (arith, starts_with-itself xs rest)

find-here : (needle s : List ℕ) → starts_with needle s ≡ true → find needle s ≡ some 0
unfolding find
find-here needle [] e = rw e refl
find-here needle (c ∷ s) e = rw e refl

-- An occurrence is found, or one before it.
find-least :
    (needle before rest : List ℕ)
    → (k : ℕ) × (find needle (before ++ (needle ++ rest)) ≡ some k) × (k ≤ length before)
unfolding find
find-least needle [] rest =
    (0, find-here needle (needle ++ rest) (starts_with-itself needle rest), omega arith)
find-least needle (c ∷ before) rest =
    let s = before ++ (needle ++ rest) in
    let (k, e, least) = find-least needle before rest in
    elim (Bool-cases (starts_with needle (c ∷ s))) [
      | inl here ↦ (0, rw here refl, omega arith)
      | inr on ↦ (suc k, rw (on, e) refl, omega (arith, least))
    ]

-- A choice that an occurrence at `k`, of `n` bytes, does not beat.
abbrev pub Wins : ℕ → ℕ → Option (ℕ × AddedToken) → Type 0
Wins k n none = 1 ≤ 0
Wins k n (some (at, best)) = (at < k) ⊎ ((at ≡ k) × (n ≤ length best.content))

choose-Wins :
    (k n : ℕ) (o : Option ℕ) (a : AddedToken) (best : Option (ℕ × AddedToken))
    → Wins k n best
    → Wins k n (choose o a best)
choose-Wins k n none a best w = w
choose-Wins k n (some at) a none w = absurd (omega (arith, w))
choose-Wins k n (some at) a (some (b, t)) w = elim (Bool-cases (is_better at a (b, t))) [
  | inl better ↦ rw better (ground (arith, w, better))
  | inr no_better ↦ rw no_better w
]

choose-new :
    (k : ℕ) (a : AddedToken) (best : Option (ℕ × AddedToken))
    → Wins k (length a.content) (choose (some k) a best)
choose-new k a none = inr (refl, omega arith)
choose-new k a (some (b, t)) = elim (Bool-cases (is_better k a (b, t))) [
  | inl better ↦ rw better (inr (refl, omega arith))
  | inr no_better ↦ rw no_better (ground (arith, no_better))
]

first_added-Wins :
    (k n : ℕ) (as' : List AddedToken) (s : List ℕ) (best : Option (ℕ × AddedToken))
    → Wins k n best
    → Wins k n (first_added as' s best)
unfolding first_added
first_added-Wins k n [] s best w = w
first_added-Wins k n (a ∷ as') s best w =
    first_added-Wins k n as' s (choose (find a.content s) a best)
      (choose-Wins k n (find a.content s) a best w)

-- No occurrence of an added token beats the choice.
abbrev pub Beaten : List ℕ → Option (ℕ × AddedToken) → AddedToken → Type 0
Beaten s o a =
    (before rest : List ℕ)
    → s ≡ before ++ (a.content ++ rest)
    → Wins (length before) (length a.content) o

Wins-later : (k m n : ℕ) (o : Option (ℕ × AddedToken)) → Wins k n o → k ≤ m → Wins m n o
Wins-later k m n none w le = w
Wins-later k m n (some (at, best)) w le = ground (arith, w, le)

pub first_added-Beaten :
    (as' : List AddedToken) (s : List ℕ) (best : Option (ℕ × AddedToken))
    → All (Beaten s (first_added as' s best)) as'
unfolding first_added
first_added-Beaten [] s best = tt
first_added-Beaten (a ∷ as') s best = (
  λ before rest e.
      let (k, found, least) = find-least a.content before rest in
      let chosen = choose (find a.content s) a best in
      let at_k : find a.content s ≡ some k = ap (find a.content) e ∙ found in
      Wins-later k (length before) (length a.content) (first_added as' s chosen)
        (first_added-Wins k (length a.content) as' s chosen (rw at_k (choose-new k a best))) least,
  first_added-Beaten as' s (choose (find a.content s) a best),
)
