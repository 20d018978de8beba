-- ===== src/Tokenizer/Pieces.antt =====
-- src/tokenizer/tokenizer.cpp, `pre_tokenize`: the pieces of a text.
use llm_engine.Base.{
  ℕ, zero, suc, ◌+◌, ◌≤◌, ◌<◌, ◌≡◌, refl, ap, ◌∙◌, Bool, List, [], ◌∷◌, ◌++◌, if◌then◌else◌, ltb,
  ◌==◌, length, drop, take, All, arith, min, length-take,
}
use llm_engine.Tokenizer.Split.{
  Tables, run, last_newline, contraction, word, punctuation, blank, piece_len, split, pieces,
  is_letter, is_other, is_newline, is_space,
}

unfoldable pub concat : List (List ℕ) → List ℕ
concat [] = []
concat (xs ∷ xss) = xs ++ concat xss

length-drop : (n : ℕ) (xs : List ℕ) → length (drop n xs) + min n (length xs) ≡ length xs
length-drop zero xs = omega arith
length-drop (suc n) [] = omega arith
length-drop (suc n) (x ∷ xs) = omega (arith, length-drop n xs)

take-append-drop : (n : ℕ) (xs : List ℕ) → take n xs ++ drop n xs ≡ xs
take-append-drop zero xs = refl
take-append-drop (suc n) [] = refl
take-append-drop (suc n) (x ∷ xs) = ap (λ l. x ∷ l) (take-append-drop n xs)

run-le : (test : ℕ → Bool) (cs : List ℕ) → run test cs ≤ length cs
unfolding run
run-le test [] = omega arith
run-le test (c ∷ cs) = ground (arith, run-le test cs)

last_newline-le : (j : ℕ) (cs : List ℕ) → last_newline j cs ≤ length cs
unfolding last_newline
last_newline-le zero cs = omega arith
last_newline-le (suc j) [] = omega arith
last_newline-le (suc j) (c ∷ cs) = ground (arith, last_newline-le j cs)

contraction-le : (c : ℕ) (cs : List ℕ) → contraction (c ∷ cs) ≤ length (c ∷ cs)
unfolding contraction
contraction-le c [] = ground arith
contraction-le c (d ∷ []) = ground arith
contraction-le c (d ∷ e ∷ cs) = ground arith

word-le : (t : Tables) (c : ℕ) (cs : List ℕ) → word t (c ∷ cs) ≤ length (c ∷ cs)
unfolding word
word-le t c cs = ground (arith, run-le (is_letter t) (c ∷ cs), run-le (is_letter t) cs)

drop-one-le : (n : ℕ) (cs : List ℕ) → n ≤ length cs → length (drop n cs) + n ≡ length cs
drop-one-le n cs h = omega (arith, length-drop n cs)

punctuation-le : (t : Tables) (c : ℕ) (cs : List ℕ) → punctuation t (c ∷ cs) ≤ length (c ∷ cs)
unfolding punctuation
punctuation-le t c cs =
    let p = if c == 32 then 1 else 0 in
    let m = run (is_other t) (drop p (c ∷ cs)) in
    let one : p ≤ length (c ∷ cs) = ground arith in
    let inner = run-le (is_other t) (drop p (c ∷ cs)) in
    let dropped = drop-one-le p (c ∷ cs) one in
    let all : p + m ≤ length (c ∷ cs) = omega (arith, inner, dropped) in
    let newlines = run-le is_newline (drop (p + m) (c ∷ cs)) in
    bound (ltb 0 m) (p + m + run is_newline (drop (p + m) (c ∷ cs))) (length (c ∷ cs))
      (omega (arith, newlines, drop-one-le (p + m) (c ∷ cs) all))
  where
    bound : (b : Bool) (n k : ℕ) → n ≤ k → (if b then n else 0) ≤ k
    bound b n k h = ground arith

blank-le :
    (t : Tables) (c : ℕ) (cs : List ℕ)
    → (blank t (c ∷ cs) ≤ length (c ∷ cs)) × (0 < run (is_space t) (c ∷ cs) → 0 < blank t (c ∷ cs))
unfolding blank
blank-le t c cs =
    let j = run (is_space t) (c ∷ cs) in
    ground (arith, run-le (is_space t) (c ∷ cs), last_newline-le j (c ∷ cs))

-- A piece has a character at least, and no more than are left.
piece_len-bounds :
    (t : Tables) (c : ℕ) (cs : List ℕ)
    → (0 < piece_len t (c ∷ cs)) × (piece_len t (c ∷ cs) ≤ length (c ∷ cs))
unfolding piece_len run
piece_len-bounds t c cs =
    let (short, some_blank) = blank-le t c cs in
    ground (arith, contraction-le c cs, word-le t c cs, punctuation-le t c cs, short, some_blank)

split-concat :
    (fuel : ℕ) (t : Tables) (cs : List ℕ)
    → length cs ≤ fuel
    → (concat (split fuel t cs) ≡ cs) × All (λ piece. 0 < length piece) (split fuel t cs)
unfolding split concat
split-concat zero t [] h = (refl, tt)
split-concat zero t (c ∷ cs) h = absurd (omega arith)
split-concat (suc fuel) t [] h = (refl, tt)
split-concat (suc fuel) t (c ∷ cs) h =
    let n = piece_len t (c ∷ cs) in
    let (pos, short) = piece_len-bounds t c cs in
    let left = drop-one-le n (c ∷ cs) short in
    let (same, all) = split-concat fuel t (drop n (c ∷ cs)) (omega (arith, left)) in
    (
      ap (λ l. take n (c ∷ cs) ++ l) same ∙ take-append-drop n (c ∷ cs),
      (omega (arith, length-take n (c ∷ cs), pos, short), all),
    )

-- For any tables and any text, the loop of `pre_tokenize` ends within one round per code point; its
-- pieces, put together, are the code points of the text, and no piece is empty.
pub pieces-concat :
    (t : Tables) (cps : List ℕ)
    → (concat (pieces t cps) ≡ cps) × All (λ piece. 0 < length piece) (pieces t cps)
unfolding pieces
pieces-concat t cps = split-concat (length cps) t cps (omega arith)
