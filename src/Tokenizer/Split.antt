-- ===== src/Tokenizer/Split.antt =====
-- src/tokenizer/tokenizer.cpp, `pre_tokenize`: one round of its loop, as the length of the piece that
-- it emits, over the code points that are left.
--
-- The tables of letters, numbers and spaces are parameters.
use llm_engine.Base.{
  ℕ, zero, suc, ◌+◌, ◌-◌, Bool, List, [], ◌∷◌, if◌then◌else◌, ltb, leb, ◌==◌, not, ◌&&◌, ◌||◌,
  length, get_or, drop, take,
}
use llm_engine.Tokenizer.Ranges.{in_ranges}

pub record Tables : Type 0 where
  pub letters : List (ℕ × ℕ)
  pub numbers : List (ℕ × ℕ)
  pub spaces : List (ℕ × ℕ)

abbrev pub is_letter : Tables → ℕ → Bool
is_letter t cp = in_ranges cp t.letters

abbrev pub is_number : Tables → ℕ → Bool
is_number t cp = in_ranges cp t.numbers

abbrev pub is_space : Tables → ℕ → Bool
is_space t cp = in_ranges cp t.spaces

abbrev pub is_newline : ℕ → Bool
is_newline cp = cp == 13 || cp == 10

-- What the fourth rule takes for punctuation.
abbrev pub is_other : Tables → ℕ → Bool
is_other t cp = not (is_space t cp) && not (is_letter t cp) && not (is_number t cp)

-- `lower`
abbrev pub lower : ℕ → ℕ
lower c = if leb 65 c && leb c 90 then c + 32 else c

-- `while (j < n && test(cps[j])) j++`
unfoldable pub run : (ℕ → Bool) → List ℕ → ℕ
run test [] = 0
run test (c ∷ cs) = let rest = run test cs in if test c then suc rest else 0

-- One past the last newline among the first `j`; 0 if there is none.
unfoldable pub last_newline : ℕ → List ℕ → ℕ
last_newline zero cs = 0
last_newline (suc j) [] = 0
last_newline (suc j) (c ∷ cs) =
    let rest = last_newline j cs in if ltb 0 rest then suc rest else if is_newline c then 1 else 0

-- Rule 1: the length of a contraction after an apostrophe; 0 if there is none.
unfoldable pub contraction : List ℕ → ℕ
contraction cs =
    let c1 = lower (get_or cs 1 0) in
    let c2 = if ltb 2 (length cs) then lower (get_or cs 2 0) else 0 in
    if not (get_or cs 0 0 == 39 && ltb 1 (length cs))
    then 0
    else if c1 == 115 || c1 == 116 || c1 == 109 || c1 == 100
    then 2
    else if (c1 == 114 && c2 == 101) || (c1 == 118 && c2 == 101) || (c1 == 108 && c2 == 108)
    then 3
    else 0

-- Rule 2: letters, after one character that is no letter, number or newline; 0 if there are none.
unfoldable pub word : Tables → List ℕ → ℕ
word t cs =
    let c = get_or cs 0 0 in
    let p = if is_letter t c then 0 else 1 in
    let m = run (is_letter t) (drop p cs) in
    if is_newline c || is_number t c then 0 else if ltb 0 m then p + m else 0

-- Rule 4: punctuation, after one space, with the newlines that follow; 0 if there is none.
unfoldable pub punctuation : Tables → List ℕ → ℕ
punctuation t cs =
    let p = if get_or cs 0 0 == 32 then 1 else 0 in
    let m = run (is_other t) (drop p cs) in
    if ltb 0 m then p + m + run is_newline (drop (p + m) cs) else 0

-- Rules 5 to 7: white space up to its last newline, else all but its last character if more follows.
unfoldable pub blank : Tables → List ℕ → ℕ
blank t cs =
    let j = run (is_space t) cs in
    let newline = last_newline j cs in
    if ltb 0 newline then newline else if ltb j (length cs) && ltb 1 j then j - 1 else j

-- The length of the next piece.
unfoldable pub piece_len : Tables → List ℕ → ℕ
piece_len t cs =
    let c = get_or cs 0 0 in
    if ltb 0 (contraction cs)
    then contraction cs
    else if ltb 0 (word t cs)
    then word t cs
    else if is_number t c
    then 1
    else if ltb 0 (punctuation t cs)
    then punctuation t cs
    else if is_space t c
    then blank t cs
    else 1

-- The loop `while (i < n)`, on the code points from `i` on.
unfoldable pub split : ℕ → Tables → List ℕ → List (List ℕ)
split zero t cs = []
split (suc fuel) t [] = []
split (suc fuel) t (c ∷ cs) =
    let n = piece_len t (c ∷ cs) in take n (c ∷ cs) ∷ split fuel t (drop n (c ∷ cs))

-- The pieces of a text, as code points.
unfoldable pub pieces : Tables → List ℕ → List (List ℕ)
pieces t cps = split (length cps) t cps
