-- ===== src/Tokenizer/Ranges.antt =====
-- src/tokenizer/tokenizer.cpp, `in_ranges`: the search in a sorted table of ranges of code points.
use llm_engine.Base.{
  ℕ, zero, suc, ◌+◌, ◌-◌, ◌/◌, ◌≤◌, ◌<◌, ◌≡◌, ◌↔◌, subst, Bool, true, false, List, if◌then◌else◌,
  ltb, length, get_or, arith, Bool-cases, inl, inr,
}

abbrev pub low : List (ℕ × ℕ) → ℕ → ℕ
low r i = (get_or r i (0, 0)).0

abbrev pub high : List (ℕ × ℕ) → ℕ → ℕ
high r i = (get_or r i (0, 0)).1

-- The loop while `lo < hi`.
unfoldable pub search : ℕ → ℕ → List (ℕ × ℕ) → ℕ → ℕ → Bool
search zero cp r lo hi = false
search (suc fuel) cp r lo hi =
    let mid = (lo + hi) / 2 in
    let below = search fuel cp r lo mid in
    let above = search fuel cp r (mid + 1) hi in
    if ltb lo hi
    then if ltb cp (low r mid) then below else if ltb (high r mid) cp then above else true
    else false

unfoldable pub in_ranges : ℕ → List (ℕ × ℕ) → Bool
in_ranges cp r = search (suc (length r)) cp r 0 (length r)

-- Each range ends before the next ones start.
pub record IsTable (r : List (ℕ × ℕ)) : Type 0 where
  pub ranges : (i : ℕ) → i < length r → low r i ≤ high r i
  pub apart : (i j : ℕ) → i < j → j < length r → high r i < low r j

-- A range that holds `cp`, at a position from `lo` on and before `hi`.
abbrev pub Within : ℕ → List (ℕ × ℕ) → ℕ → ℕ → Type 0
Within cp r lo hi = (i : ℕ) × (lo ≤ i) × (i < hi) × (low r i ≤ cp) × (cp ≤ high r i)

search_sound :
    (fuel cp : ℕ) (r : List (ℕ × ℕ)) (lo hi : ℕ) → search fuel cp r lo hi ≡ true → Within cp r lo hi
unfolding search
search_sound zero cp r lo hi e = cc
search_sound (suc fuel) cp r lo hi e = elim (Bool-cases (ltb lo hi)) [
  | inr over ↦ absurd (ground arith)
  | inl more ↦
      let mid = (lo + hi) / 2 in
      elim (Bool-cases (ltb cp (low r mid))) [
        | inl left ↦
            let (i, a, b, c, d) = search_sound fuel cp r lo mid (ground arith) in
            (i, a, ground arith, c, d)
        | inr not_left ↦ elim (Bool-cases (ltb (high r mid) cp)) [
          | inl right ↦
              let (i, a, b, c, d) = search_sound fuel cp r (mid + 1) hi (ground arith) in
              (i, ground arith, b, c, d)
          | inr found ↦ (mid, ground arith, ground arith, ground arith, ground arith)
        ]
      ]
]

-- A range that holds `cp` stands before each range that starts after `cp`, and after each that ends
-- before it.
left_of :
    (cp i mid : ℕ) (r : List (ℕ × ℕ))
    → IsTable r
    → i < length r
    → mid < length r
    → ltb cp (low r mid) ≡ true
    → low r i ≤ cp
    → i < mid
left_of cp i mid r t a b left c = elim (Bool-cases (ltb i mid)) [
  | inl yes_it ↦ ground arith
  | inr no_it ↦ elim (Bool-cases (ltb mid i)) [
    | inl past ↦ absurd (ground (arith, t.apart mid i (ground arith) a, t.ranges mid b))
    | inr same ↦
        let e : i ≡ mid = ground arith in absurd (ground (arith, subst (λ j. low r j ≤ cp) e c))
  ]
]

right_of :
    (cp i mid : ℕ) (r : List (ℕ × ℕ))
    → IsTable r
    → i < length r
    → mid < length r
    → ltb (high r mid) cp ≡ true
    → cp ≤ high r i
    → mid < i
right_of cp i mid r t a b right d = elim (Bool-cases (ltb mid i)) [
  | inl yes_it ↦ ground arith
  | inr no_it ↦ elim (Bool-cases (ltb i mid)) [
    | inl past ↦ absurd (ground (arith, t.apart i mid (ground arith) b, t.ranges mid b))
    | inr same ↦
        let e : i ≡ mid = ground arith in absurd (ground (arith, subst (λ j. cp ≤ high r j) e d))
  ]
]

search_complete :
    (fuel cp : ℕ) (r : List (ℕ × ℕ)) (lo hi i : ℕ)
    → IsTable r
    → hi ≤ length r
    → hi - lo < fuel
    → lo ≤ i
    → i < hi
    → low r i ≤ cp
    → cp ≤ high r i
    → search fuel cp r lo hi ≡ true
unfolding search
search_complete zero cp r lo hi i t h f a b c d = absurd (omega arith)
search_complete (suc fuel) cp r lo hi i t h f a b c d =
    let mid = (lo + hi) / 2 in
    let more : ltb lo hi ≡ true = ground arith in
    elim (Bool-cases (ltb cp (low r mid))) [
      | inl left ↦
          rw (more, left)
            (search_complete fuel cp r lo mid i t (omega arith) (ground arith) a
              (left_of cp i mid r t (omega arith) (ground arith) left c) c d)
      | inr not_left ↦ elim (Bool-cases (ltb (high r mid) cp)) [
        | inl right ↦
            rw (more, not_left, right)
              (search_complete fuel cp r (mid + 1) hi i t h (ground arith)
                (omega (arith, right_of cp i mid r t (omega arith) (ground arith) right d)) b c d)
        | inr found ↦ rw (more, not_left, found)
      ]
    ]

-- On a table of ranges each of which ends before the next ones start, `in_ranges` returns true
-- exactly if some range holds the code point.
pub in_ranges-Within :
    (cp : ℕ) (r : List (ℕ × ℕ)) → IsTable r → (in_ranges cp r ≡ true) ↔ Within cp r 0 (length r)
unfolding in_ranges
in_ranges-Within cp r t = (
  search_sound (suc (length r)) cp r 0 (length r),
  (λ (i, a, b, c, d).
      search_complete (suc (length r)) cp r 0 (length r) i t (omega arith) (omega arith) a b c d),
)
