-- ===== src/Server/Utf8.antt =====
-- src/api/server.cpp, `Utf8Buffer`: what it sends and what it keeps.
use llm_engine.Base.{
  ℕ, zero, suc, ◌+◌, ◌-◌, ◌≤◌, ◌<◌, ◌≡◌, refl, sym, ap, subst, ◌∙◌, inl, inr, List, [], ◌∷◌, ◌++◌,
  ltb, length, take, drop, get_or, length-take, length-drop, take-drop, take-add, drop-add, arith,
  Bool-cases, leb,
}
use llm_engine.Server.Stream.{char_len, valid_from, push_bytes}

-- The lengths that UTF-8 gives to the leading bytes of characters; a byte that leads none stands alone.
pub data Leads : ℕ → ℕ → Type 0 where
  ascii : {c : ℕ} → c < 0x80 → Leads c 1
  stray : {c : ℕ} → 0x80 ≤ c → c < 0xC0 → Leads c 1
  two_bytes : {c : ℕ} → 0xC0 ≤ c → c < 0xE0 → Leads c 2
  three_bytes : {c : ℕ} → 0xE0 ≤ c → c < 0xF0 → Leads c 3
  four_bytes : {c : ℕ} → 0xF0 ≤ c → Leads c 4

char_len-Leads : (c : ℕ) → Leads c (char_len c)
char_len-Leads c = elim (Bool-cases (ltb c 0x80)) [
  | inl small ↦ rw small (ascii (ground arith))
  | inr e0 ↦ elim (Bool-cases (leb 0xF0 c)) [
    | inl four ↦ rw (e0, four) (four_bytes (ground arith))
    | inr e1 ↦ elim (Bool-cases (leb 0xE0 c)) [
      | inl three ↦ rw (e0, e1, three) (three_bytes (ground arith) (ground arith))
      | inr e2 ↦ elim (Bool-cases (leb 0xC0 c)) [
        | inl two ↦ rw (e0, e1, e2, two) (two_bytes (ground arith) (ground arith))
        | inr e3 ↦ rw (e0, e1, e2, e3) (stray (ground arith) (ground arith))
      ]
    ]
  ]
]

-- A text of whole characters.
pub data Whole : List ℕ → Type 0 where
  nothing : Whole []
  character :
      {text : List ℕ} (c : ℕ) (cs rest : List ℕ)
      → Leads c (length (c ∷ cs))
      → Whole rest
      → text ≡ (c ∷ cs) ++ rest
      → Whole text

-- No byte, or the beginning of a character.
pub data Partial : List ℕ → Type 0 where
  no_byte : Partial []
  begun : (c : ℕ) (cs : List ℕ) (n : ℕ) → Leads c n → length (c ∷ cs) < n → Partial (c ∷ cs)

get_or-drop : (n : ℕ) (s : List ℕ) → get_or s n 0 ≡ get_or (drop n s) 0 0
get_or-drop zero s = refl
get_or-drop (suc n) [] = refl
get_or-drop (suc n) (c ∷ s) = get_or-drop n s

char_len_bounds : (c : ℕ) → (0 < char_len c) × (char_len c ≤ 4)
char_len_bounds c = ground arith

-- The first character of a text that holds it.
first_character :
    (s rest : List ℕ)
    → 0 < length s
    → char_len (get_or s 0 0) ≤ length s
    → Whole rest
    → Whole (take (char_len (get_or s 0 0)) s ++ rest)
first_character [] rest pos fits w = absurd (omega arith)
first_character (c ∷ s) rest pos fits w =
    let (some_byte, _) = char_len_bounds c in
    let e : char_len c ≡ suc (char_len c - 1) = omega (arith, some_byte) in
    character c (take (char_len c - 1) s) rest
      (subst (Leads c) (omega (arith, e, length-take (char_len c - 1) s, fits)) (char_len-Leads c))
      w (ap (λ n. take n (c ∷ s) ++ rest) e)

short_text : (s : List ℕ) → 0 < length s → length s < char_len (get_or s 0 0) → Partial s
short_text [] pos short = no_byte
short_text (c ∷ s) pos short = begun c s (char_len c) (char_len-Leads c) short

-- Where the loop ends, from position `v`.
pub record Cut (all : List ℕ) (v r : ℕ) : Type 0 where
  pub grows : v ≤ r
  pub within : r ≤ length all
  pub whole : Whole (take (r - v) (drop v all))
  pub rest : Partial (drop r all)

take-none : (v : ℕ) (s : List ℕ) → take (v - v) s ≡ []
take-none v s = let z : v - v ≡ 0 = omega arith in rw z refl

drop-all : (s : List ℕ) → drop (length s) s ≡ []
drop-all [] = refl
drop-all (c ∷ s) = drop-all s

stops-Cut : (all : List ℕ) (v : ℕ) → v ≤ length all → Partial (drop v all) → Cut all v v
stops-Cut all v h p = record {
  grows = omega arith;
  within = h;
  whole = rw (take-none v (drop v all)) nothing;
  rest = p;
}

ends-Cut : (all : List ℕ) (v : ℕ) → v ≡ length all → Cut all v v
ends-Cut all v e =
    stops-Cut all v (omega arith) (rw (ap (λ n. drop n all) e ∙ drop-all all) no_byte)

Leads-most : (c n : ℕ) → Leads c n → n ≤ 4
Leads-most c n (ascii a) = omega arith
Leads-most c n (stray a b) = omega arith
Leads-most c n (two_bytes a b) = omega arith
Leads-most c n (three_bytes a b) = omega arith
Leads-most c n (four_bytes a) = omega arith

Partial-short : (s : List ℕ) → Partial s → length s < 4
Partial-short [] p = omega arith
Partial-short (c ∷ s) (begun _ _ n leads less) = omega (arith, Leads-most c n leads, less)

-- One character further.
steps-Cut :
    (all : List ℕ) (v r : ℕ)
    → v + char_len (get_or all v 0) ≤ length all
    → Cut all (v + char_len (get_or all v 0)) r
    → Cut all v r
steps-Cut all v r fits c =
    let n = char_len (get_or all v 0) in
    let at = get_or-drop v all in
    let (some_byte, _) = char_len_bounds (get_or all v 0) in
    let whole =
      first_character (drop v all) (take (r - (v + n)) (drop (v + n) all))
        (omega (arith, length-drop v all, fits, some_byte))
        (omega (arith, length-drop v all, fits, ap char_len at)) c.whole in
    record {
      grows = omega (arith, c.grows);
      within = c.within;
      whole =
          subst Whole
            (ap (λ m. take (char_len m) (drop v all) ++ take (r - (v + n)) (drop (v + n) all))
                (sym at)
              ∙ (ap (λ l. take n (drop v all) ++ take (r - (v + n)) l) (drop-add v n all)
                  ∙ (sym (take-add n (r - (v + n)) (drop v all))
                      ∙ ap (λ m. take m (drop v all)) (omega (arith, c.grows)))))
            whole;
      rest = c.rest;
    }

valid_from-Cut :
    (fuel : ℕ) (all : List ℕ) (v : ℕ)
    → v ≤ length all
    → length all ≤ v + fuel
    → Cut all v (valid_from fuel all v)
unfolding valid_from
valid_from-Cut zero all v h k = ends-Cut all v (omega arith)
valid_from-Cut (suc fuel) all v h k =
    let n = char_len (get_or all v 0) in
    let (some_byte, _) = char_len_bounds (get_or all v 0) in
    elim (Bool-cases (ltb v (length all))) [
      | inl more ↦ elim (Bool-cases (ltb (length all) (v + n))) [
        | inl cut ↦
            rw (more, cut)
              (stops-Cut all v h (
                short_text (drop v all) (ground (arith, length-drop v all, more))
                  (ground (arith, length-drop v all, cut, ap char_len (get_or-drop v all)))))
        | inr fits ↦
            rw (more, fits)
              (steps-Cut all v (valid_from fuel all (v + n)) (ground arith)
                (valid_from-Cut fuel all (v + n) (ground arith) (omega (arith, some_byte))))
      ]
      | inr over ↦ rw over (ends-Cut all v (ground arith))
    ]

-- What `push` sends is whole characters, by the lengths that UTF-8 gives to a leading byte, what it
-- keeps is the beginning of one, shorter than its leading byte says, and together they are the bytes
-- that were kept before and the new ones.
pub push_bytes-Whole :
    (pending bytes : List ℕ)
    → let (sent, kept) = push_bytes pending bytes in
      Whole sent × Partial kept × (length kept < 4) × (sent ++ kept ≡ pending ++ bytes)
unfolding push_bytes
push_bytes-Whole pending bytes =
    let all = pending ++ bytes in
    let v = valid_from (length all) all 0 in
    let cut = valid_from-Cut (length all) all 0 (omega arith) (omega arith) in
    let same : v - 0 ≡ v = omega arith in
    (
      subst (λ n. Whole (take n all)) same cut.whole,
      cut.rest,
      Partial-short (drop v all) cut.rest,
      take-drop v all,
    )
