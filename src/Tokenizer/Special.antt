-- ===== src/Tokenizer/Special.antt =====
-- src/tokenizer/tokenizer.cpp, `encode`: added tokens in a text.
use llm_engine.Base.{
  ℕ, zero, suc, ◌+◌, ◌^◌, ◌≤◌, ◌<◌, ◌≡◌, refl, sym, ap, ap₂, ◌∙◌, subst, true, List, [], ◌∷◌, ◌++◌,
  Option, none, some, Option-cases, ltb, length, take, drop, drop-add, length-drop, get_elem?, All,
  arith, Bool-cases, inl, inr,
}
use llm_engine.Tokenizer.Rounds.{text_of}
use llm_engine.Tokenizer.Utf8.{utf8_encode, encode_all}
use llm_engine.Tokenizer.Vocab.{
  Tokenizer, AddedToken, is_added, decode_stored, decode_token, decode,
}
use llm_engine.Tokenizer.Encode.{
  starts_with, find, is_better, choose, first_added, encode_chunk, encode_family, encode_next,
  encode_from, encode_byte_level, encode,
}
use llm_engine.Tokenizer.Cuts.{Beaten, first_added-Beaten}
use llm_engine.Tokenizer.Spelling.{
  IsByteLevel, spell, spell-decode_token, decode-text_of, text_of-append, All-split,
  encode_byte_level-text,
}

starts_with-append :
    (needle s : List ℕ) → starts_with needle s ≡ true → s ≡ needle ++ drop (length needle) s
unfolding starts_with
starts_with-append [] s e = refl
starts_with-append (x ∷ xs) [] e = cc
starts_with-append (x ∷ xs) (y ∷ ys) e =
    ap₂ ◌∷◌ (ground (arith, e)) (starts_with-append xs ys (ground (arith, e)))

-- `a` stands at a position of the text.
abbrev StandsAt : List ℕ → ℕ → List ℕ → Type 0
StandsAt s at a = s ≡ take at s ++ (a ++ drop (length a) (drop at s))

find-StandsAt : (needle s : List ℕ) (k : ℕ) → find needle s ≡ some k → StandsAt s k needle
unfolding find
find-StandsAt needle [] k e = elim (Bool-cases (starts_with needle [])) [
  | inl here ↦ let z : k ≡ 0 = ground (arith, e, here) in rw z (starts_with-append needle [] here)
  | inr gone ↦ absurd (ground (arith, e, gone))
]
find-StandsAt needle (c ∷ s) k e = elim (Bool-cases (starts_with needle (c ∷ s))) [
  | inl here ↦
      let z : k ≡ 0 = ground (arith, e, here) in rw z (starts_with-append needle (c ∷ s) here)
  | inr gone ↦ elim (Option-cases (find needle s)) [
    | inl nowhere ↦ absurd (ground (arith, e, gone, nowhere))
    | inr (j, found) ↦
        let z : k ≡ suc j = ground (arith, e, gone, found) in
        rw z (ap (λ l. c ∷ l) (find-StandsAt needle s j found))
  ]
]

-- What is found of the added tokens.
abbrev Found : (AddedToken → Type 0) → List ℕ → Option (ℕ × AddedToken) → Type 0
Found P s none = Unit
Found P s (some (at, a)) = P a × StandsAt s at a.content

choose-Found :
    (P : AddedToken → Type 0) (s : List ℕ) (a : AddedToken) (o : Option ℕ)
    (best : Option (ℕ × AddedToken))
    → P a
    → ((k : ℕ) → o ≡ some k → StandsAt s k a.content)
    → Found P s best
    → Found P s (choose o a best)
choose-Found P s a none best p f b = b
choose-Found P s a (some at) none p f b = (p, f at refl)
choose-Found P s a (some at) (some (best_at, best)) p f b =
    elim (Bool-cases (is_better at a (best_at, best))) [
      | inl better ↦ rw better (p, f at refl)
      | inr worse ↦ rw worse b
    ]

first_added-Found :
    (P : AddedToken → Type 0) (added : List AddedToken) (s : List ℕ)
    (best : Option (ℕ × AddedToken))
    → All P added
    → Found P s best
    → Found P s (first_added added s best)
unfolding first_added
first_added-Found P [] s best all b = b
first_added-Found P (a ∷ added) s best (p, all) b =
    first_added-Found P added s (choose (find a.content s) a best) all
      (choose-Found P s a (find a.content s) best p (λ k. find-StandsAt a.content s k) b)

-- ASCII text is its own code points.
encode_all-ascii : (s : List ℕ) → All (λ b. b < 128) s → encode_all s ≡ s
unfolding encode_all utf8_encode
encode_all-ascii [] a = refl
encode_all-ascii (b ∷ s) (small, a) =
    let rest = encode_all-ascii s a in
    elim (Bool-cases (ltb b 128)) [
      | inl one ↦ rw one (ap₂ ◌∷◌ (omega arith) rest)
      | inr more ↦ absurd (ground arith)
    ]

All-weaken : (s : List ℕ) → All (λ b. b < 128) s → All (λ b. b < 2 ^ 21) s
All-weaken [] a = tt
All-weaken (b ∷ s) (p, a) = (omega arith, All-weaken s a)

-- An added token has some content, which the vocabulary stores for its id.
pub record IsAdded (t : Tokenizer) (a : AddedToken) : Type 0 where
  pub content : 0 < length a.content
  pub stored : get_elem? t.id_to_token a.id ≡ some a.content
  pub listed : is_added t.added_tokens a.id ≡ true

-- How a text is cut into tokens: with no occurrence of an added token it is encoded as it is; else it
-- is cut at the first occurrence of one, and the longest of those that begin there.
pub data Cuts (t : Tokenizer) : List ℕ → List ℕ → Type 0 where
  ended : Cuts t [] []
  plain :
      (s ids : List ℕ)
      → All (Beaten s none) t.added_tokens
      → encode_chunk t s ≡ some ids
      → Cuts t s ids
  cut :
      (at : ℕ) (best : AddedToken) (s ids later : List ℕ)
      → IsAdded t best
      → StandsAt s at best.content
      → All (Beaten s (some (at, best))) t.added_tokens
      → encode_chunk t (take at s) ≡ some ids
      → Cuts t (drop (at + length best.content) s) later
      → Cuts t s (ids ++ (best.id ∷ later))

module _ (t : Tokenizer) (h : IsByteLevel t) (added : All (IsAdded t) t.added_tokens) where
  decode_token-added : (a : AddedToken) → IsAdded t a → decode_token t a.id ≡ some a.content
  unfolding decode_token decode_stored
  decode_token-added a k = rw (k.stored, k.listed) refl

  encode_chunk-text :
      (s : List ℕ)
      → All (λ b. b < 128) s
      → (ids : List ℕ) × (encode_chunk t s ≡ some ids) × (text_of (spell t) ids ≡ s)
  unfolding encode_chunk text_of encode_family
  encode_chunk-text [] a = ([], refl, refl)
  encode_chunk-text (c ∷ s) a =
      let same = encode_all-ascii (c ∷ s) a in
      let (ids, done, text) = encode_byte_level-text t h (c ∷ s) (All-weaken (c ∷ s) a) in
      (ids, rw h.family (ap (encode_byte_level t) (sym same) ∙ done), text ∙ same)

  encode_from-text :
      (fuel : ℕ) (s : List ℕ)
      → All (λ b. b < 128) s
      → length s ≤ fuel
      → (ids : List ℕ) × (encode_from fuel t s ≡ some ids)
        × (text_of (spell t) ids ≡ s)
        × Cuts t s ids
  unfolding encode_from text_of
  encode_from-text fuel [] a k = ([], refl, refl, ended)
  encode_from-text zero (c ∷ s) a k = absurd (omega arith)
  encode_from-text (suc fuel) (c ∷ s) a k =
      next (first_added t.added_tokens (c ∷ s) none)
        (first_added-Found (IsAdded t) t.added_tokens (c ∷ s) none added tt)
        (first_added-Beaten t.added_tokens (c ∷ s) none) (λ rest. encode_from-text fuel rest)
    where
      next :
          (o : Option (ℕ × AddedToken))
          → Found (IsAdded t) (c ∷ s) o
          → All (Beaten (c ∷ s) o) t.added_tokens
          → ((rest : List ℕ)
              → All (λ b. b < 128) rest
              → length rest ≤ fuel
              → (ids : List ℕ) × (encode_from fuel t rest ≡ some ids)
                × (text_of (spell t) ids ≡ rest)
                × Cuts t rest ids)
          → (ids : List ℕ) × (encode_next t (encode_from fuel t) (c ∷ s) o ≡ some ids)
            × (text_of (spell t) ids ≡ c ∷ s)
            × Cuts t (c ∷ s) ids
      next none found unbeaten again =
          let (ids, done, spelt) = encode_chunk-text (c ∷ s) a in
          (ids, done, spelt, plain (c ∷ s) ids unbeaten done)
      next (some (at, best)) (fine, stands) unbeaten again =
          let text = c ∷ s in
          let size = length best.content in
          let e = drop-add at size text in
          let (before, after) =
            All-split (λ b. b < 128) (take at text) _ (subst (All (λ b. b < 128)) stands a) in
          let (_, last) = All-split (λ b. b < 128) best.content _ after in
          let (ids, done, spelt) = encode_chunk-text (take at text) before in
          let (ids', done', spelt', later) =
            again (drop (at + size) text) (subst (All (λ b. b < 128)) (sym e) last)
              (omega (arith, length-drop (at + size) text, fine.content, k)) in
          (
            ids ++ (best.id ∷ ids'),
            rw (done, done') refl,
            text_of-append (spell t) ids (best.id ∷ ids')
                ∙ (ap₂ ◌++◌ spelt (
                      ap₂ ◌++◌
                        (spell-decode_token t h best.id best.content (decode_token-added best fine))
                        (spelt' ∙ e))
                    ∙ sym stands),
            cut at best text ids ids' fine stands unbeaten done later,
          )

  -- With a byte-level vocabulary whose added tokens have some content, `encode` ends for every ASCII
  -- text, and the decoding of its ids is the text. The ids cut the text: at the first place where
  -- any added token occurs stands the id of one that occurs there, none that begins there being
  -- longer, after the ids of the text before it and before those of the text behind it, which is cut
  -- likewise; and text in which no added token occurs is encoded without one.
  pub decode-encode_ascii :
      (text : List ℕ)
      → All (λ b. b < 128) text
      → (ids : List ℕ) × (encode t text ≡ some ids) × Cuts t text ids × (decode t ids ≡ some text)
  unfolding encode
  decode-encode_ascii text a =
      let (ids, done, spelt, cuts) = encode_from-text (length text) text a (omega arith) in
      (ids, done, cuts, decode-text_of t h ids ∙ ap some spelt)
