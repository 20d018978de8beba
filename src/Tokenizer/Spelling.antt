-- ===== src/Tokenizer/Spelling.antt =====
-- src/tokenizer/tokenizer.cpp, the byte-level family: what the tokens of a text decode to.
use llm_engine.Base.{
  ℕ, ◌^◌, ◌<◌, ◌≡◌, refl, sym, ap, ap₂, ◌∙◌, subst, false, List, [], ◌∷◌, ◌++◌, Option, none, some,
  length, get_elem?, All, arith, Bool-cases, inl, inr,
}
use llm_engine.Tokenizer.Merge.{Merge, int32_max, IsMerges, bpe_merge}
use llm_engine.Tokenizer.Rounds.{text_of, append_assoc}
use llm_engine.Tokenizer.Merged.{bpe_merge-Merged}
use llm_engine.Tokenizer.Pieces.{concat}
use llm_engine.Tokenizer.Utf8.{utf8_encode, encode_all, pre_tokenize}
use llm_engine.Tokenizer.Texts.{pre_tokenize-concat}
use llm_engine.Tokenizer.Symbols.{symbols, symbol_bytes-symbols}
use llm_engine.Tokenizer.Vocab.{
  Tokenizer, TokenizerFamily, byte_to_unicode, is_added, symbol_bytes, decode_stored, token_bytes,
  decode_token, decode_tokens, decode,
}
use llm_engine.Tokenizer.Encode.{symbol_ids, bpe, bpe_words, encode_byte_level}

-- The vocabulary stores the token as the symbols of these bytes, and it is no added one.
pub record Spelled (t : Tokenizer) (id : ℕ) (bs : List ℕ) : Type 0 where
  pub stored : get_elem? t.id_to_token id ≡ some (symbols bs)
  pub plain : is_added t.added_tokens id ≡ false
  pub bytes : All (λ b. b < 256) bs

-- A byte-level vocabulary, as the constructor reads it: each byte has its symbol, and a merge joins
-- two tokens into the one that is stored as both.
pub record IsByteLevel (t : Tokenizer) : Type 0 where
  pub family : t.family ≡ TokenizerFamily.byte_level
  pub bytes :
      (b : ℕ)
      → b < 256
      → (id : ℕ) × (t.token_to_id (byte_to_unicode b) ≡ some id) × Spelled t id (b ∷ [])
  pub ranked : (x y : ℕ) (g : Merge) → t.merges x y ≡ some g → g.rank < int32_max
  pub merged :
      (x y : ℕ) (g : Merge)
      → t.merges x y ≡ some g
      → (a : List ℕ) × (c : List ℕ) × Spelled t x a × Spelled t y c × Spelled t g.id (a ++ c)

abbrev or_empty : Option (List ℕ) → List ℕ
or_empty none = []
or_empty (some s) = s

-- The text of a token.
unfoldable pub spell : Tokenizer → ℕ → List ℕ
spell t id = or_empty (decode_token t id)

pub All-split : (P : ℕ → Type 0) (xs ys : List ℕ) → All P (xs ++ ys) → All P xs × All P ys
All-split P [] ys a = (tt, a)
All-split P (x ∷ xs) ys (p, a) = let (b, c) = All-split P xs ys a in ((p, b), c)

All-join : (P : ℕ → Type 0) (xs ys : List ℕ) → All P xs → All P ys → All P (xs ++ ys)
All-join P [] ys a b = b
All-join P (x ∷ xs) ys (p, a) b = (p, All-join P xs ys a b)

pub text_of-append :
    (f : ℕ → List ℕ) (xs ys : List ℕ) → text_of f (xs ++ ys) ≡ text_of f xs ++ text_of f ys
unfolding text_of
text_of-append f [] ys = refl
text_of-append f (x ∷ xs) ys =
    ap (λ l. f x ++ l) (text_of-append f xs ys)
    ∙ sym (append_assoc (f x) (text_of f xs) (text_of f ys))

utf8_encode-bytes : (cp : ℕ) → All (λ b. b < 256) (utf8_encode cp)
unfolding utf8_encode
utf8_encode-bytes cp = ground arith

encode_all-bytes : (cps : List ℕ) → All (λ b. b < 256) (encode_all cps)
unfolding encode_all
encode_all-bytes [] = tt
encode_all-bytes (cp ∷ cps) =
    All-join (λ b. b < 256) (utf8_encode cp) (encode_all cps) (utf8_encode-bytes cp)
      (encode_all-bytes cps)

module _ (t : Tokenizer) (h : IsByteLevel t) where
  decode_token-Spelled : (id : ℕ) (bs : List ℕ) → Spelled t id bs → decode_token t id ≡ some bs
  unfolding decode_token decode_stored token_bytes
  decode_token-Spelled id bs s =
      rw (s.stored, s.plain, h.family)
        (ap some (symbol_bytes-symbols (length (symbols bs)) bs s.bytes (omega arith)))

  pub spell-decode_token : (id : ℕ) (bs : List ℕ) → decode_token t id ≡ some bs → spell t id ≡ bs
  unfolding spell
  spell-decode_token id bs e = rw e refl

  spell-Spelled : (id : ℕ) (bs : List ℕ) → Spelled t id bs → spell t id ≡ bs
  spell-Spelled id bs s = spell-decode_token id bs (decode_token-Spelled id bs s)

  decode_stored-total :
      (id : ℕ) (o : Option (List ℕ)) → (s : List ℕ) × (decode_stored t id o ≡ some s)
  unfolding decode_stored token_bytes
  decode_stored-total id none = ([], refl)
  decode_stored-total id (some tok) = elim (Bool-cases (is_added t.added_tokens id)) [
    | inl raw ↦ (tok, rw raw refl)
    | inr plain ↦ (symbol_bytes (length tok) tok, rw (plain, h.family) refl)
  ]

  pub decode_token-spell : (id : ℕ) → decode_token t id ≡ some (spell t id)
  unfolding decode_token
  decode_token-spell id =
      let (s, e) = decode_stored-total id (get_elem? t.id_to_token id) in
      e ∙ ap some (sym (spell-decode_token id s e))

  pub decode_tokens-text_of : (ids : List ℕ) → decode_tokens t ids ≡ some (text_of (spell t) ids)
  unfolding decode_tokens text_of
  decode_tokens-text_of [] = refl
  decode_tokens-text_of (id ∷ ids) = rw (decode_token-spell id, decode_tokens-text_of ids) refl

  pub decode-text_of : (ids : List ℕ) → decode t ids ≡ some (text_of (spell t) ids)
  unfolding decode
  decode-text_of ids = simp (decode_tokens-text_of ids, h.family) refl

  vocab-IsMerges : IsMerges t.merges (spell t)
  vocab-IsMerges = record {
    ranked = h.ranked;
    spelled = λ x y g e.
        let (a, c, left, right, both) = h.merged x y g e in
        spell-Spelled g.id (a ++ c) both
        ∙ sym (ap₂ ◌++◌ (spell-Spelled x a left) (spell-Spelled y c right));
  }

  -- Each byte has a token.
  symbol_ids-text :
      (word : List ℕ)
      → All (λ b. b < 256) word
      → (ids : List ℕ) × (symbol_ids t word ≡ some ids) × (text_of (spell t) ids ≡ word)
  unfolding symbol_ids text_of
  symbol_ids-text [] a = ([], refl, refl)
  symbol_ids-text (b ∷ word) (small, a) =
      let (id, found, s) = h.bytes b small in
      let (ids, rest, text) = symbol_ids-text word a in
      (id ∷ ids, rw (found, rest) refl, ap₂ ◌++◌ (spell-Spelled id (b ∷ []) s) text)

  bpe-text :
      (word : List ℕ)
      → All (λ b. b < 256) word
      → (ids : List ℕ) × (bpe t word ≡ some ids) × (text_of (spell t) ids ≡ word)
  unfolding bpe
  bpe-text word a =
      let (ids, done, text) = symbol_ids-text word a in
      (
        bpe_merge t.merges ids,
        rw done refl,
        (bpe_merge-Merged t.merges (spell t) vocab-IsMerges ids).0 ∙ text,
      )

  bpe_words-text :
      (ws : List (List ℕ))
      → All (λ b. b < 256) (concat ws)
      → (ids : List ℕ) × (bpe_words t ws ≡ some ids) × (text_of (spell t) ids ≡ concat ws)
  unfolding bpe_words concat text_of
  bpe_words-text [] a = ([], refl, refl)
  bpe_words-text (w ∷ ws) a =
      let (first, rest) = All-split (λ b. b < 256) w (concat ws) a in
      let (ids, done, text) = bpe-text w first in
      let (ids', done', text') = bpe_words-text ws rest in
      (ids ++ ids', rw (done, done') refl, text_of-append (spell t) ids ids' ∙ ap₂ ◌++◌ text text')

  pub encode_byte_level-text :
      (cps : List ℕ)
      → All (λ cp. cp < 2 ^ 21) cps
      → (ids : List ℕ) × (encode_byte_level t (encode_all cps) ≡ some ids)
        × (text_of (spell t) ids ≡ encode_all cps)
  unfolding encode_byte_level
  encode_byte_level-text cps a =
      let whole = pre_tokenize-concat t.tables cps a in
      let (ids, done, text) =
        bpe_words-text (pre_tokenize t.tables (encode_all cps))
          (subst (All (λ b. b < 256)) (sym whole) (encode_all-bytes cps)) in
      (ids, done, text ∙ whole)

  -- With a byte-level vocabulary, `encode_byte_level` finds tokens for the UTF-8 text of any code
  -- points below 2^21, and their decoding is the text.
  pub decode-encode_byte_level :
      (cps : List ℕ)
      → All (λ cp. cp < 2 ^ 21) cps
      → (ids : List ℕ) × (encode_byte_level t (encode_all cps) ≡ some ids)
        × (decode t ids ≡ some (encode_all cps))
  decode-encode_byte_level cps a =
      let (ids, done, text) = encode_byte_level-text cps a in
      (ids, done, decode-text_of ids ∙ ap some text)
