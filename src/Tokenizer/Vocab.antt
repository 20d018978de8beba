-- ===== src/Tokenizer/Vocab.antt =====
-- include/engine/tokenizer.h and src/tokenizer/tokenizer.cpp: the tables of the constructor, and
-- decoding. A string is the list of its bytes; a token id is not negative.
use llm_engine.Base.{
  ℕ, zero, suc, ◌+◌, ◌-◌, ◌*◌, Bool, true, false, List, [], ◌∷◌, ◌++◌, Option, none, some,
  if◌then◌else◌, ltb, leb, ◌==◌, ◌&&◌, ◌||◌, length, take, drop, get_or, get_elem?,
}
use llm_engine.Base.Options.{◌>>=◌}
use llm_engine.Tokenizer.Merge.{Merges}
use llm_engine.Tokenizer.Split.{Tables}
use llm_engine.Tokenizer.Utf8.{utf8_decode, utf8_encode}

pub data TokenizerFamily : Type 0 where
  byte_level metaspace : TokenizerFamily

pub record AddedToken : Type 0 where
  pub content : List ℕ
  pub id : ℕ

pub record Tokenizer : Type 0 where
  pub tables : Tables
  pub token_to_id : List ℕ → Option ℕ
  pub id_to_token : List (List ℕ)
  pub merges : Merges
  -- longest first
  pub added_tokens : List AddedToken
  pub family : TokenizerFamily
  -- `none` is -1
  pub byte_fallback : ℕ → Option ℕ
  pub unk_id : Option ℕ
  pub bos_id : Option ℕ
  pub prepend_bos : Bool
  pub chatml : Bool

unfoldable pub str_eq : List ℕ → List ℕ → Bool
str_eq [] [] = true
str_eq (x ∷ xs) (y ∷ ys) = x == y && str_eq xs ys
str_eq [] (y ∷ ys) = false
str_eq (x ∷ xs) [] = false

-- The bytes that stand for themselves.
abbrev pub is_listed : ℕ → Bool
is_listed b = leb 0x21 b && leb b 0x7E || leb 0xA1 b && leb b 0xAC || leb 0xAE b && leb b 0xFF

-- How many bytes below `b` do not: the value of `n` when the loop reaches `b`.
unfoldable pub unlisted : ℕ → ℕ
unlisted zero = 0
unlisted (suc b) = (if is_listed b then 0 else 1) + unlisted b

unfoldable pub placeholder : ℕ → ℕ
unfolding unlisted
placeholder b = if is_listed b then b else 256 + unlisted b

unfoldable pub byte_to_unicode : ℕ → List ℕ
unfolding placeholder
byte_to_unicode b = utf8_encode (placeholder b)

-- The bytes below `n` whose symbol this is.
unfoldable pub find_byte : ℕ → List ℕ → Option ℕ
unfolding byte_to_unicode str_eq
find_byte zero s = none
find_byte (suc n) s =
    let rest = find_byte n s in if str_eq (byte_to_unicode n) s then some n else rest

unfoldable pub unicode_to_byte : List ℕ → Option ℕ
unfolding find_byte
unicode_to_byte s = find_byte 256 s

unfoldable pub is_added : List AddedToken → ℕ → Bool
is_added [] id = false
is_added (a ∷ as') id = a.id == id || is_added as' id

-- `: '?'`
abbrev or_question : Option ℕ → ℕ
or_question none = 63
or_question (some b) = b

-- The characters of a byte-level token, one byte for each.
unfoldable pub symbol_bytes : ℕ → List ℕ → List ℕ
unfolding unicode_to_byte
symbol_bytes zero s = []
symbol_bytes (suc fuel) [] = []
symbol_bytes (suc fuel) (c ∷ s) =
    let len = (utf8_decode (c ∷ s)).0 in
    or_question (unicode_to_byte (take len (c ∷ s))) ∷ symbol_bytes fuel (drop len (c ∷ s))

abbrev pub is_hex : ℕ → Bool
is_hex c = leb 48 c && leb c 57 || leb 65 c && leb c 70 || leb 97 c && leb c 102

abbrev pub hex_digit : ℕ → ℕ
hex_digit c = if ltb c 58 then c - 48 else if ltb c 71 then c - 55 else c - 87

-- `std::stoi` of two digits; `none` is its exception. Of what else it reads, signs, spaces and one
-- digit, no vocabulary makes use.
unfoldable pub hex_byte : ℕ → ℕ → Option ℕ
hex_byte a b = if is_hex a && is_hex b then some (16 * hex_digit a + hex_digit b) else none

-- `<0xNN>`
abbrev pub is_byte_token : List ℕ → Bool
is_byte_token tok =
    length tok == 6
    && get_or tok 0 0 == 0x3C
    && get_or tok 1 0 == 0x30
    && get_or tok 2 0 == 0x78
    && get_or tok 5 0 == 0x3E

-- U+2581 becomes a space.
unfoldable pub unmark : List ℕ → List ℕ
unmark (a ∷ b ∷ c ∷ s) =
    let after = unmark s in
    let next = unmark (b ∷ c ∷ s) in
    if a == 0xE2 && b == 0x96 && c == 0x81 then 0x20 ∷ after else a ∷ next
unmark s = s

-- A token that the vocabulary has and that is no added one.
unfoldable pub token_bytes : TokenizerFamily → List ℕ → Option (List ℕ)
unfolding symbol_bytes hex_byte unmark
token_bytes TokenizerFamily.metaspace tok =
    if is_byte_token tok
    then elim (hex_byte (get_or tok 3 0) (get_or tok 4 0)) [ none ↦ none | some b ↦ some (b ∷ []) ]
    else some (unmark tok)
token_bytes TokenizerFamily.byte_level tok = some (symbol_bytes (length tok) tok)

-- By the string that the vocabulary has for the id, if it has one.
unfoldable pub decode_stored : Tokenizer → ℕ → Option (List ℕ) → Option (List ℕ)
unfolding token_bytes is_added
decode_stored t id none = some []
decode_stored t id (some tok) =
    if is_added t.added_tokens id then some tok else token_bytes t.family tok

unfoldable pub decode_token : Tokenizer → ℕ → Option (List ℕ)
unfolding decode_stored
decode_token t id = decode_stored t id (get_elem? t.id_to_token id)

unfoldable pub decode_tokens : Tokenizer → List ℕ → Option (List ℕ)
decode_tokens t [] = some []
decode_tokens t (id ∷ ids) = do s ← decode_token t id; rest ← decode_tokens t ids; some (s ++ rest)

-- One leading space is the normaliser's.
abbrev pub strip_space : List ℕ → List ℕ
strip_space [] = []
strip_space (c ∷ s) = if c == 0x20 then s else c ∷ s

unfoldable pub finish_text : TokenizerFamily → List ℕ → List ℕ
finish_text TokenizerFamily.metaspace out = strip_space out
finish_text TokenizerFamily.byte_level out = out

unfoldable pub decode : Tokenizer → List ℕ → Option (List ℕ)
unfolding decode_tokens finish_text
decode t ids = do out ← decode_tokens t ids; some (finish_text t.family out)
