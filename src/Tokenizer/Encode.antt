-- ===== src/Tokenizer/Encode.antt =====
-- src/tokenizer/tokenizer.cpp: encoding, and the chat template.
--
-- `none` is the exception for a byte symbol that the vocabulary misses, and a loop over a text whose
-- fuel runs out.
use llm_engine.Base.{
  ℕ, zero, suc, ◌+◌, Bool, true, false, List, [], ◌∷◌, ◌++◌, Option, none, some, if◌then◌else◌, ltb,
  ◌==◌, ◌&&◌, ◌||◌, length, take, drop,
}
use llm_engine.Base.Options.{◌>>=◌}
use llm_engine.Tokenizer.Merge.{bpe_merge}
use llm_engine.Tokenizer.Utf8.{utf8_decode, pre_tokenize}
use llm_engine.Tokenizer.Vocab.{Tokenizer, TokenizerFamily, AddedToken, byte_to_unicode}

unfoldable pub symbol_ids : Tokenizer → List ℕ → Option (List ℕ)
symbol_ids t [] = some []
symbol_ids t (b ∷ word) = do
  id ← t.token_to_id (byte_to_unicode b)
  ids ← symbol_ids t word
  some (id ∷ ids)

unfoldable pub bpe : Tokenizer → List ℕ → Option (List ℕ)
unfolding symbol_ids
bpe t word = do ids ← symbol_ids t word; some (bpe_merge t.merges ids)

unfoldable pub bpe_words : Tokenizer → List (List ℕ) → Option (List ℕ)
unfolding bpe
bpe_words t [] = some []
bpe_words t (w ∷ ws) = do ids ← bpe t w; rest ← bpe_words t ws; some (ids ++ rest)

unfoldable pub encode_byte_level : Tokenizer → List ℕ → Option (List ℕ)
unfolding bpe_words
encode_byte_level t text = bpe_words t (pre_tokenize t.tables text)

abbrev pub meta : List ℕ
meta = 0xE2 ∷ 0x96 ∷ 0x81 ∷ []

unfoldable pub normalise : List ℕ → List ℕ
normalise [] = []
normalise (c ∷ text) = (if c == 0x20 then meta else c ∷ []) ++ normalise text

-- The ids of the bytes that have a token of their own.
unfoldable pub fallback_ids : Tokenizer → List ℕ → List ℕ
fallback_ids t [] = []
fallback_ids t (b ∷ ch) = elim (t.byte_fallback b) [
  | none ↦ fallback_ids t ch
  | some id ↦ id ∷ fallback_ids t ch
]

abbrev unknown : Tokenizer → List ℕ
unknown t = elim t.unk_id [ none ↦ [] | some id ↦ id ∷ [] ]

unfoldable pub character_ids : Tokenizer → List ℕ → List ℕ
unfolding fallback_ids
character_ids t ch = elim (t.token_to_id ch) [
  | some id ↦ id ∷ []
  | none ↦ elim (fallback_ids t ch) [ [] ↦ unknown t | id ∷ ids ↦ id ∷ ids ]
]

unfoldable pub characters : ℕ → Tokenizer → List ℕ → List ℕ
unfolding character_ids
characters zero t s = []
characters (suc fuel) t [] = []
characters (suc fuel) t (c ∷ s) =
    let len = (utf8_decode (c ∷ s)).0 in
    character_ids t (take len (c ∷ s)) ++ characters fuel t (drop len (c ∷ s))

unfoldable pub encode_metaspace : Tokenizer → List ℕ → List ℕ
unfolding normalise characters
encode_metaspace t text =
    let norm = meta ++ normalise text in bpe_merge t.merges (characters (length norm) t norm)

unfoldable pub starts_with : List ℕ → List ℕ → Bool
starts_with [] s = true
starts_with (x ∷ xs) [] = false
starts_with (x ∷ xs) (y ∷ ys) = x == y && starts_with xs ys

-- `find`: the position of the first occurrence.
unfoldable pub find : List ℕ → List ℕ → Option ℕ
unfolding starts_with
find needle [] = if starts_with needle [] then some 0 else none
find needle (c ∷ s) =
    let later = find needle s in
    if starts_with needle (c ∷ s)
    then some 0
    else elim later [ none ↦ none | some k ↦ some (suc k) ]

-- The first added token in the text, the longest of those at that position.
abbrev pub is_better : ℕ → AddedToken → ℕ × AddedToken → Bool
is_better at a (best_at, best) =
    ltb at best_at || at == best_at && ltb (length best.content) (length a.content)

abbrev pub choose : Option ℕ → AddedToken → Option (ℕ × AddedToken) → Option (ℕ × AddedToken)
choose none a best = best
choose (some at) a none = some (at, a)
choose (some at) a (some best) = if is_better at a best then some (at, a) else some best

unfoldable pub first_added :
    List AddedToken → List ℕ → Option (ℕ × AddedToken) → Option (ℕ × AddedToken)
unfolding find
first_added [] s best = best
first_added (a ∷ as') s best = first_added as' s (choose (find a.content s) a best)

unfoldable pub encode_family : TokenizerFamily → Tokenizer → List ℕ → Option (List ℕ)
unfolding encode_byte_level encode_metaspace
encode_family TokenizerFamily.byte_level t chunk = encode_byte_level t chunk
encode_family TokenizerFamily.metaspace t chunk = some (encode_metaspace t chunk)

-- `if (end > pos)`
unfoldable pub encode_chunk : Tokenizer → List ℕ → Option (List ℕ)
unfolding encode_family
encode_chunk t [] = some []
encode_chunk t (c ∷ chunk) = encode_family t.family t (c ∷ chunk)

-- The chunk before the added token, its id, and the rest.
unfoldable pub encode_next :
    Tokenizer → (List ℕ → Option (List ℕ)) → List ℕ → Option (ℕ × AddedToken) → Option (List ℕ)
unfolding encode_chunk
encode_next t encode_rest s none = encode_chunk t s
encode_next t encode_rest s (some (at, best)) = do
  ids ← encode_chunk t (take at s)
  rest ← encode_rest (drop (at + length best.content) s)
  some (ids ++ (best.id ∷ rest))

-- The argument is `text.substr(pos)`.
unfoldable pub encode_from : ℕ → Tokenizer → List ℕ → Option (List ℕ)
unfolding first_added encode_next
encode_from fuel t [] = some []
encode_from zero t (c ∷ s) = none
encode_from (suc fuel) t (c ∷ s) =
    encode_next t (encode_from fuel t) (c ∷ s) (first_added t.added_tokens (c ∷ s) none)

unfoldable pub encode : Tokenizer → List ℕ → Option (List ℕ)
unfolding encode_from
encode t text = encode_from (length text) t text

unfoldable pub encode_for_generation : Tokenizer → List ℕ → Option (List ℕ)
unfolding encode
encode_for_generation t text = do
  body ← encode t text
  some ((if t.prepend_bos then elim t.bos_id [ none ↦ [] | some id ↦ id ∷ [] ] else []) ++ body)
