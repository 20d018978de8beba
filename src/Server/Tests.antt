-- ===== src/Server/Tests.antt =====
-- Requests to a small server.
use llm_engine.Base.{
  ℕ, ◌≡◌, ◌<◌, true, List, [], ◌∷◌, ◌++◌, none, some, length, Bool, All, ◌^◌, subst, sym, refl, inl,
  arith,
}
use llm_engine.Sequence.{FinishReason}
use llm_engine.Tokenizer.Vocab.{decode}
use llm_engine.Tokenizer.Small.{small, small-IsByteLevel}
use llm_engine.Engine.Sample.{host}
use llm_engine.Server.Stream.{push_bytes}
use llm_engine.Server.Utf8.{Whole, Partial, push_bytes-Whole}
use llm_engine.Server.Completion.{Chunk, Sent, complete, stream_all}
use llm_engine.Server.Streaming.{Writes, messages, texts, stream-complete}
use llm_engine.Server.Boundary.{Scalar}
use llm_engine.Tokenizer.Vocab.{str_eq}
use llm_engine.Tokenizer.Utf8.{encode_all, to_codepoints}
use llm_engine.Tokenizer.Texts.{to_codepoints-encode_all}
use llm_engine.Tokenizer.Encode.{encode_byte_level}
use llm_engine.Tokenizer.Spelling.{decode-encode_byte_level}
use llm_engine.Server.Handle.{Body, PromptField, Server, Others}

abbrev quiet : Others
quiet = record { before = λ h. h; after = λ h. h }

abbrev server : Server
server = record {
  host = host;
  accepting = true;
  model_max = 64;
  requests_rejected_invalid = 0;
  requests_rejected_draining = 0;
}

abbrev body : Body
body = record {
  messages = none;
  has_prompt_token_ids = true;
  prompt_token_ids = some (5 ∷ 6 ∷ []);
  prompt = PromptField.absent;
  stream = true;
  max_tokens = some 4;
  ignore_eos = none;
  stop_token_ids = none;
}

-- The first byte of `é` after an `h`.
push_bytes-Whole_example :
    let (sent, kept) = push_bytes [] (104 ∷ 195 ∷ []) in
    Whole sent × Partial kept × (length kept < 4) × (sent ++ kept ≡ [] ++ (104 ∷ 195 ∷ []))
push_bytes-Whole_example = push_bytes-Whole [] (104 ∷ 195 ∷ [])

-- A library that writes a text if decoding it and encoding it again gives it back.
abbrev dumps : List ℕ → Bool
dumps text = str_eq (encode_all (to_codepoints text)) text

str_eq-same : (s : List ℕ) → str_eq s s ≡ true
unfolding str_eq
str_eq-same [] = refl
str_eq-same (b ∷ s) = ground (arith, str_eq-same s)

Scalar-small : (cps : List ℕ) → All Scalar cps → All (λ cp. cp < 2 ^ 21) cps
Scalar-small [] a = tt
Scalar-small (cp ∷ cps) (s, a) = (omega (arith, s.0), Scalar-small cps a)

dumps-Writes : Writes dumps
dumps-Writes cps a =
    subst (λ l. str_eq (encode_all l) (encode_all cps) ≡ true)
      (sym (to_codepoints-encode_all cps (Scalar-small cps a))) (str_eq-same (encode_all cps))

-- "hé", and its tokens.
abbrev two_letters : List ℕ
two_letters = 104 ∷ 233 ∷ []

spelled :
    (ids : List ℕ) × (encode_byte_level small (encode_all two_letters) ≡ some ids)
    × (decode small ids ≡ some (encode_all two_letters))
spelled =
    decode-encode_byte_level small small-IsByteLevel two_letters (omega arith, (omega arith, tt))

abbrev tokens : List ℕ
tokens = spelled.0

stream-complete_example :
    (chunks : List Chunk) × (complete dumps small 3 (messages tokens FinishReason.length_cap)
      ≡ Sent.sent (record {
        text = encode_all two_letters;
        finish_reason = FinishReason.length_cap;
        prompt_tokens = 3;
        completion_tokens = length tokens;
      }))
    × (stream_all dumps small true [] (messages tokens FinishReason.length_cap) ≡ Sent.sent chunks)
    × (texts chunks ≡ encode_all two_letters)
stream-complete_example =
    stream-complete dumps dumps-Writes small small-IsByteLevel FinishReason.length_cap true 3 tokens
      two_letters ((omega arith, inl (omega arith)), ((omega arith, inl (omega arith)), tt))
      spelled.2
