-- ===== src/Server/Streaming.antt =====
-- src/api/server.cpp: the chunks of a streamed answer, against the answer given at once.
use llm_engine.Base.{
  ℕ, ◌≡◌, refl, sym, ap, ◌∙◌, Bool, true, false, List, [], ◌∷◌, ◌++◌, none, some, length, All,
  subst,
}
use llm_engine.Sequence.{FinishReason}
use llm_engine.Tokenizer.Rounds.{text_of, append_assoc}
use llm_engine.Tokenizer.Spelling.{IsByteLevel, spell, decode_token-spell, decode-text_of}
use llm_engine.Tokenizer.Vocab.{Tokenizer, decode}
use llm_engine.Server.Stream.{Message, push_bytes}
use llm_engine.Server.Utf8.{Partial, no_byte, push_bytes-Whole}
use llm_engine.Server.Boundary.{Scalar, Whole-Boundary, Partial-none}
use llm_engine.Server.Completion.{
  Chunk, Sent, collect, write_completion, complete_with, complete, write_piece, provide, stream_all,
}
use llm_engine.Tokenizer.Utf8.{encode_all}
use mathlib.Core.Option.{some-injective}

-- What a channel brings of a request: its tokens, and the end.
unfoldable pub messages : List ℕ → FinishReason → List Message
messages [] r = (none, r) ∷ []
messages (tok ∷ toks) r = (some tok, FinishReason.unfinished) ∷ messages toks r

unfoldable pub texts : List Chunk → List ℕ
texts [] = []
texts (c ∷ cs) = c.text ++ texts cs

append-nil : (xs : List ℕ) → xs ++ [] ≡ xs
append-nil [] = refl
append-nil (x ∷ xs) = ap (λ l. x ∷ l) (append-nil xs)

-- The JSON library writes the UTF-8 text of characters.
abbrev pub Writes : (List ℕ → Bool) → Type 0
Writes dumps = (cps : List ℕ) → All Scalar cps → dumps (encode_all cps) ≡ true

module _ (dumps : List ℕ → Bool) (writes : Writes dumps) (t : Tokenizer) (h : IsByteLevel t)
    (r : FinishReason) where
  collect-messages : (toks out : List ℕ) → collect (messages toks r) out ≡ some (out ++ toks, r)
  unfolding collect messages
  collect-messages [] out = rw (append-nil out) refl
  collect-messages (tok ∷ toks) out =
      collect-messages toks (out ++ (tok ∷ []))
      ∙ ap (λ (l : List ℕ). some (l, r)) (append_assoc out (tok ∷ []) toks)

  written : (text cps : List ℕ) → All Scalar cps → text ≡ encode_all cps → dumps text ≡ true
  written text cps a e = subst (λ l. dumps l ≡ true) (sym e) (writes cps a)

  -- The chunks of a stream, from the bytes that the buffer keeps on.
  pub record Streamed (chat : Bool) (pending toks : List ℕ) : Type 0 where
    pub chunks : List Chunk
    pub done : stream_all dumps t chat pending (messages toks r) ≡ Sent.sent chunks
    pub same : texts chunks ≡ pending ++ text_of (spell t) toks

  last-Streamed :
      (chat : Bool) (pending cps : List ℕ)
      → Partial pending
      → All Scalar cps
      → pending ≡ encode_all cps
      → Streamed chat pending []
  unfolding stream_all messages texts provide text_of
  last-Streamed true pending cps p a e = record {
    chunks = record { text = []; finish_reason = some r } ∷ [];
    done = refl;
    same = sym (append-nil pending ∙ Partial-none pending cps p a e);
  }
  last-Streamed false pending cps p a e = record {
    chunks = record { text = pending; finish_reason = some r } ∷ [];
    done = rw (written pending cps a e) refl;
    same = refl;
  }

  stream-Streamed :
      (chat : Bool) (toks pending cps : List ℕ)
      → Partial pending
      → All Scalar cps
      → pending ++ text_of (spell t) toks ≡ encode_all cps
      → Streamed chat pending toks
  unfolding stream_all messages texts provide write_piece text_of
  stream-Streamed chat [] pending cps p a e =
      last-Streamed chat pending cps p a (sym (append-nil pending) ∙ e)
  stream-Streamed chat (tok ∷ toks) pending cps p a e =
      let (piece, kept) = push_bytes pending (spell t tok) in
      let (whole, part, _, split) = push_bytes-Whole pending (spell t tok) in
      let later = text_of (spell t) toks in
      let all : piece ++ (kept ++ later) ≡ pending ++ (spell t tok ++ later) =
        sym (append_assoc piece kept later)
        ∙ ap (λ l. l ++ later) split
        ∙ append_assoc pending (spell t tok) later in
      let b = Whole-Boundary piece (kept ++ later) cps whole a (all ∙ e) in
      let rest = stream-Streamed chat toks kept b.left part b.left_scalar b.back in
      record {
        chunks = record { text = piece; finish_reason = none } ∷ rest.chunks;
        done =
            rw (decode_token-spell t h tok, written piece b.done b.done_scalar b.front, rest.done)
              refl;
        same = ap (λ l. piece ++ l) rest.same ∙ all;
      }

  -- With a byte-level vocabulary, any tables, tokens whose decoding is UTF-8 text of whole
  -- characters, and a JSON library that writes all such text: the answer given at once is sent, has
  -- the text and counts the tokens; the stream is sent too, and the texts of its chunks, put
  -- together, are the same text.
  pub stream-complete :
      (chat : Bool) (prompt_tokens : ℕ) (toks cps : List ℕ)
      → All Scalar cps
      → decode t toks ≡ some (encode_all cps)
      → (chunks : List Chunk) × (complete dumps t prompt_tokens (messages toks r)
          ≡ Sent.sent (record {
            text = encode_all cps;
            finish_reason = r;
            prompt_tokens = prompt_tokens;
            completion_tokens = length toks;
          }))
        × (stream_all dumps t chat [] (messages toks r) ≡ Sent.sent chunks)
        × (texts chunks ≡ encode_all cps)
  unfolding complete complete_with write_completion
  stream-complete chat prompt_tokens toks cps a e =
      let text : text_of (spell t) toks ≡ encode_all cps =
        some-injective _ _ (sym (decode-text_of t h toks) ∙ e) in
      let s = stream-Streamed chat toks [] cps no_byte a text in
      (s.chunks, rw (collect-messages toks [], e, writes cps a) refl, s.done, s.same ∙ text)
