-- ===== src/Server/Completion.antt =====
-- src/api/server.cpp: what a client gets of an accepted request, at once or in chunks.
--
-- The list of messages is what the channel brings, in order. Of a chunk only the text and the finish
-- reason are kept. `dumps` says which texts the JSON library writes: its `dump` throws on others, as does
-- the tokenizer on an unknown token.
use llm_engine.Base.{
  ℕ, Bool, true, false, List, [], ◌∷◌, ◌++◌, Option, none, some, if◌then◌else◌, length, ◌||◌,
}
use llm_engine.Sequence.{FinishReason}
use llm_engine.Tokenizer.Vocab.{Tokenizer, decode_token, decode}
use llm_engine.Server.Stream.{Message, push_bytes}

-- The loop of the answer that is not streamed: the tokens up to the end, and its reason. `none` is a
-- channel that the loop still waits on.
unfoldable pub collect : List Message → List ℕ → Option (List ℕ × FinishReason)
collect [] out = none
collect ((none, r) ∷ q) out = some (out, r)
collect ((some tok, r) ∷ q) out = collect q (out ++ (tok ∷ []))

pub record Completion : Type 0 where
  pub text : List ℕ
  pub finish_reason : FinishReason
  pub prompt_tokens : ℕ
  pub completion_tokens : ℕ

-- A result: what the code still waits for, an exception, or a value.
pub data Sent (A : Type 0) : Type 0 where
  waiting : Sent A
  thrown : Sent A
  sent : A → Sent A

abbrev pub and_then : {A B : Type 0} → Sent A → (A → Sent B) → Sent B
and_then Sent.waiting f = Sent.waiting
and_then Sent.thrown f = Sent.thrown
and_then (Sent.sent a) f = f a

-- The text of all tokens is written.
unfoldable pub write_completion :
    (List ℕ → Bool) → ℕ → List ℕ → FinishReason → Option (List ℕ) → Sent Completion
write_completion dumps prompt_tokens out r none = Sent.thrown
write_completion dumps prompt_tokens out r (some text) =
    if dumps text
    then Sent.sent (record {
      text = text;
      finish_reason = r;
      prompt_tokens = prompt_tokens;
      completion_tokens = length out;
    })
    else Sent.thrown

unfoldable pub complete_with :
    (List ℕ → Bool) → Tokenizer → ℕ → Option (List ℕ × FinishReason) → Sent Completion
unfolding write_completion
complete_with dumps t prompt_tokens none = Sent.waiting
complete_with dumps t prompt_tokens (some (out, r)) =
    write_completion dumps prompt_tokens out r (decode t out)

unfoldable pub complete : (List ℕ → Bool) → Tokenizer → ℕ → List Message → Sent Completion
unfolding collect complete_with
complete dumps t prompt_tokens q = complete_with dumps t prompt_tokens (collect q [])

pub record Chunk : Type 0 where
  pub text : List ℕ
  pub finish_reason : Option FinishReason

-- The chunk of a token.
unfoldable pub write_piece :
    (List ℕ → Bool) → List ℕ → Option (List ℕ) → Sent (Chunk × List ℕ × Bool)
write_piece dumps pending none = Sent.thrown
write_piece dumps pending (some bytes) =
    let (piece, kept) = push_bytes pending bytes in
    if dumps piece
    then Sent.sent (record { text = piece; finish_reason = none }, kept, false)
    else Sent.thrown

-- One call of the content provider, on the bytes that the buffer keeps: the chunk, what the buffer
-- keeps then, and whether the stream is done.
unfoldable pub provide :
    (List ℕ → Bool) → Tokenizer → Bool → List ℕ → Message → Sent (Chunk × List ℕ × Bool)
unfolding write_piece
provide dumps t chat pending (some tok, r) = write_piece dumps pending (decode_token t tok)
provide dumps t chat pending (none, r) =
    if chat || dumps pending
    then Sent.sent
        (record { text = if chat then [] else pending; finish_reason = some r }, [], true)
    else Sent.thrown

-- The calls of the provider until the stream is done.
unfoldable pub stream_all :
    (List ℕ → Bool) → Tokenizer → Bool → List ℕ → List Message → Sent (List Chunk)
stream_all dumps t chat pending [] = Sent.waiting
stream_all dumps t chat pending ((none, r) ∷ q) =
    and_then (provide dumps t chat pending (none, r))
      (λ (chunk, kept, done). Sent.sent (chunk ∷ []))
stream_all dumps t chat pending ((some tok, r) ∷ q) =
    and_then (provide dumps t chat pending (some tok, r)) (λ (chunk, kept, done).
      and_then (stream_all dumps t chat kept q) (λ chunks. Sent.sent (chunk ∷ chunks)))
