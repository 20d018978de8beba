-- ===== src/Server/Stream.antt =====
-- src/api/server.cpp, `Stream` and `Utf8Buffer`: the channel from the engine to a client, and the
-- buffer that keeps a character whole.
--
-- `pop` waits while the queue is empty; here that is `none`. The mutex makes each call one step.
use llm_engine.Base.{
  ℕ, zero, suc, ◌+◌, Bool, true, false, List, [], ◌∷◌, ◌++◌, Option, none, some, if◌then◌else◌, ltb,
  leb, ◌||◌, length, take, drop, get_or,
}
use llm_engine.Sequence.{FinishReason}

-- `none` is the token -1, with the reason for the end.
abbrev pub Message : Type 0
Message = Option ℕ × FinishReason

pub record Stream : Type 0 where
  pub q : List Message
  pub closed : Bool

abbrev pub empty_stream : Stream
empty_stream = record { q = []; closed = false }

abbrev is_end : Option ℕ → Bool
is_end none = true
is_end (some t) = false

unfoldable pub push : Stream → Message → Stream
push s (t, r) = record { q = s.q ++ ((t, r) ∷ []); closed = s.closed || is_end t }

unfoldable pub pop : Stream → Option (Message × Stream)
pop s = elim s.q [ [] ↦ none | m ∷ q ↦ some (m, record s { q = q }) ]

-- What a leading byte says of its length.
abbrev pub char_len : ℕ → ℕ
char_len c =
    if ltb c 0x80
    then 1
    else if leb 0xF0 c
    then 4
    else if leb 0xE0 c
    then 3
    else if leb 0xC0 c
    then 2
    else 1

-- `valid`, from its value so far.
unfoldable pub valid_from : ℕ → List ℕ → ℕ → ℕ
valid_from zero pending valid = valid
valid_from (suc fuel) pending valid =
    let len = char_len (get_or pending valid 0) in
    let rest = valid_from fuel pending (valid + len) in
    if ltb valid (length pending)
    then if ltb (length pending) (valid + len) then valid else rest
    else valid

-- The bytes to send, and the pending ones.
unfoldable pub push_bytes : List ℕ → List ℕ → List ℕ × List ℕ
unfolding valid_from
push_bytes pending bytes =
    let all = pending ++ bytes in
    let valid = valid_from (length all) all 0 in (take valid all, drop valid all)
