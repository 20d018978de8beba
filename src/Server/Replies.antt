-- ===== src/Server/Replies.antt =====
-- src/api/server.cpp, `handle`: which status a client gets, and why.
use llm_engine.Base.{
  ℕ, ◌≤◌, ◌<◌, ◌≡◌, ◌≢◌, ◌⊎◌, Bool, true, false, List, [], Option, none, some, length,
}
use llm_engine.Sequence.{SamplingParams}
use llm_engine.Tokenizer.Vocab.{Tokenizer}
use llm_engine.Engine.Defs.{Engine, Verdict, SubmitStatus, SubmitResult, refused, new_sequence}
use llm_engine.Server.Handle.{
  Body, Reply, Server, Others, parse_params, read_prompt, count_invalid, count_draining, submitted,
  verdict,
}

-- The three answers of `submit`.
abbrev Outcome : Engine → List ℕ → SamplingParams → SubmitResult → Type 0
Outcome e prompt params r =
    ((e.accepting ≡ false) × (r ≡ refused SubmitStatus.draining 0))
    ⊎ ((0 < e.max_queue_depth)
        × (e.max_queue_depth ≤ e.queued)
        × (r ≡ refused SubmitStatus.overloaded 1))
    ⊎ ((e.accepting ≡ true)
        × (r ≡ record {
          status = SubmitStatus.accepted;
          seq = some (new_sequence e prompt params true);
          retry_after_seconds = 0;
        }))

module _ (o : Others) (t : Tokenizer) (chat : Bool) (body : Option Body) (s : Server) where
  -- Neither the server nor the engine drains.
  abbrev Open : Type 0
  Open = (s.accepting ≡ true) × (s.host.engine.accepting ≡ true)

  -- Nobody drains, and the body is JSON with a prompt that is not empty.
  abbrev Asks : Body → List ℕ → Type 0
  Asks b prompt =
      Open × (body ≡ some b) × (read_prompt t chat b ≡ some prompt) × (0 < length prompt)

  -- The answers, with the state that each leaves.
  pub data Replied : Reply × Server → Type 0 where
    draining :
        (s.accepting ≡ false) ⊎ (s.host.engine.accepting ≡ false)
        → Replied (Reply.error 503 none, s)
    no_json : Open → body ≡ none → Replied (Reply.error 400 none, s)
    no_prompt :
        (b : Body)
        → Open
        → body ≡ some b
        → read_prompt t chat b ≡ none
        → Replied (Reply.error 400 none, s)
    empty :
        (b : Body)
        → Open
        → body ≡ some b
        → read_prompt t chat b ≡ some []
        → Replied (Reply.error 400 none, s)
    invalid :
        (b : Body) (prompt : List ℕ)
        → Asks b prompt
        → verdict s prompt b ≢ Verdict.runs
        → Replied (Reply.error 400 none, count_invalid s)
    died :
        (b : Body) (prompt : List ℕ)
        → Asks b prompt
        → verdict s prompt b ≡ Verdict.runs
        → (submitted o prompt (parse_params b) s).host.fatal_error ≡ true
        → Replied (Reply.error 503 none, submitted o prompt (parse_params b) s)
    overloaded :
        (b : Body) (prompt : List ℕ)
        → Asks b prompt
        → verdict s prompt b ≡ Verdict.runs
        → 0 < (o.before s.host).engine.max_queue_depth
        → (o.before s.host).engine.max_queue_depth ≤ (o.before s.host).engine.queued
        → Replied (Reply.error 429 (some 1), submitted o prompt (parse_params b) s)
    turned_away :
        (b : Body) (prompt : List ℕ)
        → Asks b prompt
        → verdict s prompt b ≡ Verdict.runs
        → (o.before s.host).engine.accepting ≡ false
        → Replied (Reply.error 503 none, count_draining (submitted o prompt (parse_params b) s))
    taken :
        (b : Body) (prompt : List ℕ)
        → Asks b prompt
        → verdict s prompt b ≡ Verdict.runs
        → (o.before s.host).engine.accepting ≡ true
        → (submitted o prompt (parse_params b) s).host.fatal_error ≡ false
        → Replied (
          Reply.accepted
              (some (new_sequence (o.before s.host).engine prompt (parse_params b) true))
              b.stream,
          submitted o prompt (parse_params b) s,
        )
