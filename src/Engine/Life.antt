-- ===== src/Engine/Life.antt =====
-- src/api/engine.cpp: the life of an engine, as its thread's turns and the calls of other threads.
use llm_engine.Base.{
  ℕ, ◌+◌, ◌<◌, ◌≡◌, refl, ap, ◌∙◌, ◌⊎◌, Bool, true, false, if◌then◌else◌, Bool-cases, List, [], ◌∷◌,
  ◌++◌, Option, Checked, ok, ◌>>=◌, length, All, arith, inl, inr,
}
use llm_engine.Sequence.{SamplingParams, StepInput}
use llm_engine.Scheduler.Runs.{Untouched}
use llm_engine.Engine.Defs.{Engine, submit, new_sequence}
use llm_engine.Engine.Inbox.{id_count, id_count-append}
use llm_engine.Engine.Loop.{
  Host, Place, launch, start, stop, drain, join_at, join_thread, drained_at, drained, request_abort,
  turn,
}
use llm_engine.Engine.Serve.{HostSound, HostSound-view, Healthy, OneEach}
use llm_engine.Engine.Turn.{turn-Healthy}

-- What happens to an engine: a turn of its thread, or a call from another one.
pub data Move : Type 0 where
  turns : (StepInput → Option (List ℕ)) → ℕ → Move
  submits : List ℕ → SamplingParams → Bool → Move
  aborts : ℕ → Move
  starts : ℕ → Move
  stops : Move
  drains : Move
  joins : Move
  ends_drain : Move

unfoldable pub move : Host → Move → Checked Host
move h (turns model now) = turn model now h
move h (submits prompt params on_token) =
    ok (record h { engine = (submit h.engine prompt params on_token).1 })
move h (aborts id) = ok (request_abort h id)
move h (starts now) = start now h
move h stops = ok (stop h)
move h drains = ok (drain h)
move h joins = ok (join_thread h)
move h ends_drain = ok (drained h)

-- The server submits prompts that are not empty, the model gives one token for each row, and the engine
-- is started only while it runs, or when there is no thread that was not joined.
abbrev pub Fair : Host → Move → Type 0
Fair h (turns model now) = OneEach model
Fair h (submits prompt params on_token) = 0 < length prompt
Fair h (starts now) = (h.running ≡ true) ⊎ (h.place ≡ Place.joined)
Fair h _ = Unit

All-snoc :
    {A : Type 0} (P : A → Type 0) (xs : List A) (x : A) → All P xs → P x → All P (xs ++ (x ∷ []))
All-snoc P [] x a p = (p, tt)
All-snoc P (y ∷ xs) x (b, a) p = (b, All-snoc P xs x a p)

-- The inbox after a submission.
pub submit-inbox :
    (e : Engine) (prompt : List ℕ) (params : SamplingParams) (on_token : Bool)
    → let e' = (submit e prompt params on_token).1 in
      ((e'.inbox ≡ e.inbox) × (e'.next_id ≡ e.next_id))
      ⊎ ((e'.inbox ≡ e.inbox ++ (new_sequence e prompt params on_token ∷ []))
          × (e'.next_id ≡ e.next_id + 1))
unfolding submit
submit-inbox e prompt params on_token = ground arith

new_sequence-Untouched :
    (e : Engine) (prompt : List ℕ) (params : SamplingParams) (on_token : Bool)
    → 0 < length prompt
    → Untouched (new_sequence e prompt params on_token)
      × ((new_sequence e prompt params on_token).id ≡ e.next_id)
unfolding new_sequence
new_sequence-Untouched e prompt params on_token pos = ((refl, refl, pos), refl)

submit-HostSound :
    {live : List ℕ} {bs : ℕ} (h : Host) (prompt : List ℕ) (params : SamplingParams)
    (on_token : Bool)
    → 0 < length prompt
    → HostSound live bs h
    → HostSound live bs (record h { engine = (submit h.engine prompt params on_token).1 })
unfolding id_count
submit-HostSound {live} {bs} h prompt params on_token pos sound =
    elim (submit-inbox h.engine prompt params on_token) [
      | inl (same, ids) ↦ HostSound-view _ refl same ids sound
      | inr (longer, ids) ↦
          let q = new_sequence h.engine prompt params on_token in
          let (blank, id) = new_sequence-Untouched h.engine prompt params on_token pos in
          let counts = λ (k : ℕ). id_count-append k h.engine.inbox q in
          record {
            sound = sound.sound;
            apart = λ k. rw longer (ground (arith, counts k, sound.apart k, id, sound.older k));
            older = λ k. rw (longer, ids) (λ i. ground (arith, counts k, id, sound.older k, i));
            blank = rw longer (All-snoc Untouched h.engine.inbox q sound.blank blank);
          }
    ]

join_at-HostSound :
    {live : List ℕ} {bs : ℕ} (h : Host) (p : Place)
    → HostSound live bs h
    → HostSound live bs (join_at h p) × HostSound live bs (drained_at h p)
unfolding join_at drained_at
join_at-HostSound h Place.gone s =
    (HostSound-view _ refl refl refl s, HostSound-view _ refl refl refl s)
join_at-HostSound h Place.joined s = (s, HostSound-view _ refl refl refl s)
join_at-HostSound h Place.top s = (s, s)
join_at-HostSound h Place.idle s = (s, s)
join_at-HostSound h Place.releasing s = (s, s)

if_true : {A : Type 0} (b : Bool) (x y : A) → b ≡ true → (if b then x else y) ≡ x
if_true b x y e = rw e refl

if_false : {A : Type 0} (b : Bool) (x y : A) → b ≡ false → (if b then x else y) ≡ y
if_false b x y e = rw e refl

start-HostSound :
    {live : List ℕ} {bs : ℕ} (now : ℕ) (h : Host)
    → (h.running ≡ true) ⊎ (h.place ≡ Place.joined)
    → HostSound live bs h
    → (h' : Host) × (start now h ≡ ok h') × HostSound live bs h'
unfolding start launch
start-HostSound now h fair s = elim (Bool-cases h.running) [
  | inl on ↦ (h, if_true _ _ _ on, s)
  | inr off ↦ elim fair [
    | inl on ↦ absurd (ground (arith, on, off))
    | inr j ↦ (_, if_false _ _ _ off ∙ ap (launch now h) j, HostSound-view _ refl refl refl s)
  ]
]

-- In a healthy engine every fair move succeeds and leaves a healthy engine: requests are submitted and
-- cancelled, the thread takes its turns, fails or is stopped, in any order.
pub move-Healthy :
    {bs : ℕ} (h : Host) (m : Move)
    → Fair h m
    → Healthy bs h
    → (h' : Host) × (move h m ≡ ok h') × Healthy bs h'
unfolding move stop drain drained join_thread request_abort
move-Healthy h (turns model now) fair healthy = turn-Healthy model now h fair healthy
move-Healthy h (submits prompt params on_token) fair (live, sound) =
    (_, refl, (live, submit-HostSound h prompt params on_token fair sound))
move-Healthy h (aborts id) fair (live, sound) =
    (_, refl, (live, HostSound-view _ refl refl refl sound))
move-Healthy {bs} h (starts now) fair (live, sound) =
    let (h', done, s) = start-HostSound now h fair sound in (h', done, (live, s))
move-Healthy h stops fair (live, sound) = (_, refl, (live, HostSound-view _ refl refl refl sound))
move-Healthy h drains fair (live, sound) = (_, refl, (live, HostSound-view _ refl refl refl sound))
move-Healthy h joins fair (live, sound) = (_, refl, (live, (join_at-HostSound h h.place sound).0))
move-Healthy h ends_drain fair (live, sound) =
    (_, refl, (live, (join_at-HostSound h h.place sound).1))

-- A sequence of moves.
unfoldable pub moves : List Move → Host → Checked Host
moves [] h = ok h
moves (m ∷ ms) h = do h' ← move h m; moves ms h'

-- Each move is fair in the state that it is made in.
abbrev pub FairRun : List Move → Host → Type 0
FairRun [] h = Unit
FairRun (m ∷ ms) h = Fair h m × ((h' : Host) → move h m ≡ ok h' → FairRun ms h')

-- From a healthy engine every sequence of fair moves runs through without a failed assertion, and
-- without std::terminate, to a healthy engine: submissions of prompts that are not empty, each as
-- one step, cancellations, starts, stops, drains, the joins at their ends, and turns of the thread,
-- with a model that throws or gives one token for each row of logits, in any order. A start is fair
-- while the engine runs, or when it has no thread that was not joined. Healthy means that the
-- scheduler and the pool behind it are sound for the requests pulled in so far, and that the inbox
-- holds other requests, with new ids, that have no block yet.
pub moves-Healthy :
    {bs : ℕ} (ms : List Move) (h : Host)
    → FairRun ms h
    → Healthy bs h
    → (h' : Host) × (moves ms h ≡ ok h') × Healthy bs h'
unfolding moves
moves-Healthy [] h fair healthy = (h, refl, healthy)
moves-Healthy (m ∷ ms) h (fair, rest) healthy =
    let (h1, done, healthy1) = move-Healthy h m fair healthy in
    let (h2, done2, healthy2) = moves-Healthy ms h1 (rest h1 done) healthy1 in
    (h2, rw done done2, healthy2)
