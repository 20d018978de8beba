-- ===== src/Engine/Tests.antt =====
-- Submissions to a small engine, and its life.
use llm_engine.Base.{
  ℕ, ◌≡◌, ◌↔◌, refl, true, false, List, [], ◌∷◌, Option, none, some, ok, arith, if◌then◌else◌, ◌==◌,
  inr,
}
use llm_engine.KvCache.{fresh_pool}
use llm_engine.Sequence.{StepInput}
use llm_engine.Scheduler.Runs
use llm_engine.Scheduler.Runs.{start-Sound, Untouched}
use llm_engine.Engine.Defs.{new_sequence, Verdict, validate}
use llm_engine.Engine.Limits.{Fits, validate-Fits}
use llm_engine.Engine.Inbox.{Answer, contains-add_stops}
use llm_engine.Engine.Overlap.{Calls, Occurrence, steps, called, occur_all}
use llm_engine.Engine.Loop.{
  Host, Place, refresh_gauges, turn, leave, abort_all, seq_ids, told, failed, start, turn_at,
}
use llm_engine.Engine.Health.{refresh_gauges-blind}
use llm_engine.Sampler.Defs.{Choice}
use llm_engine.Engine.Sampled.{sample_step, sample_step-OneEach}
use llm_engine.Engine.Serve.{HostSound, HostSound-view, Healthy, OneEach}
use llm_engine.Engine.Life.{Move, moves, FairRun, moves-Healthy}
use llm_engine.Engine.Sample.{params, engine, config, unused, host}
use llm_engine.Engine.Death.{turn-strands}

validate-Fits_example :
    (validate (fresh_pool 4 2 true) 16 3 params ≡ Verdict.runs) ↔ Fits (fresh_pool 4 2 true) 16 3 4
validate-Fits_example =
    validate-Fits (fresh_pool 4 2 true) 16 3 params (unfold fresh_pool in omega arith)

host-HostSound : HostSound [] 2 host
unfolding llm_engine.Engine.Inbox.id_count
host-HostSound = record {
  sound =
      start-Sound [] config 8 2 true unused (omega arith) (omega arith) (λ p. omega arith)
        (λ p. (refl, refl, omega arith));
  apart = λ k. omega arith;
  older = λ k i. omega (arith, i);
  blank = tt;
}

-- The request is greedy.
abbrev choice : Choice
choice = record { greedy = true; softmax = λ l. l; top_p = none; draw = λ b. b; total = 12 }

-- The model prefers token 7.
abbrev model : StepInput → Option (List ℕ)
model step =
    sample_step 10 (λ row seq. choice) step.slices (some (λ row token. if token == 7 then 3 else 1))

model-OneEach : OneEach model
model-OneEach =
    sample_step-OneEach (λ step. some (λ row token. if token == 7 then 3 else 1)) 10
      (λ row seq. choice)

some-same : (xs ys : List ℕ) → some xs ≡ some ys → xs ≡ ys
some-same xs ys e = cc

-- The engine before it is started.
abbrev unstarted : Host
unstarted = record host { place = Place.joined; running = false }

abbrev served : List Move
served =
    Move.starts 1
    ∷ Move.submits (5 ∷ 6 ∷ []) params true
    ∷ Move.turns model 2
    ∷ Move.turns model 3
    ∷ Move.drains
    ∷ Move.turns model 4
    ∷ Move.ends_drain
    ∷ []

served-FairRun : FairRun served unstarted
served-FairRun = (
  inr refl,
  λ h1 e1. (
    omega arith,
    λ h2 e2. (
      model-OneEach,
      λ h3 e3. (model-OneEach, λ h4 e4. (tt, λ h5 e5. (model-OneEach, λ h6 e6. (tt, λ h7 e7. tt)))),
    ),
  ),
)

unstarted-HostSound : HostSound [] 2 unstarted
unstarted-HostSound = HostSound-view unstarted refl refl refl host-HostSound

moves-Healthy_example : (h' : Host) × (moves served unstarted ≡ ok h') × Healthy 2 h'
moves-Healthy_example = moves-Healthy served unstarted served-FairRun ([], unstarted-HostSound)

-- A pool that lost seven of its eight blocks.
abbrev leaked : Host
leaked = record host {
  sched = record (host.sched) { kv = record (host.sched.kv) { free_list = 0 ∷ [] } };
}

refresh_gauges-blind_example :
    ((refresh_gauges leaked).invariants_ok ≡ leaked.invariants_ok)
    × ((refresh_gauges leaked).gauges.kv_accounting_ok ≡ true)
refresh_gauges-blind_example =
    refresh_gauges-blind leaked (unfold Runs.start fresh_pool in omega arith)
      (unfold Runs.start fresh_pool in omega arith)

abbrev throwing : StepInput → Option (List ℕ)
throwing step = none

-- A slice of a request, on which the model throws.
abbrev one_slice : StepInput
one_slice = record {
  slices = record { seq = 1; start = 0; len = 1; needs_logits = true; is_prefill = true } ∷ [];
  num_prefill_tokens = 1;
  num_decode_tokens = 0;
  num_logits = 1;
}

abbrev dead : Host
dead = record (told (failed host) (failed host).sched) {
  place = Place.releasing;
  abort_inbox = 1 ∷ [];
}

-- The engine is joined and started again after its loop died.
abbrev over : Host
over = record (failed host) { place = Place.gone }

abbrev again : Host
again = record over {
  running = true;
  engine = record (over.engine) { accepting = true };
  place = Place.top;
  last_progress = 7;
}

-- A request that arrived while the engine was being stopped.
abbrev late : Host
late = record host {
  running = false;
  engine = record engine { accepting = false; queued = 1; next_id = 2; inbox = unused 1 ∷ [] };
}

abbrev left : Host
left = record (told late late.sched) { place = Place.releasing }

turn-strands_example : (left.running ≡ false) × (left.engine.inbox ≡ late.engine.inbox)
turn-strands_example =
    turn-strands model 5 late left refl
      (unfold turn turn_at leave abort_all seq_ids Runs.start in refl)

-- Three calls at once, with a limit of two.
abbrev three : Calls
three = record {
  engine = engine;
  asked = λ i. record { prompt = 5 ∷ []; params = params; on_token = true };
  stage = λ i. called;
}

-- Each passes the tests before one is counted.
abbrev overlap : List Occurrence
overlap =
    steps 0
    ∷ steps 0
    ∷ steps 1
    ∷ steps 1
    ∷ steps 2
    ∷ steps 2
    ∷ steps 0
    ∷ steps 1
    ∷ steps 2
    ∷ steps 2
    ∷ steps 1
    ∷ steps 0
    ∷ steps 0
    ∷ steps 1
    ∷ steps 2
    ∷ []

overrun : (occur_all overlap three).engine.queued ≡ 3
unfolding occur_all new_sequence
overrun = refl
