-- ===== src/Scheduler/Tests.antt =====
-- Runs of the scheduler with two requests on a small pool.
use llm_engine.Base.{
  ℕ, zero, suc, ◌≡◌, refl, sym, ap, subst, ◌∙◌, true, false, List, [], ◌∷◌, none, Checked, ok,
  assert_failed, ◌>>=◌, length, arith,
}
use llm_engine.KvCache.{empty_table, fresh_pool}
use llm_engine.Sequence.{Sequence, SeqStatus, FinishReason, StepInput, empty_step}
use llm_engine.Scheduler.Defs.{Scheduler, SchedulerConfig, evict_for_memory}
use llm_engine.Scheduler.Step.{schedule}
use llm_engine.Scheduler.Done.{on_step_done}
use llm_engine.Scheduler.Sound.{Sound}
use llm_engine.Scheduler.Evict.{Evicted, evict_for_memory-Evicted}
use llm_engine.Scheduler.Plan.{Planned, schedule-Planned}
use llm_engine.Scheduler.Settle.{on_step_done-Sound, iteration-Sound}
use llm_engine.Scheduler.Runs.{
  start, start-Sound, Act, perform, perform-Sound, begin, then_act, Run-Sound, Fair,
}

abbrev config : SchedulerConfig
config = record {
  continuous = true;
  max_num_seqs = 2;
  max_num_batched_tokens = 8;
  prefill_chunk_size = 4;
  admission_lookahead = 2;
  starvation_wait_steps = 3;
  max_queue_wait = 9;
  watermark_blocks = none;
}

abbrev request : ℕ → Sequence
request p = record {
  id = p;
  tokens = 5 ∷ 6 ∷ 7 ∷ [];
  prompt_len = 3;
  num_computed = 0;
  block_table = empty_table;
  params = record { max_tokens = 2; stop_ids = 9 ∷ []; ignore_eos = false };
  status = SeqStatus.waiting;
  finish = FinishReason.unfinished;
  num_preemptions = 0;
  wait_steps = 0;
  t_arrival = 0;
  t_first_scheduled = 0;
  t_first_token = 0;
  t_finish = 0;
  token_times = [];
  on_token = true;
}

abbrev idle : Scheduler
idle = start config (fresh_pool 8 2 true) request

abbrev live : List ℕ
live = 0 ∷ 1 ∷ []

idle-Sound : Sound live 2 (start config (fresh_pool 8 2 true) request)
idle-Sound =
    start-Sound live config 8 2 true request (omega arith) (omega arith) (λ p. ground arith)
      (λ p. (refl, refl, omega arith))

abbrev outcome : Checked Scheduler → Scheduler
outcome (ok s) = s
outcome assert_failed = idle

outcome-ok :
    (r : Checked Scheduler)
    → (s : Scheduler) × (r ≡ ok s) × Sound live 2 s
    → (r ≡ ok (outcome r)) × Sound live 2 (outcome r)
outcome-ok r (s, e, h) =
    (e ∙ ap ok (sym (ap outcome e)), subst (Sound live 2) (sym (ap outcome e)) h)

Fair-submit : Fair live idle (Act.submit 1 0)
unfolding start
Fair-submit = (ground arith, refl, refl)

submitted-Sound : (s : Scheduler) × (perform idle (Act.submit 1 0) ≡ ok s) × Sound live 2 s
submitted-Sound = perform-Sound idle (Act.submit 1 0) idle-Sound Fair-submit

-- One request waits.
abbrev queued : Scheduler
queued = outcome (perform idle (Act.submit 1 0))

queued-Sound : Sound live 2 queued
queued-Sound = (outcome-ok (perform idle (Act.submit 1 0)) submitted-Sound).1

schedule-Planned_example :
    (step : StepInput) × (s' : Scheduler) × (schedule 2 queued ≡ ok (step, s'))
    × Planned live 2 queued step s'
schedule-Planned_example = schedule-Planned 2 queued queued-Sound

-- The model of this test: token 8 for each row of logits.
tokens_for : ℕ → List ℕ
tokens_for zero = []
tokens_for (suc n) = 8 ∷ tokens_for n

length-tokens_for : (n : ℕ) → length (tokens_for n) ≡ n
unfolding tokens_for
length-tokens_for zero = refl
length-tokens_for (suc n) = ap suc (length-tokens_for n)

abbrev planned : Checked (StepInput × Scheduler) → StepInput × Scheduler
planned (ok r) = r
planned assert_failed = (empty_step, idle)

abbrev plan : StepInput × Scheduler
plan = planned (schedule 2 queued)

plan-Planned : Planned live 2 queued plan.0 plan.1
plan-Planned =
    let (step, s, e, p) = schedule-Planned_example in
    subst (λ (r : StepInput × Scheduler). Planned live 2 queued r.0 r.1) (sym (ap planned e)) p

abbrev sampled : List ℕ
sampled = tokens_for plan.0.num_logits

on_step_done-Sound_example :
    (s' : Scheduler) × (on_step_done 3 plan.0 sampled plan.1 ≡ ok s')
    × Sound live 2 s'
    × (s'.cfg ≡ plan.1.cfg)
    × (s'.waiting ≡ plan.1.waiting)
on_step_done-Sound_example =
    on_step_done-Sound 3 plan.0 sampled plan.1 plan-Planned.sound plan-Planned.slices
      plan-Planned.single
      (omega (arith, plan-Planned.counted.logits, length-tokens_for plan.0.num_logits))

abbrev model : StepInput → List ℕ
model step = tokens_for step.num_logits

iteration-Sound_example :
    (s' : Scheduler) × ((schedule 2 queued >>= λ (step, planned).
    on_step_done 3 step (model step) planned)
      ≡ ok s')
    × Sound live 2 s'
    × (s'.cfg ≡ queued.cfg)
iteration-Sound_example =
    iteration-Sound 2 3 queued model queued-Sound (λ step. length-tokens_for step.num_logits)

-- One request is resident.
evict_for_memory-Evicted_example : Evicted live 2 plan.1 (evict_for_memory plan.1)
evict_for_memory-Evicted_example = evict_for_memory-Evicted plan-Planned.sound

-- The request is submitted, and its prompt is computed.
abbrev stepped : Scheduler
stepped = outcome (perform queued (Act.iterate 2 3 model))

stepped-ok : (perform queued (Act.iterate 2 3 model) ≡ ok stepped) × Sound live 2 stepped
stepped-ok = outcome-ok (perform queued (Act.iterate 2 3 model)) (
    perform-Sound queued (Act.iterate 2 3 model) queued-Sound
      (λ step. length-tokens_for step.num_logits))

Run-Sound_example : Sound live 2 stepped
Run-Sound_example = Run-Sound idle-Sound (
    then_act
      (then_act begin (Act.submit 1 0) Fair-submit
        (outcome-ok (perform idle (Act.submit 1 0)) submitted-Sound).0)
      (Act.iterate 2 3 model) (λ step. length-tokens_for step.num_logits) stepped-ok.0)
