-- ===== src/Bench/Tests.antt =====
-- Small workloads.
use llm_engine.Base.{
  ℕ, ◌≡◌, refl, Bool, true, false, List, [], ◌∷◌, Option, none, some, ok, ◌-◌, arith,
}
use llm_engine.Scheduler.Sound.{Sound}
use llm_engine.Engine.Sample.{config, unused}
use llm_engine.Bench.Contiguous.{
  Request, Policy, Sim, admit_pending, refill, sum_by, measure, grow_one, grow_all, erase_finished,
  all_done, advance, simulate, live_work, pending_work, run_contiguous,
}
use llm_engine.Bench.Paged.{Paged, run_paged}
use llm_engine.Bench.Rounds.{run_paged-Sound}
use llm_engine.Bench.Ends.{Ends, run_contiguous-Ends}

abbrev three : List Request
three =
    record { prompt = 4; output = 2 }
    ∷ record { prompt = 3; output = 1 }
    ∷ record { prompt = 5; output = 0 }
    ∷ []

abbrev two_at_a_time : Bool → Policy
two_at_a_time static = record {
  max_output = 2;
  max_model_len = 9;
  reserve_max_model_len = false;
  max_num_seqs = 2;
  static_batching = static;
}

steps_of : Option Sim → ℕ
steps_of none = 0
steps_of (some s) = s.steps

run_contiguous-Ends_example :
    Ends (two_at_a_time true) 12 (run_contiguous three (two_at_a_time true) 12)
run_contiguous-Ends_example = run_contiguous-Ends three (two_at_a_time true) 12 (omega arith)

continuous_steps : steps_of (run_contiguous three (two_at_a_time false) 12) ≡ 3
unfolding steps_of run_contiguous simulate refill admit_pending measure sum_by grow_one grow_all
    erase_finished advance live_work pending_work all_done
continuous_steps = refl

static_steps : steps_of (run_contiguous three (two_at_a_time true) 12) ≡ 3
unfolding steps_of run_contiguous simulate refill admit_pending measure sum_by grow_one grow_all
    erase_finished advance live_work pending_work all_done
static_steps = refl

-- Two requests on a small pool.
run_paged-Sound_example :
    (r : Paged) × (run_paged 5 8 2 true (λ n. 20 - n) config unused (0 ∷ 1 ∷ []) ≡ ok r)
    × Sound (0 ∷ 1 ∷ []) 2 r.sched
run_paged-Sound_example =
    run_paged-Sound 5 8 2 true (λ n. 20 - n) config unused (0 ∷ 1 ∷ []) (omega arith) (omega arith)
      (λ p. ground arith) (λ p. (refl, refl, omega arith))
