-- ===== src/Parallel/Tests.antt =====
-- A run of the pool with two threads.
use llm_engine.Base.{◌≡◌, refl, [], ◌∷◌, arith, sum_below}
use llm_engine.Parallel.Defs.{
  ThreadPool, part, make, parallel_for, run_first, wake, run_own, finish, Runs, call, first, waken,
  work, done, here, next, call_body,
}
use llm_engine.Parallel.Partition.{part_covers, part-covers}
use llm_engine.Parallel.Protocol.{cover_count}
use llm_engine.Parallel.Returns.{parallel_for-covers}

part-covers_example : sum_below 2 (λ i. part_covers (part 2 3 i) 2) ≡ 1
part-covers_example = part-covers 2 3 2 (omega arith) (omega arith)

-- The caller has run its part.
abbrev half : ThreadPool
half = run_first (parallel_for (make 2) 3)

half-Runs : Runs (make 2) half
unfolding make parallel_for
half-Runs = next (next here (call 3 refl)) (first refl)

-- The worker has run its part and reported.
abbrev whole : ThreadPool
whole = finish (run_own (wake half 1) 1) 1

whole-Runs : Runs (make 2) whole
unfolding make parallel_for wake part call_body
whole-Runs =
    next (next (next half-Runs (waken 1 refl refl refl)) (work 1 refl refl)) (done 1 refl refl)

whole_bodies : whole.bodies ≡ (2, 3) ∷ (0, 2) ∷ []
unfolding make parallel_for wake part call_body
whole_bodies = refl

parallel_for-covers_example : cover_count whole.bodies 2 ≡ 1
unfolding make parallel_for wake part call_body
parallel_for-covers_example = parallel_for-covers 2 whole whole-Runs refl refl 2 (omega arith)
