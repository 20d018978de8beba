-- ===== src/Bench/Rounds.antt =====
-- bench/kv_waste.cpp, `run_paged`: the scheduler and its pool stay sound while it is driven.
use llm_engine.Base.{
  ℕ, zero, suc, ◌+◌, ◌≤◌, ◌<◌, ◌≡◌, refl, ap, Bool, true, List, [], ◌∷◌, ◌==◌, ◌&&◌, not, length,
  count, count-append, ok, arith, Bool-cases, inl, inr,
}
use llm_engine.KvCache.{fresh_pool, is_empty}
use llm_engine.Sequence.{Sequence, SeqStatus}
use llm_engine.Scheduler.Defs.{Scheduler, SchedulerConfig, add}
use llm_engine.Scheduler.Pool.{Known}
use llm_engine.Scheduler.Sound.{Sound, update_ne}
use llm_engine.Scheduler.Runs.{start, start-Sound, add-Sound, Untouched}
use llm_engine.Scheduler.Plan.{schedule-Planned}
use llm_engine.Scheduler.Settle.{on_step_done-Sound}
use llm_engine.Engine.Loop.{has_work}
use llm_engine.Bench.Paged.{
  Paged, count_round, same_tokens, paged_round, paged_rounds, add_all, run_paged,
}

length-same_tokens : (n : ℕ) → length (same_tokens n) ≡ n
length-same_tokens zero = refl
length-same_tokens (suc n) = ap suc (length-same_tokens n)

paged_round-Sound :
    {live : List ℕ} (bs now : ℕ) (r : Paged)
    → Sound live bs r.sched
    → (r' : Paged) × (paged_round bs now r ≡ ok r') × Sound live bs r'.sched
unfolding paged_round count_round
paged_round-Sound bs now r h =
    let (step, s, planned, plan) = schedule-Planned now r.sched h in
    elim (Bool-cases (length step.slices == 0)) [
      | inl blank ↦ rw (planned, blank) (_, refl, plan.sound)
      | inr some_slice ↦
          let (s', done, h', _, _) =
            on_step_done-Sound now step (same_tokens step.num_logits) s plan.sound plan.slices
              plan.single
              (omega (arith, length-same_tokens step.num_logits, plan.counted.logits)) in
          rw (planned, some_slice, done) (_, refl, h')
    ]

paged_rounds-Sound :
    {live : List ℕ} (n bs : ℕ) (clock : ℕ → ℕ) (r : Paged)
    → Sound live bs r.sched
    → (r' : Paged) × (paged_rounds n bs clock r ≡ ok r') × Sound live bs r'.sched
unfolding paged_rounds
paged_rounds-Sound zero bs clock r h = (r, refl, h)
paged_rounds-Sound (suc n) bs clock r h = elim (Bool-cases (has_work r.sched && not r.stalled)) [
  | inl on ↦
      let (r', one, h') = paged_round-Sound bs (clock n) r h in
      let (r'', more, h'') = paged_rounds-Sound n bs clock r' h' in
      rw (on, one, more) (r'', refl, h'')
  | inr over ↦ rw over (r, refl, h)
]

-- Requests that can be added: they are known, in no queue, different, and hold no block.
record Fresh (live : List ℕ) (s : Scheduler) (ps : List ℕ) : Type 0 where
  known : (p : ℕ) → 0 < count p ps → Known live p
  once : (p : ℕ) → count p ps + (count p s.waiting + count p s.running) ≤ 1
  blank : (p : ℕ) → 0 < count p ps → is_empty (s.seqs p).block_table ≡ true

add_all-Sound :
    {live : List ℕ} (bs now : ℕ) (ps : List ℕ) (s : Scheduler)
    → Sound live bs s
    → Fresh live s ps
    → Sound live bs (add_all s now ps)
unfolding add_all add
add_all-Sound bs now [] s h f = h
add_all-Sound bs now (p ∷ ps) s h f =
    let once = f.once p in
    let h' =
      add-Sound now p s h (f.known p (ground arith)) (ground (arith, once))
        (f.blank p (ground arith)) in
    add_all-Sound bs now ps (add s now p) h' record {
      known = λ q k. f.known q (ground (arith, k));
      once = λ q. ground (arith, f.once q, count-append q s.waiting (p ∷ []));
      blank = λ q k.
          let added = record (s.seqs p) { status = SeqStatus.waiting; t_arrival = now } in
          rw (update_ne s.seqs p q added (λ e. absurd (ground (arith, e, k, once))))
            (f.blank q (ground (arith, k)));
    }

-- For different requests with a prompt that is not empty, and a pool and blocks that are not empty,
-- the loop of `run_paged` fails no assertion, however many rounds it makes, and the scheduler and
-- its pool are sound after each of them.
pub run_paged-Sound :
    (n num_blocks block_size : ℕ) (prefix_caching : Bool) (clock : ℕ → ℕ) (cfg : SchedulerConfig)
    (seqs : ℕ → Sequence) (ps : List ℕ)
    → 0 < num_blocks
    → 0 < block_size
    → ((p : ℕ) → count p ps ≤ 1)
    → ((p : ℕ) → Untouched (seqs p))
    → (r : Paged) × (run_paged n num_blocks block_size prefix_caching clock cfg seqs ps ≡ ok r)
      × Sound ps block_size r.sched
unfolding run_paged start
run_paged-Sound n num_blocks bs caching clock cfg seqs ps blocks sized distinct untouched =
    let s = start cfg (fresh_pool num_blocks bs caching) seqs in
    let h = start-Sound ps cfg num_blocks bs caching seqs blocks sized distinct untouched in
    paged_rounds-Sound n bs clock _ (
      add_all-Sound bs (clock n) ps s h record {
        known = λ p k. k;
        once = λ p. omega (arith, distinct p);
        blank = λ p k. rw (untouched p).0 refl;
      })
