-- ===== src/Bench/Ends.antt =====
-- bench/kv_waste.cpp, `run_contiguous`: the loop ends, and every slot is given back.
use llm_engine.Base.{
  ℕ, zero, suc, ◌+◌, ◌≤◌, ◌<◌, ◌≡◌, refl, sym, subst, ◌∙◌, ◌⊎◌, true, false, List, [], ◌∷◌, Option,
  some, ◌&&◌, ◌||◌, not, length, arith, Bool-cases, inl, inr,
}
use mathlib.Core.Bool.{true≢false}
use llm_engine.Bench.Contiguous.{
  Request, Policy, Live, Sim, admit_pending, none_left, refill, sum_by, measure, grow_all, all_done,
  advance, simulate, live_work, pending_work, run_contiguous,
}
use llm_engine.Bench.Regions.{
  Refused, nonempty-length, admit_pending-Admits, length-grow_all, reserved-grow_all,
  live_work-grow_less, reserved-erase_finished, length-erase_finished, live_work-erase_finished,
  reserved_by,
}

-- The state between two rounds: the regions and the free slots are the pool, and the batch stays within
-- its limit.
record Fits (c : Policy) (total : ℕ) (s : Sim) : Type 0 where
  slots : reserved_by s.live + s.free_slots ≡ total
  bounded : length s.live ≤ c.max_num_seqs
  peak : s.peak_resident ≤ c.max_num_seqs

abbrev work_left : Sim → ℕ
work_left s = live_work s.live + pending_work s.pending

empty-reserved : (ls : List Live) → none_left ls ≡ true → reserved_by ls ≡ 0
unfolding sum_by
empty-reserved [] e = refl
empty-reserved (x ∷ ls) e = absurd (true≢false (sym e))

-- What a refill leaves.
record Refilled (c : Policy) (total : ℕ) (s s' : Sim) : Type 0 where
  fits : Fits c total s'
  work : work_left s' ≡ work_left s
  nobody :
      none_left s'.live ≡ true → 0 < c.max_num_seqs → (s'.pending ≡ []) ⊎ Refused c total s'.pending

refill-Refilled :
    (c : Policy) (total : ℕ) (s : Sim) → Fits c total s → Refilled c total s (refill c s)
unfolding refill
refill-Refilled c total s f =
    let a = admit_pending-Admits c s.pending s.live s.free_slots in
    elim (Bool-cases (not c.static_batching || none_left s.live)) [
      | inl may ↦ simp may record {
        fits = record { slots = a.slots ∙ f.slots; bounded = a.bounded f.bounded; peak = f.peak };
        work = a.work;
        nobody = λ e h.
            let (none_live, why) = a.nobody e h in
            let all_free : s.free_slots ≡ total =
              omega (arith, f.slots, empty-reserved s.live none_live) in
            subst
              (λ n.
                ((admit_pending c s.pending s.live s.free_slots).0 ≡ [])
                ⊎ Refused c n (admit_pending c s.pending s.live s.free_slots).0)
              all_free why;
      }
      | inr may_not ↦
          simp may_not
            record { fits = f; work = refl; nobody = λ e h. absurd (ground (arith, may_not, e)) }
    ]

measure-Fits : (c : Policy) (total : ℕ) (s : Sim) → Fits c total s → Fits c total (measure s)
unfolding measure
measure-Fits c total s f = record {
  slots = f.slots;
  bounded = f.bounded;
  peak = ground (arith, f.peak, f.bounded);
}

live_work-none : live_work [] ≡ 0
unfolding live_work
live_work-none = refl

length-live_work : (ls : List Live) → length ls ≤ live_work ls
unfolding live_work
length-live_work [] = omega arith
length-live_work (l ∷ ls) = omega (arith, length-live_work ls)

advance-Fits :
    (c : Policy) (total : ℕ) (s : Sim)
    → Fits c total s
    → none_left s.live ≡ false
    → Fits c total (advance c s) × (work_left (advance c s) < work_left s)
unfolding advance
advance-Fits c total s f some_live =
    let n = nonempty-length s.live some_live in
    let same = length-grow_all s.live in
    let held = reserved-grow_all s.live in
    elim (Bool-cases (not c.static_batching)) [
      | inl free_at_once ↦ simp free_at_once (
        record {
          slots = omega (arith, f.slots, held, reserved-erase_finished (grow_all s.live));
          bounded = omega (arith, f.bounded, same, length-erase_finished (grow_all s.live));
          peak = f.peak;
        },
        omega (arith, live_work-erase_finished s.live, n),
      )
      | inr static ↦ elim (Bool-cases (all_done (grow_all s.live))) [
        | inl over ↦
            simp (static, over)
              (
                record {
                  slots = omega (arith, f.slots, held, empty-reserved [] refl);
                  bounded = omega arith;
                  peak = f.peak;
                },
                omega (arith, live_work-none, length-live_work s.live, n),
              )
        | inr on ↦
            simp (static, on)
              (
                record {
                  slots = omega (arith, f.slots, held);
                  bounded = omega (arith, f.bounded, same);
                  peak = f.peak;
                },
                omega (arith, live_work-grow_less s.live on),
              )
      ]
    ]

-- The state at the end: every slot is free again, and a request is left only if the pool has no room for
-- the first of those that are left.
pub record Ended (c : Policy) (total : ℕ) (s : Sim) : Type 0 where
  pub all_free : s.free_slots ≡ total
  pub nobody : none_left s.live ≡ true
  pub served : (s.pending ≡ []) ⊎ Refused c total s.pending
  pub peak : s.peak_resident ≤ c.max_num_seqs

pub data Ends (c : Policy) (total : ℕ) : Option Sim → Type 0 where
  ended : (s : Sim) → Ended c total s → Ends c total (some s)

Fits-Ended :
    (c : Policy) (total : ℕ) (s : Sim)
    → Fits c total s
    → none_left s.live ≡ true
    → (s.pending ≡ []) ⊎ Refused c total s.pending
    → Ended c total s
Fits-Ended c total s f e why = record {
  all_free = omega (arith, f.slots, empty-reserved s.live e);
  nobody = e;
  served = why;
  peak = f.peak;
}

no_pending : (rs : List Request) → none_left rs ≡ true → rs ≡ []
no_pending [] e = refl
no_pending (r ∷ rs) e = absurd (true≢false (sym e))

simulate-Ends :
    (fuel : ℕ) (c : Policy) (total : ℕ) (s : Sim)
    → 0 < c.max_num_seqs
    → Fits c total s
    → work_left s < fuel
    → Ends c total (simulate fuel c s)
unfolding simulate measure
simulate-Ends zero c total s seats f enough = absurd (omega arith)
simulate-Ends (suc fuel) c total s seats f enough =
    let s' = refill c s in
    let r = refill-Refilled c total s f in
    elim (Bool-cases (none_left s.pending && none_left s.live)) [
      | inl over ↦
          let none_pending : none_left s.pending ≡ true = ground (arith, over) in
          let none_live : none_left s.live ≡ true = ground (arith, over) in
          simp over
            (ended s (Fits-Ended c total s f none_live (inl (no_pending s.pending none_pending))))
      | inr on ↦ elim (Bool-cases (none_left s'.live)) [
        | inl stuck ↦
            simp (on, stuck) (ended s' (Fits-Ended c total s' r.fits stuck (r.nobody stuck seats)))
        | inr busy ↦
            let (fits, less) =
              advance-Fits c total (measure s') (measure-Fits c total s' r.fits) busy in
            simp (on, busy)
              (simulate-Ends fuel c total (advance c (measure s')) seats fits
                (omega (arith, less, r.work)))
      ]
    ]

-- With room for one sequence at least, the simulation of the contiguous allocator ends: its fuel,
-- the tokens to generate and one round for each request, is enough. Every slot is free again then,
-- no more sequences than the limit were live at a time, and all requests are done but for those from
-- one on whose region is larger than the pool.
pub run_contiguous-Ends :
    (requests : List Request) (c : Policy) (total_slots : ℕ)
    → 0 < c.max_num_seqs
    → Ends c total_slots (run_contiguous requests c total_slots)
unfolding run_contiguous
run_contiguous-Ends requests c total_slots seats =
    simulate-Ends (suc (pending_work requests)) c total_slots _ seats
      record {
        slots = omega (arith, empty-reserved [] refl);
        bounded = omega arith;
        peak = omega arith;
      }
      (omega (arith, live_work-none))
