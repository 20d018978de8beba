-- ===== src/Scheduler/Split.antt =====
-- src/scheduler/scheduler.cpp, step 1 of `schedule`: the candidates that a step starts with.
use llm_engine.Base.{
  ℕ, ◌+◌, ◌≤◌, ◌<◌, ◌≡◌, inl, inr, true, false, List, [], ◌∷◌, ◌==◌, not, ◌&&◌, count, arith,
  Bool-cases,
}
use llm_engine.Sequence.{Sequence, prefill_done, is_finished}
use llm_engine.Scheduler.Defs.{Scheduler}
use llm_engine.Scheduler.Step.{mid_prefill, decoding, split_resident}
use llm_engine.Scheduler.Sound.{Sound}
use llm_engine.Scheduler.Queues.{Sub, nil, keep, skip}
use llm_engine.Scheduler.Place.{Ready}

mid_prefill-count :
    (seqs : ℕ → Sequence) (ps : List ℕ) (p : ℕ)
    → (count p (mid_prefill seqs ps) + count p (decoding seqs ps) ≤ count p ps)
      × (0 < count p (mid_prefill seqs ps) → prefill_done (seqs p) ≡ false)
      × (0 < count p (decoding seqs ps)
          → (prefill_done (seqs p) ≡ true) × (is_finished (seqs p) ≡ false))
unfolding mid_prefill decoding
mid_prefill-count seqs [] p =
    (omega arith, (λ h. absurd (omega arith)), (λ h. absurd (omega arith)))
mid_prefill-count seqs (x ∷ ps) p =
    let (a, b, d) = mid_prefill-count seqs ps p in
    elim (Bool-cases (x == p)) [
      | inl hit ↦ let e : x ≡ p = ground arith in rw e (ground (arith, a, b, d))
      | inr miss ↦ (ground (arith, a), (λ h. b (ground arith)), (λ h. d (ground arith)))
    ]

decoding-Sub : (seqs : ℕ → Sequence) (ps : List ℕ) → Sub (decoding seqs ps) ps
unfolding decoding
decoding-Sub seqs [] = nil
decoding-Sub seqs (p ∷ ps) =
    elim (Bool-cases (not (is_finished (seqs p)) && prefill_done (seqs p))) [
      | inl yes_it ↦ rw yes_it (keep p (decoding-Sub seqs ps))
      | inr no_it ↦ rw no_it (skip p (decoding-Sub seqs ps))
    ]

-- The candidates that a step starts with.
pub split_resident-Ready :
    {live : List ℕ} {bs : ℕ} (s : Scheduler) → Sound live bs s → Ready live bs (split_resident s)
unfolding split_resident
split_resident-Ready s h = record {
  sound = h;
  prefilling =
      λ p k. let (a, b, _) = mid_prefill-count s.seqs s.running p in (omega (arith, a), b k);
  decoding = λ p k. let (_, _, d) = mid_prefill-count s.seqs s.running p in d k;
  in_order = decoding-Sub s.seqs s.running;
  apart =
      λ p. let (a, _, _) = mid_prefill-count s.seqs s.running p in omega (arith, a, h.distinct p);
}
