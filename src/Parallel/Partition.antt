-- ===== src/Parallel/Partition.antt =====
-- include/engine/parallel.h, `run_part`: the ranges of the parts.
use native.Mathlib.Nat.{lt-mul-div-succ, mul-suc}
use llm_engine.Base.{
  ℕ, zero, suc, ◌+◌, ◌-◌, ◌*◌, ◌/◌, ◌<◌, ◌≡◌, min, Option, none, some, if◌then◌else◌, ltb, leb,
  ◌&&◌, sum_below, arith, Bool-cases, inl, inr,
}
use llm_engine.Parallel.Defs.{part}

-- Whether a call of the body covers position `k`.
abbrev pub covers : ℕ × ℕ → ℕ → ℕ
covers r k = if leb r.0 k && ltb k r.1 then 1 else 0

abbrev pub part_covers : Option (ℕ × ℕ) → ℕ → ℕ
part_covers none k = 0
part_covers (some r) k = covers r k

part_covers-part :
    (n count idx k : ℕ)
    → k < count
    → part_covers (part n count idx) k ≡ (
        if leb ((count + n - 1) / n * idx) k
          && ltb k ((count + n - 1) / n * idx + (count + n - 1) / n)
        then 1
        else 0)
unfolding part
part_covers-part n count idx k h =
    let begin = (count + n - 1) / n * idx in
    let end = min count (begin + (count + n - 1) / n) in
    elim (Bool-cases (ltb begin end)) [
      | inl some_part ↦ rw some_part (ground arith)
      | inr no_part ↦ rw no_part (ground arith)
    ]

-- The first `m` parts cover what lies before the next part.
parts-prefix :
    (n count m k : ℕ)
    → k < count
    → sum_below m (λ i. part_covers (part n count i) k)
      ≡ (if ltb k ((count + n - 1) / n * m) then 1 else 0)
unfolding sum_below
parts-prefix n count zero k h = ground arith
parts-prefix n count (suc m) k h = ground (
  arith,
  parts-prefix n count m k h,
  part_covers-part n count m k h,
  mul-suc ((count + n - 1) / n) m,
)

-- For a positive number of threads, the parts that `run_part` gives the threads cover each position
-- of the range just once.
pub part-covers :
    (n count k : ℕ) → 0 < n → k < count → sum_below n (λ i. part_covers (part n count i) k) ≡ 1
part-covers n count k pos h =
    let enough = lt-mul-div-succ (count + n - 1) pos in
    ground (arith, parts-prefix n count n k h, enough, mul-suc n ((count + n - 1) / n))
