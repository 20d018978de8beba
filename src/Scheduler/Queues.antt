-- ===== src/Scheduler/Queues.antt =====
-- The pointer lists of src/scheduler/scheduler.cpp: candidates in queue order, and what is forgotten.
use llm_engine.Base.{
  ℕ, zero, suc, ◌+◌, ◌≤◌, ◌<◌, ◌≡◌, refl, ap, inl, inr, List, [], ◌∷◌, none, some, if◌then◌else◌,
  ◌==◌, length, take, get_elem?, count, arith, Bool-cases,
}
use llm_engine.Scheduler.Defs.{forget}
use llm_engine.Scheduler.Evict.{last}

-- The first list is the second with some pointers left out.
pub data Sub : List ℕ → List ℕ → Type 0 where
  nil : Sub [] []
  keep : (p : ℕ) {ds rs : List ℕ} → Sub ds rs → Sub (p ∷ ds) (p ∷ rs)
  skip : (p : ℕ) {ds rs : List ℕ} → Sub ds rs → Sub ds (p ∷ rs)

pub Sub-count : {ds rs : List ℕ} → Sub ds rs → (p : ℕ) → count p ds ≤ count p rs
Sub-count nil p = omega arith
Sub-count (keep q s) p = omega (arith, Sub-count s p)
Sub-count (skip q s) p = omega (arith, Sub-count s p)

pub Sub-forget : (v : ℕ) {ds rs : List ℕ} → Sub ds rs → Sub (forget v ds) (forget v rs)
unfolding forget
Sub-forget v nil = nil
Sub-forget v (keep q s) = elim (Bool-cases (q == v)) [
  | inl hit ↦ rw hit (Sub-forget v s)
  | inr miss ↦ rw miss (keep q (Sub-forget v s))
]
Sub-forget v (skip q s) = elim (Bool-cases (q == v)) [
  | inl hit ↦ rw hit (Sub-forget v s)
  | inr miss ↦ rw miss (skip q (Sub-forget v s))
]

pub count-forget :
    (p v : ℕ) (ps : List ℕ) → count p (forget v ps) ≡ (if p == v then 0 else count p ps)
unfolding forget
count-forget p v [] = ground arith
count-forget p v (x ∷ ps) = ground (arith, count-forget p v ps)

pub length-forget : (v : ℕ) (ps : List ℕ) → length (forget v ps) ≤ length ps
unfolding forget
length-forget v [] = omega arith
length-forget v (x ∷ ps) = ground (arith, length-forget v ps)

pub count-take-le : (p n : ℕ) (ps : List ℕ) → count p (take n ps) ≤ count p ps
count-take-le p zero ps = omega arith
count-take-le p (suc n) [] = omega arith
count-take-le p (suc n) (x ∷ ps) = omega (arith, count-take-le p n ps)

pub count-last : (ps : List ℕ) (v : ℕ) → last ps ≡ some v → 0 < count v ps
count-last [] v e = absurd (ground arith)
count-last (x ∷ []) v e = ground arith
count-last (x ∷ y ∷ ps) v e = omega (arith, count-last (y ∷ ps) v e)

pub get-count :
    (i : ℕ) (ps : List ℕ) (p : ℕ) → get_elem? ps i ≡ some p → (0 < count p ps) × (i < length ps)
get-count i [] p e = absurd (ground arith)
get-count zero (x ∷ ps) p e = ground arith
get-count (suc i) (x ∷ ps) p e = omega (arith, get-count i ps p e)

pub count-take-suc :
    (i : ℕ) (ps : List ℕ) (p r : ℕ)
    → get_elem? ps i ≡ some p
    → count r (take (suc i) ps) ≡ count r (take i ps) + (if p == r then 1 else 0)
count-take-suc i [] p r e = absurd (ground arith)
count-take-suc zero (x ∷ ps) p r e = ground arith
count-take-suc (suc i) (x ∷ ps) p r e = omega (arith, count-take-suc i ps p r e)

pub take_past : (i : ℕ) (ps : List ℕ) → get_elem? ps i ≡ none → take i ps ≡ ps
take_past zero [] e = refl
take_past (suc i) [] e = refl
take_past zero (x ∷ ps) e = absurd (ground arith)
take_past (suc i) (x ∷ ps) e = ap (◌∷◌ x) (take_past i ps e)

last-step : (x v : ℕ) (ps : List ℕ) → last (x ∷ ps) ≡ some v → 0 < length ps → last ps ≡ some v
last-step x v [] e h = absurd (omega arith)
last-step x v (y ∷ ps) e h = e

pub Sub-length : {ds rs : List ℕ} → Sub ds rs → length ds ≤ length rs
Sub-length nil = omega arith
Sub-length (keep q s) = omega (arith, Sub-length s)
Sub-length (skip q s) = omega (arith, Sub-length s)

-- The youngest resident sequence does not stand before another candidate.
pub last-absent :
    {ds rs : List ℕ} (s : Sub ds rs) (v i p : ℕ)
    → last rs ≡ some v
    → count v rs ≤ 1
    → get_elem? ds i ≡ some p
    → count v (take i ds) ≡ 0
last-absent nil v i p l u e = absurd (ground arith)
last-absent (skip q {ds} {rs} s) v i p l u e =
    last-absent s v i p (last-step q v rs l (omega (arith, Sub-length s, (get-count i ds p e).1)))
      (omega arith) e
last-absent (keep q {ds} {rs} s) v zero p l u e = refl
last-absent (keep q {ds} {rs} s) v (suc i) p l u e =
    let l' = last-step q v rs l (omega (arith, Sub-length s, (get-count i ds p e).1)) in
    omega (arith, count-last rs v l', last-absent s v i p l' (omega arith) e)

-- Nothing before position `i` is forgotten.
pub count-take-forget :
    (v i : ℕ) (ds : List ℕ) (p : ℕ)
    → count v (take i ds) ≡ 0
    → get_elem? ds i ≡ some p
    → (r : ℕ) → count r (take i (forget v ds)) ≡ count r (take i ds)
unfolding forget
count-take-forget v zero ds p z e r = refl
count-take-forget v (suc i) [] p z e r = absurd (ground arith)
count-take-forget v (suc i) (x ∷ ds) p z e r =
    ground (arith, count-take-forget v i ds p (omega arith) e r)
