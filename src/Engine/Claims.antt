-- ===== src/Engine/Claims.antt =====
-- src/api/engine.cpp, `submit`: the requests of the calls that overlap, counted by where they are.
use llm_engine.Base.{
  ℕ, zero, suc, ◌+◌, ◌≤◌, ◌<◌, ◌≡◌, ◌≢◌, refl, true, false, some, none, if◌then◌else◌, ◌==◌, length,
  update, sum_below, sum_below-change, arith,
}
use llm_engine.Engine.Inbox.{id_count}
use llm_engine.Engine.Overlap.{Stage, Calls}

-- How many of the requests with an id are built and not in the inbox.
abbrev pub holds : ℕ → Stage → ℕ
holds k (Stage.built s) = if s.id == k then 1 else 0
holds k _ = 0

-- How many of the calls have a request with an id, up to their answer.
abbrev pub owned : ℕ → Stage → ℕ
owned k (Stage.built s) = if s.id == k then 1 else 0
owned k (Stage.counting s) = if s.id == k then 1 else 0
owned k (Stage.returned r) = elim r.seq [ none ↦ 0 | some s ↦ if s.id == k then 1 else 0 ]
owned k _ = 0

-- In the inbox and not counted.
abbrev pub uncounted : Stage → ℕ
uncounted (Stage.counting s) = 1
uncounted _ = 0

-- Past the test of the limit and not counted.
abbrev pub claims : Stage → ℕ
claims Stage.admitted = 1
claims (Stage.built s) = 1
claims (Stage.counting s) = 1
claims _ = 0

pub sum_below-update :
    {A : Type 0} (n i : ℕ) (f : ℕ → A) (p : A) (m : A → ℕ)
    → i < n
    → sum_below n (λ j. m (update f i p j)) + m (f i) ≡ sum_below n (λ j. m (f j)) + m p
sum_below-update n i f p m l =
    let without : ℕ → ℕ = λ j. if j == i then 0 else m (f j) in
    let here : (i == i) ≡ true = ground arith in
    let there = λ (j : ℕ) (ne : j ≢ i). let off : (j == i) ≡ false = ground (arith, ne) in off in
    let old =
      sum_below-change n i (m (f i)) without (λ j. m (f j)) l (rw here (omega arith))
        (λ j ne. rw (there j ne) refl) in
    let new =
      sum_below-change n i (m p) without (λ j. m (update f i p j)) l (rw here (omega arith))
        (λ j ne. rw (there j ne) refl) in
    omega (arith, old, new)

sum_below-le : (n : ℕ) (f : ℕ → ℕ) → ((i : ℕ) → f i ≤ 1) → sum_below n f ≤ n
unfolding sum_below
sum_below-le zero f h = omega arith
sum_below-le (suc n) f h = omega (arith, h n, sum_below-le n f h)

claims-le : (p : Stage) → claims p ≤ 1
claims-le Stage.called = omega arith
claims-le Stage.entered = omega arith
claims-le Stage.admitted = omega arith
claims-le (Stage.built s) = omega arith
claims-le (Stage.counting s) = omega arith
claims-le (Stage.returned r) = omega arith

-- One call that claims nothing leaves room below their number.
pub claims-room :
    (n i : ℕ) (f : ℕ → Stage) → i < n → claims (f i) ≡ 0 → sum_below n (λ j. claims (f j)) + 1 ≤ n
claims-room n i f l zeroed =
    let more = sum_below-update n i f Stage.admitted claims l in
    omega (
      arith,
      more,
      zeroed,
      sum_below-le n (λ j. claims (update f i Stage.admitted j)) (λ j. claims-le _),
    )

pub record Inv (n : ℕ) (c : Calls) : Type 0 where
  pub distinct : (k : ℕ) → id_count k c.engine.inbox + sum_below n (λ j. holds k (c.stage j)) ≤ 1
  pub fresh :
      (k : ℕ)
      → c.engine.next_id ≤ k
      → id_count k c.engine.inbox + sum_below n (λ j. holds k (c.stage j)) ≡ 0
  pub own : (k : ℕ) → sum_below n (λ j. owned k (c.stage j)) ≤ 1
  pub own_fresh : (k : ℕ) → c.engine.next_id ≤ k → sum_below n (λ j. owned k (c.stage j)) ≡ 0
  pub counted : length c.engine.inbox ≤ c.engine.queued + sum_below n (λ j. uncounted (c.stage j))
  pub limited :
      0 < c.engine.max_queue_depth
      → c.engine.queued + sum_below n (λ j. claims (c.stage j)) < c.engine.max_queue_depth + n
