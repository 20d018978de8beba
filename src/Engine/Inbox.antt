-- ===== src/Engine/Inbox.antt =====
-- src/api/engine.cpp, `submit`: the inbox and the limit on queued requests.
use llm_engine.Base.{
  ℕ, ◌+◌, ◌≤◌, ◌<◌, ◌≡◌, refl, subst, Bool, true, false, List, [], ◌∷◌, ◌++◌, none, some,
  if◌then◌else◌, ◌==◌, ◌||◌, length, All, arith, Bool-cases, inl, inr,
}
use llm_engine.KvCache.{empty_table}
use llm_engine.Sequence.{Sequence, SamplingParams}
use llm_engine.Scheduler.{contains}
use llm_engine.Engine.Defs.{Engine, SubmitStatus, SubmitResult, add_stops}

contains-append : (xs : List ℕ) (a t : ℕ) → contains (xs ++ (a ∷ [])) t ≡ (contains xs t || a == t)
unfolding contains
contains-append [] a t = ground arith
contains-append (x ∷ xs) a t = ground (arith, contains-append xs a t)

-- For any lists, a token stops a request after the tokenizer's stop tokens are added exactly if it
-- did before or is one of the tokenizer's.
pub contains-add_stops :
    (ids have : List ℕ) (t : ℕ)
    → contains (add_stops ids have) t ≡ (contains have t || contains ids t)
unfolding contains add_stops
contains-add_stops [] have t = ground arith
contains-add_stops (id ∷ ids) have t = elim (Bool-cases (contains have id)) [
  | inl known ↦ elim (Bool-cases (id == t)) [
    | inl hit ↦
        let same : contains have t ≡ true =
          subst (λ k. contains have k ≡ true) (ground arith) known in
        rw known (ground (arith, contains-add_stops ids have t, same))
    | inr miss ↦ rw (known, miss) (contains-add_stops ids have t)
  ]
  | inr new ↦
      rw new
        (ground (arith, contains-add_stops ids (have ++ (id ∷ [])) t, contains-append have id t))
]

-- How often an id stands in the inbox.
unfoldable pub id_count : ℕ → List Sequence → ℕ
id_count k [] = 0
id_count k (s ∷ ss) = (if s.id == k then 1 else 0) + id_count k ss

-- Ids are new and different, each request in the inbox is counted as queued, and the limit holds.
pub record IsEngine (e : Engine) : Type 0 where
  pub older : All (λ s. s.id < e.next_id) e.inbox
  pub distinct : (k : ℕ) → id_count k e.inbox ≤ 1
  pub counted : length e.inbox ≤ e.queued
  pub limited : 0 < e.max_queue_depth → e.queued ≤ e.max_queue_depth

pub id_count-append :
    (k : ℕ) (ss : List Sequence) (s : Sequence)
    → id_count k (ss ++ (s ∷ [])) ≡ id_count k ss + (if s.id == k then 1 else 0)
unfolding id_count
id_count-append k [] s = omega arith
id_count-append k (x ∷ ss) s = omega (arith, id_count-append k ss s)

pub older-absent :
    (n k : ℕ) (ss : List Sequence) → All (λ s. s.id < n) ss → n ≤ k → id_count k ss ≡ 0
unfolding id_count
older-absent n k [] a h = refl
older-absent n k (s ∷ ss) (b, a) h = ground (arith, older-absent n k ss a h)

older-append :
    (n : ℕ) (ss : List Sequence) (s : Sequence)
    → All (λ q. q.id < n) ss
    → s.id ≡ n
    → All (λ q. q.id < n + 1) (ss ++ (s ∷ []))
older-append n [] s a e = (omega arith, tt)
older-append n (x ∷ ss) s (b, a) e = (omega (arith, b), older-append n ss s a e)

-- The answers to a submission.
pub data Answer (e : Engine) (prompt : List ℕ) (params : SamplingParams)
    : SubmitResult × Engine → Type 0 where
  turned_away :
      e.accepting ≡ false
      → Answer e prompt params
          (record { status = SubmitStatus.draining; seq = none; retry_after_seconds = 0 }, e)
  shed :
      e.accepting ≡ true
      → 0 < e.max_queue_depth
      → e.max_queue_depth ≤ e.queued
      → Answer e prompt params (
        record { status = SubmitStatus.overloaded; seq = none; retry_after_seconds = 1 },
        record e { requests_rejected_overload = e.requests_rejected_overload + 1 },
      )
  taken :
      (s : Sequence) (e' : Engine)
      → e.accepting ≡ true
      → s.id ≡ e.next_id
      → s.tokens ≡ prompt
      → (s.block_table ≡ empty_table) × (s.num_computed ≡ 0)
      → ((t : ℕ)
          → contains s.params.stop_ids t ≡ (contains params.stop_ids t || contains e.stop_ids t))
      → e'.inbox ≡ e.inbox ++ (s ∷ [])
      → e'.queued ≡ e.queued + 1
      → Answer e prompt params
          (record { status = SubmitStatus.accepted; seq = some s; retry_after_seconds = 0 }, e')

pub if_cases :
    {A : Type 0} (P : A → Type 0) (b : Bool) (x y : A)
    → (b ≡ true → P x)
    → (b ≡ false → P y)
    → P (if b then x else y)
if_cases P true x y f g = f refl
if_cases P false x y f g = g refl
