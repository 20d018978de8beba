-- ===== src/Engine/Races.antt =====
-- src/api/engine.cpp, `submit`: what holds while calls overlap.
use llm_engine.Base.{ℕ, ◌+◌, ◌≤◌, ◌<◌, ◌≡◌, Bool, true, false, length, update, sum_below}
use llm_engine.Engine.Defs.{Engine}
use llm_engine.Engine.Inbox.{id_count}
use llm_engine.Engine.Overlap.{Stage, Calls, Occurrence, steps}
use llm_engine.Engine.Claims.{owned, Inv}

module _ (n : ℕ) (c : Calls) (h : Inv n c) (i : ℕ) (l : i < n) where
  abbrev After : Stage × Engine → Type 0
  After (q, e) = Inv n (record c { engine = e; stage = update c.stage i q })

-- The steps are of the `n` calls.
abbrev pub Among : ℕ → Occurrence → Type 0
Among n (steps i) = i < n
Among n _ = Unit

abbrev pub is_returned : Stage → Bool
is_returned (Stage.returned r) = true
is_returned _ = false

-- What `n` calls keep up.
pub record Bounded (n : ℕ) (c : Calls) : Type 0 where
  pub distinct : (k : ℕ) → id_count k c.engine.inbox ≤ 1
  -- no two calls have requests with the same id
  pub own : (k : ℕ) → sum_below n (λ j. owned k (c.stage j)) ≤ 1
  pub limited : 0 < c.engine.max_queue_depth → c.engine.queued < c.engine.max_queue_depth + n
  pub counted :
      ((i : ℕ) → i < n → is_returned (c.stage i) ≡ true) → length c.engine.inbox ≤ c.engine.queued
