-- ===== src/Engine/Health.antt =====
-- src/api/engine.cpp, `health` and `refresh_gauges`: what the engine reports of itself.
use llm_engine.Base.{
  ℕ, ◌-◌, ◌^◌, ◌<◌, ◌≤◌, ◌≡◌, ◌↔◌, Bool, true, false, List, [], ◌∷◌, ◌++◌, if◌then◌else◌, ltb, ◌==◌,
  not, ◌&&◌, arith,
}
use llm_engine.KvCache.{num_available_blocks}
use llm_engine.Engine.Loop.{Host, balanced, refresh_gauges}

pub data Problem : Type 0 where
  not_loaded not_running stalled loop_died accounting_violated draining : Problem

pub record HealthReport : Type 0 where
  pub alive : Bool
  pub ready : Bool
  pub problems : List Problem
  pub since_progress : ℕ

abbrev when : Bool → Problem → List Problem
when c p = if c then p ∷ [] else []

-- Work is pending and nothing was done for longer than the limit; a limit of 0 disables the check.
unfoldable pub is_stalled : ℕ → ℕ → Host → Bool
is_stalled stall_timeout now h =
    ltb 0 stall_timeout
    && not (h.last_progress == 0)
    && ltb 0 h.engine.queued
    && ltb stall_timeout (now - h.last_progress)

unfoldable pub health : ℕ → ℕ → Host → HealthReport
health stall_timeout now h =
    let stall = is_stalled stall_timeout now h in
    let alive = h.ready && h.running && not stall && not h.fatal_error && h.invariants_ok in
    record {
      alive = alive;
      ready = alive && h.engine.accepting;
      problems =
          when (not h.ready) Problem.not_loaded
          ++ (when (not h.running) Problem.not_running
              ++ (when stall Problem.stalled
                  ++ (when h.fatal_error Problem.loop_died
                      ++ (when (not h.invariants_ok) Problem.accounting_violated
                          ++ when (alive && not h.engine.accepting) Problem.draining))));
      since_progress = if h.last_progress == 0 then 0 else now - h.last_progress;
    }

-- At every time the report names no problem exactly if it says ready, and it is alive exactly if it
-- names no problem or only that the engine drains; an engine with nothing queued is never called
-- stalled.
pub health-problems :
    (stall_timeout now : ℕ) (h : Host)
    → let r = health stall_timeout now h in
      (((r.problems ≡ []) ↔ (r.ready ≡ true))
        × ((r.alive ≡ true)
            ↔ (r.problems ≡ (if h.engine.accepting then [] else Problem.draining ∷ [])))
        × (h.engine.queued ≡ 0 → is_stalled stall_timeout now h ≡ false))
unfolding health is_stalled
health-problems stall_timeout now h = ground arith

-- Whatever the state of the pool, exact or broken, with fewer than 2 ^ 31 blocks and no more than 2
-- ^ 31 blocks on its lists, `refresh_gauges` leaves `invariants_ok` as it was and reports the
-- accounting as right: `num_used_blocks` is defined by the sum that is tested.
pub refresh_gauges-blind :
    (h : Host)
    → h.sched.kv.num_blocks < 2 ^ 31
    → num_available_blocks h.sched.kv ≤ 2 ^ 31
    → ((refresh_gauges h).invariants_ok ≡ h.invariants_ok)
      × ((refresh_gauges h).gauges.kv_accounting_ok ≡ true)
unfolding refresh_gauges balanced
refresh_gauges-blind h few short = ground arith
