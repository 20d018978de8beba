-- ===== src/Engine.antt =====
-- include/engine/engine.h and src/api/engine.cpp: what the engine does before a request reaches the
-- scheduler, and the step loop of its thread.
pub mod Defs
mod Limits
mod Inbox
mod Overlap
mod Claims
mod Races
pub mod Loop
pub mod Health
mod Pull
mod Serve
mod Turn
mod Life
mod Death
mod Sampled
pub mod Sample
mod Tests
