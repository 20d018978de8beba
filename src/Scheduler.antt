-- ===== src/Scheduler.antt =====
-- include/engine/scheduler.h and src/scheduler/scheduler.cpp: iteration-level scheduling.
pub mod Defs
mod Admit
pub mod Step
pub mod Done
pub mod Pool
pub mod Sound
pub mod Evict
mod Place
mod Split
mod Queues
pub mod Slices
mod Waiting
mod Enter
mod Admission
mod Rejects
pub mod Plan
mod Touch
mod Apply
pub mod Settle
pub mod Runs
mod Tests
unfoldable pub use Done.{contains}
