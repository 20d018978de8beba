-- ===== src/Sampler.antt =====
-- include/engine/sampler.h and src/model/sampler.cpp: which token is generated.
pub mod Defs
mod Order
mod Nucleus
pub mod Steps
mod Tests
