-- ===== src/Config.antt =====
-- include/engine/config.h and src/config/config.cpp: the shape of a model.
pub mod Defs
mod Heads
mod Tests
