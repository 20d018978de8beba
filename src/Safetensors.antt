-- ===== src/Safetensors.antt =====
-- include/engine/safetensors.h and src/safetensors/safetensors.cpp: reading weights.
pub mod Defs
mod Bounds
mod Tests
