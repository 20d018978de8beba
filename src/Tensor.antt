-- ===== src/Tensor.antt =====
-- include/engine/tensor.h: the scalar conversions.
pub mod Half
mod Exact
mod Tests
