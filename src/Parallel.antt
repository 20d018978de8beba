-- ===== src/Parallel.antt =====
-- include/engine/parallel.h: the worker pool of the CPU backend.
mod Defs
mod Partition
mod Protocol
mod Workers
mod Returns
mod Tests
