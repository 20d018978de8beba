-- ===== src/Bench.antt =====
-- bench/kv_waste.cpp: the simulations that compare how allocators use the cache.
pub mod Contiguous
pub mod Paged
mod Regions
mod Rounds
mod Ends
mod Tests
