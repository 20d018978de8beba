-- ===== src/Metrics.antt =====
-- include/engine/metrics.h and src/api/metrics.cpp: histograms.
pub mod Histogram
mod Counts
mod Tests
