-- ===== src/Benchmark.antt =====
-- src/benchmark: the questions the service is measured on.
pub mod Splits
