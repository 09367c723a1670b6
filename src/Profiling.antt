-- ===== src/Profiling.antt =====
-- profiling/profiler.py and schema/sensitivity.py: bounded descriptions of a table's columns.
pub mod Sensitivity
pub mod Statements
pub mod Profiler
