-- ===== src/Execution.antt =====
-- execution/executor.py: running a validated query under limits that the caller cannot raise.
-- `RowLimit` bounds the statement, `Audit` records, `Executor` has `explain` and `execute`.
pub mod RowLimit
pub mod Audit
pub mod Executor
pub mod Runs
pub mod Bounds
pub mod Reparse
pub mod Trail
pub mod Traffic
pub mod Agreement
