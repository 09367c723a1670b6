-- ===== src/Evals.antt =====
-- src/evals: scoring a run against the reference answers.
pub mod Taxonomy
pub mod Recall
pub mod Artifacts
pub mod Runner
