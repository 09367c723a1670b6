-- ===== src/Tests.antt =====
-- The theorems applied to concrete inputs, over a small concrete platform.
pub mod Sample
mod Settings
mod Deployment
mod Profiling
mod Schema
mod Http
mod Agent
mod Runs
mod Validation
mod Execution
mod Api
mod Measures
mod Mcp
