-- ===== src/Agent.antt =====
-- src/agent: what the agent can do, as its servers say.
pub mod Registry
