-- ===== src/Mcp.antt =====
-- src/mcp_servers: the tools that an agent calls.
pub mod Tools
