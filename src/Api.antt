-- ===== src/Api.antt =====
-- src/api: the HTTP boundary.
pub mod Errors
pub mod Sse
pub mod Middleware
pub mod Handlers
pub mod Admission
pub mod Query
