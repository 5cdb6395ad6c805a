-- ===== src/Api/Server.antt =====
-- internal/api/server: the server over a read model.
pub mod Errors
pub mod Authz
pub mod Handlers
pub mod Problems
pub mod Lookup
pub mod Checkpoint
pub mod Middleware
pub mod Recording
pub mod Routes
pub mod Delivery
pub mod Answers
pub mod Targets
