-- ===== src/Api.antt =====
-- The read API: api/v1alpha1, the wire types, the read-model port and its adapter over the custom
-- resources, the authentication and the server.
pub mod Resources
pub mod Wire
pub mod Port
pub mod CrdSource
pub mod Fixtures
pub mod Auth
pub mod Server
