-- ===== src/Audit.antt =====
-- internal/audit: the audit pipeline.
pub mod Types
pub mod Ulid
pub mod Redaction
pub mod Payloads
pub mod Emitter
pub mod Webhook
