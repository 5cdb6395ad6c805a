-- ===== src/Observability.antt =====
-- internal/observability: the keys of log lines, and the metrics.
pub mod Log
pub mod Metrics
