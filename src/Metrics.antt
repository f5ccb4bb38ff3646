-- ===== src/Metrics.antt =====
-- The measurements of internal/metrics.
pub mod Store
pub mod Queries
