-- ===== src/Drift.antt =====
-- The drift detector (internal/drift).
pub mod Baseline
pub mod Detector
pub mod Statistics
pub mod Alerts
pub mod Notifier
pub mod Collector
pub mod Resets
