-- ===== src/Jobs.antt =====
-- The domain of benchmark jobs (internal/jobs).
pub mod State
pub mod Lifecycle
pub mod Types
pub mod Validate
pub mod Dispatchable
pub mod Store
pub mod Worker
pub mod Polling
pub mod Attempts
pub mod Runs
pub mod Rows
