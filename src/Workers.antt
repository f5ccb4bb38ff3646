-- ===== src/Workers.antt =====
-- The registry of benchmark workers (internal/workers).
pub mod Registry
pub mod Selection
pub mod Liveness
pub mod History
pub mod Listing
pub mod Sorted
