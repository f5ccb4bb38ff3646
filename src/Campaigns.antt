-- ===== src/Campaigns.antt =====
-- Campaigns that the orchestrator runs (internal/campaigns).
pub mod Rows
pub mod Store
pub mod Feed
pub mod Claims
pub mod Worker
pub mod Platform
pub mod Runs
pub mod Trials
pub mod Listing
pub mod Reads
