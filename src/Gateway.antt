-- ===== src/Gateway.antt =====
-- The handlers of the gateway (internal/gateway).
pub mod Handlers
pub mod Campaigns
pub mod Requests
pub mod Reads
pub mod Isolation
pub mod ApiKeys
pub mod DevKey
pub mod Issued
pub mod Restarts
