-- ===== src/Auth.antt =====
-- The middleware in front of the gateway (internal/auth).
pub mod Keys
pub mod Middleware
pub mod Access
pub mod Rates
