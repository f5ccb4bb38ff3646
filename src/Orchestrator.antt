-- ===== src/Orchestrator.antt =====
-- The orchestrator process (cmd/orchestrator).
pub mod Handlers
pub mod Results
