-- ===== src/Agent.antt =====
-- The agent that runs one optimization campaign (internal/agent).
pub mod Budget
pub mod Types
pub mod Tools
pub mod Benchmark
pub mod Limits
pub mod Conclude
pub mod Best
pub mod Run
pub mod Turns
pub mod Reports
pub mod Evidence
pub mod Whole
