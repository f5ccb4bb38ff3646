-- ===== src/Router.antt =====
-- The rules that route a workload to an engine and a worker (internal/router).
pub mod Classifier
pub mod Priorities
pub mod EngineSelector
pub mod Choice
