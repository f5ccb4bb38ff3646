-- ===== src/Examples.antt =====
-- The theorems at concrete inputs.
mod Data
mod JobTests
mod AgentTests
mod CampaignTests
mod RouterTests
mod WorkerTests
mod AuthTests
mod DriftTests
mod GatewayTests
mod OperatorTests
mod OrchestratorTests
mod CliTests
