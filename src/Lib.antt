-- ===== src/Lib.antt =====
-- InferBolt: benchmark jobs, the workers that run them, and the campaigns of an agent that looks for
-- the best configuration. A model of the Go code under internal/, cmd/ and k8s/ as functions of its
-- state, with the theorems that say what it promises.
--
-- A job is a row that a queue worker takes through its states (Jobs). To run it, the queue worker
-- takes an idle machine from the registry (Workers). The router classifies a workload and chooses
-- an engine and a machine (Router). A campaign asks a planner for the next benchmark, within a budget
-- (Agent), and runs as a queue job of its own whose trials are ordinary jobs (Campaigns). Requests
-- pass the middleware first (Auth), then the handlers that create, cancel
-- and read jobs and campaigns (Gateway). Results arrive at the orchestrator (Orchestrator), which
-- stores the measurements (Metrics). A detector compares new results with a baseline (Drift). An
-- operator keeps a Kubernetes resource with its deployment (Operator), and the command line starts
-- what it needs, follows campaigns and compares results (Cli).
--
-- Files and code:
--   Jobs/State, Types, Validate      internal/jobs/state.go, internal/jobs/validate.go
--   Jobs/Store                       internal/config/store.go
--   Jobs/Worker                      internal/jobs/worker.go: work, move_job (updateJobState),
--                                    poll_for_results (pollForResults)
--   Workers/Registry, Listing        internal/workers/registry.go
--   Router/Classifier                internal/router/classifier.go
--   Router/EngineSelector            internal/router/engine_selector.go
--   Agent/Budget, Types              internal/agent/budget.go, platform.go, events.go
--   Agent/Tools, Benchmark           internal/agent/tools.go
--   Agent/Conclude, Run              internal/agent/agent.go
--   Campaigns/Rows, Store            internal/campaigns/campaign.go, internal/campaigns/store.go
--   Campaigns/Worker, Platform, Reads
--                                    internal/campaigns/worker.go, internal/campaigns/platform.go
--   Auth/Keys                        internal/auth/apikey.go
--   Auth/Middleware                  internal/auth/middleware.go, internal/auth/cors.go
--   Drift/Baseline, Detector         internal/drift/baseline.go, internal/drift/detector.go
--   Gateway/Handlers, Campaigns      internal/gateway/handlers.go, internal/gateway/campaigns.go
--   Gateway/Reads                    the same two files: the handlers that read
--   Gateway/ApiKeys                  CreateAPIKey there, Issue of internal/auth/apikey.go
--   Gateway/DevKey                   cmd/gateway/main.go: bootstrapDevKey
--   Drift/Notifier, Collector        internal/drift/notifier.go, cmd/collector/main.go
--   Campaigns/Listing                internal/campaigns/store.go: List, Count
--   Metrics/Store                    internal/metrics/timescale.go
--   Orchestrator/Handlers            cmd/orchestrator/main.go
--   Operator/Types                   k8s/crds/optimized_inference_types.go
--   Operator/Deployment, Reconcile   cmd/operator/main.go
--   Operator/Api                     the API server as the operator uses it
--   Cli/Client                       internal/cli/client.go
--   Cli/PollJob                      the same file, and cmd/inferbolt/main.go: pollAndReport
--   Cli/Follow                       cmd/inferbolt/campaigns.go
--   Cli/Wrap                         cmd/inferbolt/agent.go
--   Cli/Bootstrap, Stack, Table      cmd/inferbolt/main.go, internal/cli/config.go, orchestrator.go
-- The other files of these directories hold proofs, Base the helpers they share, and Examples the
-- theorems at concrete inputs.
--
-- State is a record or a list of rows that each operation takes and returns. A Go map is an
-- association list, and a loop over one visits any list with the same entries, each once. An error
-- is a value: its text, or a constructor where the text only shows numbers. What PostgreSQL,
-- the queue, the planner, the JWT library, the cache, the clock and the network answer is an
-- argument; a statement that the database refuses leaves the tables as they were. A float64 is a
-- parameter with its operations, of which only order laws that hold of NaN too are assumed, and only
-- where a theorem says so. Go's int is an integer with sums and products wrapped to 64 bits where
-- they can grow (token counts, durations made from a request).
--
-- Bounds: the loop of Run (turn_loop) has fuel for one round more than the turns of the budget,
-- since every round counts a turn; the polling loops are functions of the events that they see, and
-- answer `none` while none of these has ended them. The digits of a number (Base/Texts) are given
-- one step more than the number, which has no more digits than that.
--
-- Not modelled: the handlers of health, engines, workers and the classifier's route; the start of
-- the processes under cmd/, the flags and the printing of the command line and the
-- UI; JSON, HTTP, logging and tracing; the prompt and the tool schemas of the agent; the goroutines,
-- of which one tick is a step; the Python worker. The Kubernetes API server is a record of functions
-- with the documented laws of a resource with the status subresource, and a cluster of one resource
-- meets them (Examples/OperatorTests).
mod Base
pub mod Jobs
pub mod Workers
pub mod Router
pub mod Agent
pub mod Campaigns
pub mod Auth
pub mod Drift
pub mod Metrics
pub mod Gateway
pub mod Operator
pub mod Orchestrator
pub mod Cli
mod Examples
