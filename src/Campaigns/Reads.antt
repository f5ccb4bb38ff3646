-- ===== src/Campaigns/Reads.antt =====
-- internal/campaigns/platform.go: the three reads of a campaign's platform. The workers are
-- visited in the order of the argument, as by the loop over the map.
use inferbolt.Base.{ℕ, String, Option, List, map}
use inferbolt.Base.Float64.{Float64}
use inferbolt.Base.Maps.{Dict}
use inferbolt.Base.Results.{Result, ok}
use inferbolt.Jobs.Types.{Job, Measurement}
use inferbolt.Metrics.Store.{BenchRow, query_by_tenant_engine_and_model}
use inferbolt.Router.Classifier.{ClassificationInput, ClassificationResult, classify}
use inferbolt.Workers.Registry.{WorkerStatus, WorkerEntry}
use inferbolt.Workers.Listing.{list}
use inferbolt.Agent.Types.{AgentWorker}

status_text : WorkerStatus → String
status_text WorkerStatus.idle = "idle"
status_text WorkerStatus.busy = "busy"
status_text WorkerStatus.offline = "offline"

abbrev shown : WorkerEntry → AgentWorker
shown w = record { worker_id = w.worker_id; gpu_type = w.gpu_type; status = status_text w.status }

abbrev list_workers : Dict WorkerEntry → Result (List AgentWorker)
list_workers order = ok (map shown (list order))

module _ {F : Type 0} where
  abbrev historical_results :
      Option String
      → String
      → String
      → String
      → ℕ
      → Dict (Job F)
      → List (BenchRow F)
      → Result (List (Measurement F))
  historical_results fault tenant engine model since jobs rows =
      query_by_tenant_engine_and_model fault tenant engine model since jobs rows

  abbrev classify_workload :
      ⦃f : Float64 F⦄ → ClassificationInput F → Result (ClassificationResult F)
  classify_workload input = ok (classify input)
