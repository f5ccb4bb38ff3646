-- ===== src/Examples/Data.antt =====
-- The jobs, workers and campaigns of the examples. A float is a whole number of millionths.
use inferbolt.Base.{none, List, [], ◌∷◌}
use inferbolt.Base.Int.{pos}
use inferbolt.Base.Float64.{Micros, micros}
use inferbolt.Base.Results.{ok}
use inferbolt.Jobs.State.{pending}
use inferbolt.Jobs.Types.{WorkloadConfig, EngineConfig, Job, Measurement}
use inferbolt.Jobs.Store.{Db}
use inferbolt.Jobs.Worker.{Faults, World, Attempt, PollEvent, tick}
use inferbolt.Workers.Registry.{WorkerEntry, WorkerRegistry, idle}

abbrev pub workload : WorkloadConfig
workload = record {
  concurrency = pos 4;
  prompt_tokens = pos 512;
  output_tokens = pos 128;
  num_requests = pos 10;
}

abbrev pub config : EngineConfig Micros
config = record {
  quantization = "";
  tensor_parallel = pos 0;
  max_batch_size = pos 0;
  max_model_len = pos 0;
  gpu_memory_utilization = micros (pos 900000);
}

abbrev pub job : Job Micros
job = record {
  job_id = "j1";
  tenant_id = "acme";
  model = "m";
  engines = "vllm" ∷ [];
  workload_config = workload;
  engine_config = config;
  gpu_profile = "A100";
  state = pending;
  created_at = 5;
  updated_at = 5;
  error_msg = "";
  run_id = "";
}

abbrev pub db : Db Micros
db = record { jobs = ("j1", job) ∷ []; recommendations = []; audit_log = [] }

abbrev pub empty_db : Db Micros
empty_db = record { jobs = []; recommendations = []; audit_log = [] }

abbrev pub worker : WorkerEntry
worker = record {
  worker_id = "w1";
  url = "http://w1";
  gpu_type = "A100";
  status = idle;
  last_seen = 7;
  current_job_id = "";
}

abbrev pub registry : WorkerRegistry
registry = record { workers = ("w1", worker) ∷ [] }

abbrev pub world : World Micros
world = record { db = db; registry = registry }

abbrev pub no_faults : Faults
no_faults = record { read = none; write = none }

abbrev pub attempt_with : List PollEvent → Attempt Micros
attempt_with events = record {
  now = 9;
  start_faults = no_faults;
  order = registry.workers;
  marshal_error = none;
  request_error = none;
  response = ok (ok "r1");
  fail_faults = no_faults;
  collect_faults = no_faults;
  meanwhile = λ w. w;
  events = events;
}

abbrev pub failing : Attempt Micros
failing = attempt_with (tick (ok ("failed", "oom")) ∷ [])

abbrev pub measurement : Measurement Micros
measurement = record {
  job_id = "j1";
  run_id = "r1";
  engine = "vllm";
  model = "m";
  ttft_p50_ms = micros (pos 1000000);
  ttft_p99_ms = micros (pos 2000000);
  itl_ms = micros (pos 1000000);
  tok_per_s = micros (pos 5000000);
  gpu_mem_mb = pos 100;
  kv_cache_hit = micros (pos 0);
  error_rate = micros (pos 0);
  cost_per_mtok = micros (pos 3000000);
  config = "null";
}
