-- ===== src/Operator/Types.antt =====
-- k8s/crds/optimized_inference_types.go, and what cmd/operator/main.go sends to the orchestrator
-- and reads from it. An `int32` is an integer; a nil time is `none`.
use inferbolt.Base.{ℕ, String, Bool, Option, List}
use inferbolt.Base.Int.{ℤ}
use inferbolt.Base.Results.{Result}

pub record ResourceSpec : Type 0 where
  pub gpu_count : ℤ
  pub memory_gb : ℤ
  pub cpu_cores : ℤ

pub record OptimizedInferenceSpec : Type 0 where
  pub model : String
  pub engine : String
  pub gpu_profile : String
  pub replicas : ℤ
  pub quantization : String
  pub tensor_parallel : ℤ
  pub max_batch_size : ℤ
  pub max_model_len : ℤ
  pub resources : ResourceSpec
  pub auto_optimize : Bool

pub record OptimizedInferenceStatus : Type 0 where
  pub phase : String
  pub message : String
  pub last_optimized_at : Option ℕ
  pub current_config : String
  pub benchmark_job_id : String
  pub observed_generation : ℤ

-- Of the metadata, the name and the namespace.
pub record OptimizedInference : Type 0 where
  pub name : String
  pub namespace : String
  pub spec : OptimizedInferenceSpec
  pub status : OptimizedInferenceStatus

pub record BenchmarkWorkloadConfig : Type 0 where
  pub concurrency : ℕ
  pub prompt_tokens : ℕ
  pub output_tokens : ℕ
  pub num_requests : ℕ

pub record BenchmarkJobRequest : Type 0 where
  pub model : String
  pub engines : List String
  pub workload : BenchmarkWorkloadConfig
  pub gpu_profile : String

pub record OptimizationResult : Type 0 where
  pub quantization : String
  pub tensor_parallel : ℤ
  pub max_batch_size : ℤ

-- An HTTP response: its status, and its body as the decoder reads it, or the decoder's error.
pub record Reply (A : Type 0) : Type 0 where
  pub status : ℕ
  pub body : Result A

-- What answers during one reconciliation: `http.NewRequestWithContext` to a URL, the HTTP client
-- to each request (a job's id, a job's state, a job's results), the clock and `json.Marshal` of a
-- spec. The body of a job request is texts and numbers, which always marshal.
pub record Outside : Type 0 where
  pub orchestrator_url : String
  pub bad_url : String → Option String
  pub post_job : BenchmarkJobRequest → Result (Reply String)
  pub get_state : String → Result (Reply String)
  pub get_results : String → Result (Reply OptimizationResult)
  pub now : ℕ
  pub spec_json : OptimizedInferenceSpec → Result String
