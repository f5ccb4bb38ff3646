-- ===== src/Jobs/Types.antt =====
-- The records of internal/jobs/state.go. Numbers of a request are Go's `int`, read from JSON, so
-- they may be negative. A `map[string]any` is kept as its JSON text.
use inferbolt.Base.{ℕ, String, List, Bool, ◌&&◌, ◌==◌}
use inferbolt.Base.Int.{ℤ, eqb_ℤ}
use inferbolt.Base.Float64.{Float64}
use inferbolt.Jobs.State.{JobState}

pub record WorkloadConfig : Type 0 where
  pub concurrency : ℤ
  pub prompt_tokens : ℤ
  pub output_tokens : ℤ
  pub num_requests : ℤ

-- A zero or empty field means "unset".
pub record EngineConfig (F : Type 0) : Type 0 where
  pub quantization : String
  pub tensor_parallel : ℤ
  pub max_batch_size : ℤ
  pub max_model_len : ℤ
  pub gpu_memory_utilization : F

pub record Job (F : Type 0) : Type 0 where
  pub job_id : String
  pub tenant_id : String
  pub model : String
  pub engines : List String
  pub workload_config : WorkloadConfig
  pub engine_config : EngineConfig F
  pub gpu_profile : String
  pub state : JobState
  pub created_at : ℕ
  pub updated_at : ℕ
  pub error_msg : String
  pub run_id : String

-- `jobs.Result`, the measurements of one engine.
pub record Measurement (F : Type 0) : Type 0 where
  pub job_id : String
  pub run_id : String
  pub engine : String
  pub model : String
  pub ttft_p50_ms : F
  pub ttft_p99_ms : F
  pub itl_ms : F
  pub tok_per_s : F
  pub gpu_mem_mb : ℤ
  pub kv_cache_hit : F
  pub error_rate : F
  pub cost_per_mtok : F
  pub config : String

pub record Recommendation (F : Type 0) : Type 0 where
  pub job_id : String
  pub best_engine : String
  pub best_config : String
  pub cost_per_mtok : F
  pub tok_per_sec : F
  pub reasoning : String

-- Go's `==` on the two structs: field by field.
unfoldable pub same_workload : WorkloadConfig → WorkloadConfig → Bool
same_workload a b =
    eqb_ℤ a.concurrency b.concurrency
    && (eqb_ℤ a.prompt_tokens b.prompt_tokens
        && (eqb_ℤ a.output_tokens b.output_tokens && eqb_ℤ a.num_requests b.num_requests))

module _ {F : Type 0} ⦃f : Float64 F⦄ where
  unfoldable pub same_engine_config : EngineConfig F → EngineConfig F → Bool
  same_engine_config a b =
      (a.quantization == b.quantization)
      && (eqb_ℤ a.tensor_parallel b.tensor_parallel
          && (eqb_ℤ a.max_batch_size b.max_batch_size
              && (eqb_ℤ a.max_model_len b.max_model_len
                  && f.eq a.gpu_memory_utilization b.gpu_memory_utilization)))
