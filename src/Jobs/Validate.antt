-- ===== src/Jobs/Validate.antt =====
-- internal/jobs/validate.go: what may be dispatched. An error is its text, and `nil` is `none`.
use inferbolt.Base.{
  ℕ, String, Bool, not, ◌&&◌, ◌||◌, Option, none, some, List, [], ◌∷◌, ◌==◌, concat, contains,
  if◌then◌else◌,
}
use inferbolt.Base.Int.{ℤ, pos, ltb_ℤ}
use inferbolt.Base.Float64.{Float64}
use inferbolt.Jobs.Types.{WorkloadConfig, EngineConfig}

abbrev pub valid_engines : List String
valid_engines = "vllm" ∷ "sglang" ∷ "tensorrt" ∷ "llamacpp" ∷ "ollama" ∷ "mock" ∷ []

abbrev pub valid_quantizations : List String
valid_quantizations = "fp8" ∷ "int8" ∷ "int4" ∷ "gptq" ∷ "awq" ∷ []

unfoldable pub validate_engines : List String → Option String
validate_engines [] = none
validate_engines (e ∷ engines) =
    if not (contains valid_engines e)
    then some (concat "unknown engine: " e)
    else validate_engines engines

-- `x < low || x > high`
unfoldable pub outside : ℤ → ℕ → ℕ → Bool
outside x low high = ltb_ℤ x (pos low) || ltb_ℤ (pos high) x

unfoldable pub validate_workload : WorkloadConfig → Option String
validate_workload w =
    if outside w.concurrency 1 1024
    then some "workload.concurrency must be between 1 and 1024"
    else if outside w.prompt_tokens 1 1000000
    then some "workload.prompt_tokens must be between 1 and 1000000"
    else if outside w.output_tokens 1 1000000
    then some "workload.output_tokens must be between 1 and 1000000"
    else if outside w.num_requests 1 100000
    then some "workload.num_requests must be between 1 and 100000"
    else none

-- `c.Quantization != "" && !ValidQuantizations[c.Quantization]`
unfoldable pub unknown_quantization : String → Bool
unknown_quantization q = not (q == "") && not (contains valid_quantizations q)

module _ {F : Type 0} ⦃f : Float64 F⦄ where
  unfoldable pub validate_engine_config : EngineConfig F → Option String
  validate_engine_config c =
      if unknown_quantization c.quantization
      then some (concat "unknown quantization: " c.quantization)
      else if outside c.tensor_parallel 0 8
      then some "engine_config.tensor_parallel must be between 1 and 8 (0 = engine default)"
      else if outside c.max_batch_size 0 4096
      then some "engine_config.max_batch_size must be between 1 and 4096 (0 = engine default)"
      else if outside c.max_model_len 0 1048576
      then some "engine_config.max_model_len must be between 1 and 1048576 (0 = engine default)"
      else if f.lt c.gpu_memory_utilization (f.decimal 0 0)
          || f.lt (f.decimal 1 0) c.gpu_memory_utilization
      then some "engine_config.gpu_memory_utilization must be between 0 and 1 (0 = engine default)"
      else none
