-- ===== src/Jobs/Dispatchable.antt =====
-- What internal/jobs/validate.go accepts, and whom it blames.
use inferbolt.Base.{
  ℕ, ◌≡◌, refl, ◌↔◌, ◌⊎◌, String, false, none, some, List, [], ◌∷◌, ◌++◌, concat, arith, All,
  eq_iff, contains-OneOf, OneOf-contains,
}
use inferbolt.Base.Int.{ℤ, pos, ◌≤ℤ◌}
use inferbolt.Base.Float64.{Float64}
use inferbolt.Jobs.Types.{WorkloadConfig, EngineConfig}
use inferbolt.Jobs.Validate.{
  valid_engines, valid_quantizations, outside, unknown_quantization, validate_engines,
  validate_workload, validate_engine_config,
}

-- The engines that have an adapter, one by one.
abbrev pub IsEngine : String → Type 0
IsEngine e =
    ("vllm" ≡ e)
    ⊎ ("sglang" ≡ e)
    ⊎ ("tensorrt" ≡ e)
    ⊎ ("llamacpp" ≡ e)
    ⊎ ("ollama" ≡ e)
    ⊎ ("mock" ≡ e)

abbrev pub Runnable : WorkloadConfig → Type 0
Runnable w =
    (pos 1 ≤ℤ w.concurrency)
    × (w.concurrency ≤ℤ pos 1024)
    × (pos 1 ≤ℤ w.prompt_tokens)
    × (w.prompt_tokens ≤ℤ pos 1000000)
    × (pos 1 ≤ℤ w.output_tokens)
    × (w.output_tokens ≤ℤ pos 1000000)
    × (pos 1 ≤ℤ w.num_requests)
    × (w.num_requests ≤ℤ pos 100000)

outside_iff :
    (x : ℤ) (low high : ℕ) → (outside x low high ≡ false) ↔ ((pos low ≤ℤ x) × (x ≤ℤ pos high))
unfolding outside
outside_iff x low high = (λ h. ground arith, λ h. ground arith)

-- A workload passes exactly when each of its four numbers lies in its range.
pub validate_workload_iff : (w : WorkloadConfig) → (validate_workload w ≡ none) ↔ Runnable w
unfolding validate_workload
validate_workload_iff w = (
  λ h. ground (
    arith,
    outside_iff w.concurrency 1 1024,
    outside_iff w.prompt_tokens 1 1000000,
    outside_iff w.output_tokens 1 1000000,
    outside_iff w.num_requests 1 100000,
  ),
  λ h. ground (
    arith,
    outside_iff w.concurrency 1 1024,
    outside_iff w.prompt_tokens 1 1000000,
    outside_iff w.output_tokens 1 1000000,
    outside_iff w.num_requests 1 100000,
  ),
)

validate_engines-All : (es : List String) → validate_engines es ≡ none → All IsEngine es
unfolding validate_engines
validate_engines-All [] h = tt
validate_engines-All (e ∷ es) h =
    (contains-OneOf valid_engines e (ground arith), validate_engines-All es (ground arith))

-- The first engine that has no adapter is the one that the error names, and without one the list
-- passes.
validate_engines_first :
    (xs ys : List String) (e : String)
    → All IsEngine xs
    → (validate_engines xs ≡ none)
      × (¬ IsEngine e → validate_engines (xs ++ e ∷ ys) ≡ some (concat "unknown engine: " e))
unfolding validate_engines
validate_engines_first [] ys e h = (refl, λ bad. ground (arith, contains-OneOf valid_engines e))
validate_engines_first (x ∷ xs) ys e h =
    ground (arith, OneOf-contains valid_engines x h.0, validate_engines_first xs ys e h.1)

-- A list of engines passes exactly when every one of them has an adapter.
pub validate_engines_iff : (es : List String) → (validate_engines es ≡ none) ↔ All IsEngine es
validate_engines_iff es = (validate_engines-All es, λ h. (validate_engines_first es [] "" h).0)

abbrev IsQuantization : String → Type 0
IsQuantization q = ("fp8" ≡ q) ⊎ ("int8" ≡ q) ⊎ ("int4" ≡ q) ⊎ ("gptq" ≡ q) ⊎ ("awq" ≡ q)

unknown_quantization_iff :
    (q : String) → (unknown_quantization q ≡ false) ↔ (("" ≡ q) ⊎ IsQuantization q)
unfolding unknown_quantization
unknown_quantization_iff q = (
  λ h. ground (arith, eq_iff q "", contains-OneOf valid_quantizations q),
  λ h. ground (arith, eq_iff q "", OneOf-contains valid_quantizations q),
)

module _ {F : Type 0} ⦃f : Float64 F⦄ where
  -- What the worker accepts: a known quantization or none, the three counts in range with 0 for
  -- the engine's default, and a memory fraction that is neither below 0 nor above 1.
  abbrev pub Configurable : EngineConfig F → Type 0
  Configurable c =
      (("" ≡ c.quantization) ⊎ IsQuantization c.quantization)
      × (pos 0 ≤ℤ c.tensor_parallel)
      × (c.tensor_parallel ≤ℤ pos 8)
      × (pos 0 ≤ℤ c.max_batch_size)
      × (c.max_batch_size ≤ℤ pos 4096)
      × (pos 0 ≤ℤ c.max_model_len)
      × (c.max_model_len ≤ℤ pos 1048576)
      × (f.lt c.gpu_memory_utilization (f.decimal 0 0) ≡ false)
      × (f.lt (f.decimal 1 0) c.gpu_memory_utilization ≡ false)

  -- An engine configuration passes exactly when all its fields are in range.
  pub validate_engine_config_iff :
      (c : EngineConfig F) → (validate_engine_config c ≡ none) ↔ Configurable c
  unfolding validate_engine_config
  validate_engine_config_iff c = (
    λ h. ground (
      arith,
      unknown_quantization_iff c.quantization,
      outside_iff c.tensor_parallel 0 8,
      outside_iff c.max_batch_size 0 4096,
      outside_iff c.max_model_len 0 1048576,
    ),
    λ h. ground (
      arith,
      unknown_quantization_iff c.quantization,
      outside_iff c.tensor_parallel 0 8,
      outside_iff c.max_batch_size 0 4096,
      outside_iff c.max_model_len 0 1048576,
    ),
  )
