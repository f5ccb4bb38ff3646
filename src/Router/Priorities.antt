-- ===== src/Router/Priorities.antt =====
-- The classifier of internal/router/classifier.go as a decision between five conditions.
use inferbolt.Base.{String, ◌≡◌, ◌↔◌, ◌⊎◌, true, arith, none, refl, ◌∷◌, []}
use inferbolt.Base.Int.{pos, ◌<ℤ◌}
use inferbolt.Base.Float64.{Float64}
use inferbolt.Jobs.Validate.{validate_engines}
use inferbolt.Router.Classifier.{
  WorkloadType, chat, batch, rag, agent, ClassificationInput, classify,
}

abbrev pub engine_for : WorkloadType → String
engine_for agent = "sglang"
engine_for rag = "sglang"
engine_for batch = "vllm"
engine_for chat = "vllm"

engine_for-valid : (t : WorkloadType) → validate_engines (engine_for t ∷ []) ≡ none
unfolding validate_engines
engine_for-valid agent = refl
engine_for-valid _ = refl

module _ {F : Type 0} ⦃f : Float64 F⦄ (i : ClassificationInput F) where
  abbrev pub Structured : Type 0
  Structured = (i.tool_calls ≡ true) ⊎ (i.structured_output ≡ true)

  abbrev pub SharesPrefix : Type 0
  SharesPrefix = f.lt (f.decimal 4 1) i.shared_prefix_ratio ≡ true

  abbrev pub Heavy : Type 0
  Heavy = (pos 1024 <ℤ i.prompt_tokens) ⊎ (pos 512 <ℤ i.output_tokens) ⊎ (pos 50 <ℤ i.concurrency)

  -- Structured output or tool calls make an agent workload, whatever else holds; without them a
  -- shared prefix of over 0.4 makes RAG; without both, many tokens or requests make a batch, and
  -- only what is left is chat. Each of the four conditions is also necessary.
  pub classify_iff :
      ((classify i).workload_type ≡ agent ↔ Structured)
      × ((classify i).workload_type ≡ rag ↔ ((¬ Structured) × SharesPrefix))
      × ((classify i).workload_type ≡ batch ↔ ((¬ Structured) × (¬ SharesPrefix) × Heavy))
      × ((classify i).workload_type ≡ chat ↔ ((¬ Structured) × (¬ SharesPrefix) × (¬ Heavy)))
  unfolding classify
  classify_iff = (
    (λ h. ground arith, λ h. ground arith),
    (λ h. (ground arith, ground arith), λ h. ground arith),
    (λ h. (ground arith, ground arith, ground arith), λ h. ground arith),
    (λ h. (ground arith, ground arith, ground arith), λ h. ground arith),
  )

  -- The engine follows from the kind of workload, and what the classifier recommends always passes
  -- the validation of engines.
  pub classify_engine :
      ((classify i).recommended_engine ≡ engine_for (classify i).workload_type)
      × (validate_engines ((classify i).recommended_engine ∷ []) ≡ none)
  classify_engine =
      (engine_of_kind, rw engine_of_kind (engine_for-valid (classify i).workload_type))
    where
      engine_of_kind : (classify i).recommended_engine ≡ engine_for (classify i).workload_type
      engine_of_kind = unfold classify in ground arith
