-- ===== src/Router/Classifier.antt =====
-- internal/router/classifier.go. The prose of `Reasoning` is one of five texts, here a constructor
-- each; the second is printed with the ratio.
use inferbolt.Base.{ℕ, zero, suc, String, Bool, ◌||◌, if◌then◌else◌}
use inferbolt.Base.Int.{ℤ, pos, ltb_ℤ}
use inferbolt.Base.Float64.{Float64}

pub data WorkloadType : Type 0 where
  chat batch rag agent : WorkloadType

pub record ClassificationInput (F : Type 0) : Type 0 where
  pub prompt_tokens : ℤ
  pub output_tokens : ℤ
  pub concurrency : ℤ
  pub structured_output : Bool
  pub tool_calls : Bool
  pub shared_prefix_ratio : F

pub data Reasoning (F : Type 0) : Type 0 where
  constrained_decoding long_sequences high_concurrency low_latency : Reasoning F
  shared_prefix : F → Reasoning F

pub record ClassificationResult (F : Type 0) : Type 0 where
  pub workload_type : WorkloadType
  pub recommended_engine : String
  pub reasoning : Reasoning F
  pub confidence : F

module _ {F : Type 0} ⦃f : Float64 F⦄ where
  calculate_confidence : ℕ → F
  calculate_confidence zero = f.decimal 95 2
  calculate_confidence (suc zero) = f.decimal 95 2
  calculate_confidence (suc (suc zero)) = f.decimal 75 2
  calculate_confidence (suc (suc (suc n))) = f.decimal 6 1

  abbrev matched : WorkloadType → String → Reasoning F → ℕ → ClassificationResult F
  unfolding calculate_confidence
  matched type engine reasoning conditions = record {
    workload_type = type;
    recommended_engine = engine;
    reasoning = reasoning;
    confidence = calculate_confidence conditions;
  }

  unfoldable pub classify : ClassificationInput F → ClassificationResult F
  unfolding matched calculate_confidence
  classify input =
      if input.tool_calls || input.structured_output
      then matched agent "sglang" constrained_decoding 1
      else if f.lt (f.decimal 4 1) input.shared_prefix_ratio
      then matched rag "sglang" (shared_prefix (f.mul input.shared_prefix_ratio (f.decimal 100 0)))
          1
      else if ltb_ℤ (pos 1024) input.prompt_tokens || ltb_ℤ (pos 512) input.output_tokens
      then matched batch "vllm" long_sequences 1
      else if ltb_ℤ (pos 50) input.concurrency
      then matched batch "vllm" high_concurrency 1
      else matched chat "vllm" low_latency 0
