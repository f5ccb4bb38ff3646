-- ===== src/Examples/RouterTests.antt =====
-- The theorems on the router at concrete inputs.
use inferbolt.Base.{
  String, ◌≡◌, ◌≢◌, ◌↔◌, refl, true, false, none, some, [], ◌∷◌, All, Option, if◌then◌else◌, ◌==◌,
  eq_iff, arith,
}
use inferbolt.Base.Int.{pos}
use inferbolt.Base.Float64.{Micros, micros, micros_float}
use inferbolt.Base.Results.{ok}
use inferbolt.Router.Classifier.{
  ClassificationInput, agent, rag, batch, chat, classify, ClassificationResult, Reasoning,
}
use inferbolt.Router.Priorities.{Structured, SharesPrefix, Heavy, classify_iff}
use inferbolt.Router.EngineSelector.{
  SelectionRequest, SelectionResult, ExtendedWorkerEntry, CacheWrite, cache_key, select,
  recommended_result, find_recommended, selection_ttl,
}
use inferbolt.Router.Choice.{Available, Member, joined, select_fresh, select_reuses}
use inferbolt.Examples.Data.{worker}

abbrev input : ClassificationInput Micros
input = record {
  prompt_tokens = pos 2000;
  output_tokens = pos 10;
  concurrency = pos 1;
  structured_output = false;
  tool_calls = false;
  shared_prefix_ratio = micros (pos 500000);
}

classify_iff_example :
    ((classify input).workload_type ≡ agent ↔ Structured input)
    × ((classify input).workload_type ≡ rag ↔ ((¬ Structured input) × SharesPrefix input))
    × ((classify input).workload_type ≡ batch
        ↔ ((¬ Structured input) × (¬ SharesPrefix input) × Heavy input))
    × ((classify input).workload_type ≡ chat
        ↔ ((¬ Structured input) × (¬ SharesPrefix input) × (¬ Heavy input)))
classify_iff_example = classify_iff input

abbrev advice : ClassificationResult Micros
advice = record {
  workload_type = chat;
  recommended_engine = "vllm";
  reasoning = Reasoning.low_latency;
  confidence = micros (pos 750000);
}

abbrev request_of : String → String → SelectionRequest Micros
request_of tenant gpu = record {
  classification = advice;
  gpu_profile = gpu;
  tenant_id = tenant;
  fallback_allowed = true;
}

abbrev vllm_worker : ExtendedWorkerEntry
vllm_worker = record { entry = worker; engine = "vllm" }

abbrev request : SelectionRequest Micros
request = request_of "acme:eu" "A100"

abbrev chosen : SelectionResult
chosen = recommended_result vllm_worker

abbrev other : SelectionRequest Micros
other = request_of "acme" "eu:A100"

abbrev nothing : String → Option SelectionResult
nothing key = none

abbrev written : CacheWrite
written = record { key = "sel:acme:eu:A100"; value = chosen; ttl = selection_ttl }

abbrev holding : String → Option SelectionResult
holding key = if key == "sel:acme:eu:A100" then some chosen else none

select_fresh_example :
    (w : ExtendedWorkerEntry) × Member w (vllm_worker ∷ [])
    × Available "A100" w
    × (chosen.worker_id ≡ w.entry.worker_id)
    × (chosen.engine ≡ w.engine)
    × (chosen.used_fallback ≡ false → chosen.engine ≡ "vllm")
    × (chosen.used_fallback ≡ true
        → (request.fallback_allowed ≡ true)
          × All (λ v. Available "A100" v → v.engine ≢ "vllm") (vllm_worker ∷ []))
unfolding select find_recommended
select_fresh_example = select_fresh request (vllm_worker ∷ []) nothing chosen refl refl

select_reuses_example :
    (written.ttl ≡ 30000000000)
    × (joined other ≡ joined request → select other [] holding ≡ (ok chosen, none))
    × (joined other ≢ joined request → select other [] holding ≡ select other [] nothing)
unfolding select find_recommended cache_key
select_reuses_example =
    select_reuses request other (vllm_worker ∷ []) [] nothing holding chosen written refl refl
      (λ key h. ground (arith, h, eq_iff key "sel:acme:eu:A100"))
