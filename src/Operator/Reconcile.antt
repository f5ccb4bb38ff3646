-- ===== src/Operator/Reconcile.antt =====
-- cmd/operator/main.go: `Reconcile` and its calls of the orchestrator. `update_status` is
-- `r.Status().Update`.
use inferbolt.Base.{
  ℕ, String, Bool, true, false, ◌&&◌, ◌||◌, Option, none, some, List, [], ◌∷◌, ◌==◌, eqb, concat,
  if◌then◌else◌,
}
use inferbolt.Base.Results.{Result, ok, err, ◌>>=◌}
use inferbolt.Base.Texts.{decimal_text}
use inferbolt.Operator.Types.{
  OptimizedInference, OptimizedInferenceSpec, BenchmarkJobRequest, OptimizationResult, Reply,
  Outside,
}
use inferbolt.Operator.Api.{GetAnswer, found, missing, get_refused, Api}
use inferbolt.Operator.Deployment.{deployment_of}

-- `reconcile.Result`; `requeue_after` is in seconds.
pub record ReconcileResult : Type 0 where
  pub requeue : Bool
  pub requeue_after : ℕ

abbrev pub no_requeue : ReconcileResult
no_requeue = record { requeue = false; requeue_after = 0 }

abbrev pub requeue_now : ReconcileResult
requeue_now = record { requeue = true; requeue_after = 0 }

abbrev pub requeue_later : ReconcileResult
requeue_later = record { requeue = false; requeue_after = 30 }

abbrev pub in_context : {A : Type 0} → String → Result A → Result A
in_context context (ok a) = ok a
in_context context (err e) = err (concat context (concat ": " e))

-- `http.NewRequestWithContext`
abbrev request_to : Outside → String → Result String
request_to out url = request_checked url (out.bad_url url)
  where
    request_checked : String → Option String → Result String
    request_checked url none = ok url
    request_checked url (some e) = err (concat "create request: " e)

abbrev wrong_status : {A : Type 0} → Reply A → Result A
wrong_status reply = err (concat "orchestrator returned status " (decimal_text reply.status))

abbrev pub job_request : OptimizedInferenceSpec → BenchmarkJobRequest
job_request spec = record {
  model = spec.model;
  engines = spec.engine ∷ [];
  workload = record {
    concurrency = 32;
    prompt_tokens = 512;
    output_tokens = 256;
    num_requests = 200;
  };
  gpu_profile = spec.gpu_profile;
}

abbrev created : Reply String → Result String
created reply =
    if eqb reply.status 200 || eqb reply.status 201
    then in_context "decode response" reply.body
    else wrong_status reply

unfoldable pub submit_benchmark_job : Outside → OptimizedInference → Result String
submit_benchmark_job out oi =
    request_to out (concat out.orchestrator_url "/v1/jobs")
    >>= (λ url. in_context "submit job" (out.post_job (job_request oi.spec)) >>= created)

abbrev answered : {A : Type 0} → String → Reply A → Result A
answered context reply =
    if eqb reply.status 200 then in_context context reply.body else wrong_status reply

unfoldable pub check_benchmark_job : Outside → String → Result String
check_benchmark_job out job_id =
    request_to out (concat out.orchestrator_url (concat "/v1/jobs/" job_id))
    >>= (λ url. in_context "check job status" (out.get_state job_id) >>= answered "decode status")

abbrev pub with_result : OptimizedInference → OptimizationResult → OptimizedInference
with_result oi result = record oi {
  spec = record oi.spec {
    quantization = result.quantization;
    tensor_parallel = result.tensor_parallel;
    max_batch_size = result.max_batch_size;
  };
}

unfoldable pub apply_optimization : Outside → OptimizedInference → Result OptimizedInference
apply_optimization out oi =
    request_to out (
      concat out.orchestrator_url
        (concat "/v1/jobs/" (concat oi.status.benchmark_job_id "/results")))
    >>= (λ url.
        in_context "get results" (out.get_results oi.status.benchmark_job_id)
        >>= answered "decode results"
        >>= (λ result. ok (with_result oi result)))

-- The two fields that almost every step writes.
abbrev pub at_phase : String → String → OptimizedInference → OptimizedInference
at_phase phase message oi = record oi {
  status = record oi.status { phase = phase; message = message };
}

abbrev pub with_job : String → OptimizedInference → OptimizedInference
with_job job_id oi = record oi { status = record oi.status { benchmark_job_id = job_id } }

abbrev with_config : Result String → OptimizedInference → OptimizedInference
with_config (ok json) oi = record oi { status = record oi.status { current_config = json } }
with_config (err e) oi = oi

unfoldable pub optimized :
    Outside → OptimizedInference → Result OptimizedInference → OptimizedInference
optimized out oi (err e) = at_phase "Failed" (concat "Failed to apply optimization: " e) oi
optimized out oi (ok new) =
    let deploying = at_phase "Deploying" "Applying optimized configuration" new in
    with_config (out.spec_json new.spec)
      (record deploying { status = record deploying.status { last_optimized_at = some out.now } })

module _ {C : Type 0} (api : Api C) where
  abbrev pub Reconciled : Type 0
  Reconciled = ReconcileResult × Option String × C

  -- A write whose error is returned, and one whose error is only logged.
  abbrev pub written : ReconcileResult → Option String × C → Reconciled
  written result (none, c) = (result, none, c)
  written result (some e, c) = (no_requeue, some e, c)

  abbrev pub logged : Option String → Option String × C → Reconciled
  logged returned (e, c) = (no_requeue, returned, c)

  -- Step 3.
  unfoldable pub submitted : OptimizedInference → Result String → C → Reconciled
  submitted oi (err e) c =
      logged (some e)
        (api.update_status (at_phase "Failed" (concat "Failed to submit benchmark job: " e) oi) c)
  submitted oi (ok job_id) c = written requeue_later (
      api.update_status
        (with_job job_id (at_phase "Optimizing" "Running benchmark for optimization" oi)) c)

  -- `r.Update` and then `r.Status().Update`, of the object that the first leaves.
  unfoldable pub updated : Result OptimizedInference × C → Reconciled
  updated (err e, c) = (no_requeue, some e, c)
  updated (ok new, c) = written requeue_now (api.update_status new c)

  -- Step 4.
  unfoldable pub checked : Outside → OptimizedInference → Result String → C → Reconciled
  unfolding optimized updated
  checked out oi (err e) c = (requeue_later, none, c)
  checked out oi (ok state) c =
      if state == "completed"
      then updated (api.update (optimized out oi (apply_optimization out oi)) c)
      else if state == "failed"
      then logged none (api.update_status (at_phase "Failed" "Benchmark job failed" oi) c)
      else (requeue_later, none, c)

  -- Step 5.
  unfoldable pub deployed : OptimizedInference → Option String × C → Reconciled
  deployed oi (some e, c) =
      logged (some e) (api.update_status (at_phase "Failed" (concat "Failed to deploy: " e) oi) c)
  deployed oi (none, c) =
      written no_requeue (api.update_status (at_phase "Running" "Deployment is running" oi) c)

  abbrev pub wants_job : OptimizedInference → Bool
  wants_job oi = oi.spec.auto_optimize && (oi.status.benchmark_job_id == "")

  unfoldable pub reconcile_found : Outside → OptimizedInference → C → Reconciled
  unfolding submitted checked deployed
  reconcile_found out oi c =
      if oi.status.phase == ""
      then written requeue_now (api.update_status (at_phase "Pending" "Initializing resource" oi) c)
      else if wants_job oi
      then submitted oi (submit_benchmark_job out oi) c
      else if oi.status.phase == "Optimizing"
      then checked out oi (check_benchmark_job out oi.status.benchmark_job_id) c
      else if (oi.status.phase == "Deploying") || (oi.status.phase == "Pending")
      then deployed oi (api.create_or_update oi (deployment_of oi) c)
      else (no_requeue, none, c)

  unfoldable pub got : Outside → GetAnswer → C → Reconciled
  unfolding reconcile_found
  got out missing c = (no_requeue, none, c)
  got out (get_refused e) c = (no_requeue, some e, c)
  got out (found oi) c = reconcile_found out oi c

  unfoldable pub reconcile : Outside → C → Reconciled
  unfolding got
  reconcile out c = got out (api.get c) c

  -- The reconciliations of one resource, which the controller runs one after the other; what
  -- answers differs from one to the next.
  unfoldable pub reconciles : List Outside → C → C
  unfolding reconcile
  reconciles [] c = c
  reconciles (out ∷ outs) c = reconciles outs (reconcile out c).2
