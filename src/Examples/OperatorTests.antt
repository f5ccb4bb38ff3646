-- ===== src/Examples/OperatorTests.antt =====
-- The theorems on the operator at a cluster of one resource.
use inferbolt.Base.{String, ◌≡◌, ◌≢◌, refl, sym, ap, ◌∙◌, inl, true, Option, none, some, [], ◌∷◌}
use inferbolt.Base.Int.{pos}
use inferbolt.Base.Results.{Result, ok, err, ok-injective}
use inferbolt.Operator.Types.{OptimizedInference, Outside}
use inferbolt.Operator.Deployment.{Deployment, build_container_args}
use inferbolt.Operator.Api.{GetAnswer, found, missing, Api, HasStatusSubresource}
use inferbolt.Operator.Reconcile.{reconcile, reconciles, check_benchmark_job}
use inferbolt.Operator.Phases.{Follows, reconcile-Follows}
use inferbolt.Base.Texts.{apart}
use inferbolt.Operator.Progress.{KeptApart, reconciles-Optimizing}
use inferbolt.Operator.Arguments.{flag_value, number_setting, build_container_args-flag_value}

record Cluster : Type 0 where
  pub resource : Option OptimizedInference
  pub deployment : Option Deployment

abbrev got_resource : Option OptimizedInference → GetAnswer
got_resource none = missing
got_resource (some oi) = found oi

abbrev spec_updated :
    OptimizedInference
    → Option OptimizedInference
    → Result OptimizedInference × Option OptimizedInference
spec_updated oi none = (err "not found", none)
spec_updated oi (some old) =
    (ok (record old { spec = oi.spec }), some (record old { spec = oi.spec }))

abbrev status_updated :
    OptimizedInference → Option OptimizedInference → Option String × Option OptimizedInference
status_updated oi none = (some "not found", none)
status_updated oi (some old) = (none, some (record old { status = oi.status }))

abbrev api : Api Cluster
api = record {
  get = λ c. got_resource c.resource;
  update = λ oi c.
      ((spec_updated oi c.resource).0, record c { resource = (spec_updated oi c.resource).1 });
  update_status = λ oi c.
      ((status_updated oi c.resource).0, record c { resource = (status_updated oi c.resource).1 });
  create_or_update = λ oi d c. (none, record c { deployment = some d });
}

stored_as :
    (r : Option OptimizedInference) (old : OptimizedInference)
    → got_resource r ≡ found old
    → r ≡ some old
stored_as none old h = cc
stored_as (some x) old h = cc

api-HasStatusSubresource : HasStatusSubresource api
api-HasStatusSubresource = record {
  status_written = λ old oi c at. rw (stored_as c.resource old at) (inl refl);
  status_ignored = λ old oi c at. rw (stored_as c.resource old at) (inl refl);
  status_answered = λ old oi new c at answer.
      let same : ok (record old { spec = oi.spec }) ≡ ok new =
        sym (ap (λ r. (spec_updated oi r).0) (stored_as c.resource old at)) ∙ answer in
      (
        ap (λ n. n.status.phase) (sym (ok-injective same)),
        ap (λ n. n.status.benchmark_job_id) (sym (ok-injective same)),
      );
  deployed_apart = λ oi d c. refl;
}

abbrev resource : OptimizedInference
resource = record {
  name = "llama";
  namespace = "default";
  spec = record {
    model = "m";
    engine = "vllm";
    gpu_profile = "h100";
    replicas = pos 1;
    quantization = "fp8";
    tensor_parallel = pos 2;
    max_batch_size = pos 0;
    max_model_len = pos 0;
    resources = record { gpu_count = pos 1; memory_gb = pos 64; cpu_cores = pos 8 };
    auto_optimize = true;
  };
  status = record {
    phase = "Optimizing";
    message = "";
    last_optimized_at = none;
    current_config = "";
    benchmark_job_id = "j1";
    observed_generation = pos 0;
  };
}

abbrev cluster : Cluster
cluster = record { resource = some resource; deployment = none }

-- An orchestrator whose job is completed.
abbrev outside : Outside
outside = record {
  orchestrator_url = "http://orchestrator";
  bad_url = λ url. none;
  post_job = λ request. ok (record { status = 201; body = ok "j2" });
  get_state = λ id. ok (record { status = 200; body = ok "completed" });
  get_results = λ id. ok (record {
    status = 200;
    body = ok (record { quantization = "awq"; tensor_parallel = pos 4; max_batch_size = pos 8 });
  });
  now = 9;
  spec_json = λ spec. ok "spec";
}

reconcile-Follows_example :
    (new : OptimizedInference) × (api.get (reconcile api outside cluster).2 ≡ found new)
    × Follows api outside resource new
reconcile-Follows_example =
    reconcile-Follows api api-HasStatusSubresource outside resource cluster refl

checked_well : check_benchmark_job outside "j1" ≢ ok "failed"
unfolding check_benchmark_job
checked_well h = cc

abbrev deployments : Cluster → Option Deployment
deployments c = c.deployment

deployments-KeptApart : KeptApart api api-HasStatusSubresource deployments
deployments-KeptApart = record { by_update = λ oi c. refl; by_status = λ oi c. refl }

reconciles-Optimizing_example :
    (new : OptimizedInference) × (api.get (reconciles api (outside ∷ outside ∷ []) cluster)
      ≡ found new)
    × (new.status.phase ≡ "Optimizing")
    × (new.status.benchmark_job_id ≡ "j1")
    × (deployments (reconciles api (outside ∷ outside ∷ []) cluster) ≡ deployments cluster)
reconciles-Optimizing_example =
    reconciles-Optimizing api api-HasStatusSubresource deployments (outside ∷ outside ∷ []) resource
      cluster deployments-KeptApart refl refl (apart "j1" "" refl)
      (checked_well, (checked_well, tt))

build_container_args-flag_value_example :
    (flag_value (build_container_args resource.spec) "--model" ≡ some "m")
    × (flag_value (build_container_args resource.spec) "--quantization" ≡ some "fp8")
    × (flag_value (build_container_args resource.spec) "--tensor-parallel-size"
        ≡ number_setting (pos 2))
    × (flag_value (build_container_args resource.spec) "--max-num-seqs" ≡ number_setting (pos 0))
    × (flag_value (build_container_args resource.spec) "--max-model-len" ≡ number_setting (pos 0))
build_container_args-flag_value_example = build_container_args-flag_value resource.spec
