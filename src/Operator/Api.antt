-- ===== src/Operator/Api.antt =====
-- The API server as cmd/operator/main.go uses it: the calls of controller-runtime's client, over a
-- cluster `C` of its own, and what their documentation says of them.
use inferbolt.Base.{String, ◌≡◌, Option, ◌⊎◌}
use inferbolt.Base.Results.{Result, ok}
use inferbolt.Operator.Types.{OptimizedInference}
use inferbolt.Operator.Deployment.{Deployment}

pub data GetAnswer : Type 0 where
  found : OptimizedInference → GetAnswer
  missing : GetAnswer
  get_refused : String → GetAnswer

-- `get` reads the resource of the request. `update` gives what the response leaves in the object,
-- or its error. `create_or_update` is `SetControllerReference` and the write of the deployment.
pub record Api (C : Type 0) : Type 0 where
  pub get : C → GetAnswer
  pub update : OptimizedInference → C → Result OptimizedInference × C
  pub update_status : OptimizedInference → C → Option String × C
  pub create_or_update : OptimizedInference → Deployment → C → Option String × C

-- A resource with the status subresource, as optimized_inference_crd.yaml declares it: a write of
-- the resource leaves the stored status and answers with it, a write of the status leaves the
-- spec, and a refused write leaves both. The phase and the job's id of `update`'s answer are the
-- stored ones.
pub record HasStatusSubresource {C : Type 0} (api : Api C) : Type 0 where
  pub status_written :
      (old oi : OptimizedInference) (c : C)
      → api.get c ≡ found old
      → (api.get (api.update_status oi c).1 ≡ found (record old { status = oi.status }))
        ⊎ (api.get (api.update_status oi c).1 ≡ found old)
  pub status_ignored :
      (old oi : OptimizedInference) (c : C)
      → api.get c ≡ found old
      → api.get (api.update oi c).1 ≡ found (record old { spec = oi.spec })
        ⊎ (api.get (api.update oi c).1 ≡ found old)
  pub status_answered :
      (old oi new : OptimizedInference) (c : C)
      → api.get c ≡ found old
      → (api.update oi c).0 ≡ ok new
      → (new.status.phase ≡ old.status.phase)
        × (new.status.benchmark_job_id ≡ old.status.benchmark_job_id)
  pub deployed_apart :
      (oi : OptimizedInference) (d : Deployment) (c : C)
      → api.get (api.create_or_update oi d c).1 ≡ api.get c
