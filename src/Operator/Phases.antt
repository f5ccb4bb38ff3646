-- ===== src/Operator/Phases.antt =====
-- The edges that `Reconcile` follows, on the phase that the API server stores.
use inferbolt.Base.{
  String, Bool, true, false, ◌≡◌, ◌≢◌, refl, sym, ◌∙◌, ap, subst, inl, inr, Option, none, some, [],
  ◌∷◌, ◌==◌, ◌||◌, arith, eq_iff, Bool-cases, OneOf,
}
use inferbolt.Base.Results.{Result, ok, err}
use inferbolt.Operator.Types.{OptimizedInference, Outside}
use inferbolt.Operator.Api.{found, Api, HasStatusSubresource}
use inferbolt.Operator.Deployment.{deployment_of}
use inferbolt.Operator.Reconcile.{
  ReconcileResult, requeue_now, no_requeue, written, submitted, updated, checked, deployed,
  wants_job, reconcile_found, got, reconcile, submit_benchmark_job, check_benchmark_job, at_phase,
}

-- `wants` is whether a benchmark is asked for that no job stands for, and `state` what the
-- orchestrator answers of the job.
pub data Edge (wants : Bool) (state : Result String) : String → String → Type 0 where
  stays : (p : String) → Edge wants state p p
  initialised : Edge wants state "" "Pending"
  submits : (p : String) → p ≢ "" → wants ≡ true → Edge wants state p "Optimizing"
  cannot_submit : (p : String) → p ≢ "" → wants ≡ true → Edge wants state p "Failed"
  job_fails : wants ≡ false → state ≡ ok "failed" → Edge wants state "Optimizing" "Failed"
  deploys :
      (p : String)
      → OneOf ("Deploying" ∷ "Pending" ∷ []) p
      → wants ≡ false
      → Edge wants state p "Running"
  cannot_deploy :
      (p : String)
      → OneOf ("Deploying" ∷ "Pending" ∷ []) p
      → wants ≡ false
      → Edge wants state p "Failed"

-- What one reconciliation makes of the resource.
pub record Follows {C : Type 0} (api : Api C) (out : Outside) (old new : OptimizedInference)
    : Type 0 where
  pub edge :
      Edge
        (wants_job api old)
        (check_benchmark_job out old.status.benchmark_job_id)
        old.status.phase
        new.status.phase
  pub job_kept :
      old.status.benchmark_job_id ≢ "" → new.status.benchmark_job_id ≡ old.status.benchmark_job_id
  pub spec_kept : old.status.phase ≢ "Optimizing" → new.spec ≡ old.spec

module _ {C : Type 0} (api : Api C) (law : HasStatusSubresource api) where
  abbrev pub Stored : (OptimizedInference → Type 0) → C → Type 0
  Stored P c = (oi : OptimizedInference) × (api.get c ≡ found oi) × P oi

  pub update_status-Stored :
      (P : OptimizedInference → Type 0) (old oi : OptimizedInference) (c : C)
      → api.get c ≡ found old
      → P old
      → P (record old { status = oi.status })
      → Stored P (api.update_status oi c).1
  update_status-Stored P old oi c at before after = elim (law.status_written old oi c at) [
    | inl e ↦ (record old { status = oi.status }, e, after)
    | inr e ↦ (old, e, before)
  ]

  written-Stored :
      (P : OptimizedInference → Type 0) (r : ReconcileResult) (p : Option String × C)
      → Stored P p.1
      → Stored P (written api r p).2
  written-Stored P r (none, c) h = h
  written-Stored P r (some e, c) h = h

  unchanged : (out : Outside) (oi : OptimizedInference) → Follows api out oi oi
  unchanged out oi = record {
    edge = stays oi.status.phase;
    job_kept = λ h. refl;
    spec_kept = λ h. refl;
  }

  submitted-Follows :
      (out : Outside) (oi : OptimizedInference) (answer : Result String) (c : C)
      → api.get c ≡ found oi
      → oi.status.phase ≢ ""
      → wants_job api oi ≡ true
      → Stored (Follows api out oi) (submitted api oi answer c).2
  unfolding submitted
  submitted-Follows out oi (err e) c at p w =
      update_status-Stored (Follows api out oi) oi _ c at (unchanged out oi) (record {
        edge = cannot_submit oi.status.phase p w;
        job_kept = λ h. refl;
        spec_kept = λ h. refl;
      })
  submitted-Follows out oi (ok job_id) c at p w = written-Stored (Follows api out oi) _ _ (
      update_status-Stored (Follows api out oi) oi _ c at (unchanged out oi) (record {
        edge = submits oi.status.phase p w;
        job_kept = λ h. absurd (ground (arith, w, h, eq_iff oi.status.benchmark_job_id ""));
        spec_kept = λ h. refl;
      }))

  benchmarked :
      (out : Outside) (oi x : OptimizedInference)
      → oi.status.phase ≡ "Optimizing"
      → x.status.phase ≡ oi.status.phase
      → x.status.benchmark_job_id ≡ oi.status.benchmark_job_id
      → Follows api out oi x
  benchmarked out oi x p phase job = record {
    edge =
        subst
          (Edge (wants_job api oi) (check_benchmark_job out oi.status.benchmark_job_id)
            oi.status.phase)
          (sym phase) (stays oi.status.phase);
    job_kept = λ h. job;
    spec_kept = λ h. absurd (h p);
  }

  -- The second write is of the status that the first has answered with.
  answered-Follows :
      (out : Outside) (oi x : OptimizedInference) (c : C) (answer : Result OptimizedInference)
      → oi.status.phase ≡ "Optimizing"
      → api.get c ≡ found x
      → x.status ≡ oi.status
      → ((new : OptimizedInference)
          → answer ≡ ok new
          → (new.status.phase ≡ oi.status.phase)
            × (new.status.benchmark_job_id ≡ oi.status.benchmark_job_id))
      → Stored (Follows api out oi) (updated api (answer, c)).2
  unfolding updated
  answered-Follows out oi x c (err e) p at same h =
      (x, at, benchmarked out oi x p (ap (λ s. s.phase) same) (ap (λ s. s.benchmark_job_id) same))
  answered-Follows out oi x c (ok new) p at same h =
      written-Stored (Follows api out oi) requeue_now (api.update_status new c) (
        update_status-Stored (Follows api out oi) x new c at
          (benchmarked out oi x p (ap (λ s. s.phase) same) (ap (λ s. s.benchmark_job_id) same))
          (benchmarked out oi (record x { status = new.status }) p (h new refl).0 (h new refl).1))

  updated-Follows :
      (out : Outside) (oi new : OptimizedInference) (c : C)
      → api.get c ≡ found oi
      → oi.status.phase ≡ "Optimizing"
      → Stored (Follows api out oi) (updated api (api.update new c)).2
  updated-Follows out oi new c at p = elim (law.status_ignored oi new c at) [
    | inl e ↦
        answered-Follows out oi (record oi { spec = new.spec }) (api.update new c).1
          (api.update new c).0 p e refl (λ n a. law.status_answered oi new n c at a)
    | inr e ↦
        answered-Follows out oi oi (api.update new c).1 (api.update new c).0 p e refl
          (λ n a. law.status_answered oi new n c at a)
  ]

  checked-Follows :
      (out : Outside) (oi : OptimizedInference) (state : Result String) (c : C)
      → state ≡ check_benchmark_job out oi.status.benchmark_job_id
      → api.get c ≡ found oi
      → oi.status.phase ≡ "Optimizing"
      → wants_job api oi ≡ false
      → Stored (Follows api out oi) (checked api out oi state c).2
  unfolding checked
  checked-Follows out oi (err e) c e1 at p w = (oi, at, unchanged out oi)
  checked-Follows out oi (ok state) c same at p w = elim (Bool-cases (state == "completed")) [
    | inl h ↦ rw h (updated-Follows out oi _ c at p)
    | inr h ↦ elim (Bool-cases (state == "failed")) [
      | inl k ↦
          rw (h, k)
            (update_status-Stored (Follows api out oi) oi
              (at_phase "Failed" "Benchmark job failed" oi) c at (unchanged out oi)
              (record {
                edge =
                    subst
                      (λ q.
                        Edge (wants_job api oi) (check_benchmark_job out oi.status.benchmark_job_id)
                          q "Failed")
                      (sym p) (job_fails w (sym same ∙ ap ok ((eq_iff _ _).0 k)));
                job_kept = λ h. refl;
                spec_kept = λ h. refl;
              }))
      | inr k ↦ rw (h, k) (oi, at, unchanged out oi)
    ]
  ]

  deployed-Follows :
      (out : Outside) (oi : OptimizedInference) (answer : Option String) (c : C)
      → api.get c ≡ found oi
      → OneOf ("Deploying" ∷ "Pending" ∷ []) oi.status.phase
      → wants_job api oi ≡ false
      → Stored (Follows api out oi) (deployed api oi (answer, c)).2
  unfolding deployed
  deployed-Follows out oi (some e) c at p w =
      update_status-Stored (Follows api out oi) oi _ c at (unchanged out oi) (record {
        edge = cannot_deploy oi.status.phase p w;
        job_kept = λ h. refl;
        spec_kept = λ h. refl;
      })
  deployed-Follows out oi none c at p w =
      written-Stored (Follows api out oi) no_requeue (api.update_status _ c) (
        update_status-Stored (Follows api out oi) oi _ c at (unchanged out oi) (record {
          edge = deploys oi.status.phase p w;
          job_kept = λ h. refl;
          spec_kept = λ h. refl;
        }))

  deployable :
      (p : String)
      → ((p == "Deploying") || (p == "Pending")) ≡ true
      → OneOf ("Deploying" ∷ "Pending" ∷ []) p
  deployable p h = ground (arith, eq_iff p "Deploying", eq_iff p "Pending")

  reconcile_found-Follows :
      (out : Outside) (oi : OptimizedInference) (c : C)
      → api.get c ≡ found oi
      → Stored (Follows api out oi) (reconcile_found api out oi c).2
  unfolding reconcile_found
  reconcile_found-Follows out oi c at = elim (Bool-cases (oi.status.phase == "")) [
    | inl h ↦ rw h (
        written-Stored (Follows api out oi) requeue_now (api.update_status _ c) (
          update_status-Stored (Follows api out oi) oi
            (at_phase "Pending" "Initializing resource" oi) c at (unchanged out oi)
            (record {
              edge =
                  subst
                    (λ q.
                      Edge (wants_job api oi) (check_benchmark_job out oi.status.benchmark_job_id) q
                        "Pending")
                    (sym ((eq_iff _ _).0 h)) initialised;
              job_kept = λ h. refl;
              spec_kept = λ h. refl;
            })))
    | inr h ↦ elim (Bool-cases (wants_job api oi)) [
      | inl w ↦
          rw (h, w)
            (submitted-Follows out oi (submit_benchmark_job out oi) c at
              (ground (arith, eq_iff oi.status.phase "", h)) w)
      | inr w ↦ elim (Bool-cases (oi.status.phase == "Optimizing")) [
        | inl p ↦
            rw (h, w, p)
              (checked-Follows out oi (check_benchmark_job out oi.status.benchmark_job_id) c refl at
                ((eq_iff _ _).0 p) w)
        | inr p ↦
            elim (Bool-cases ((oi.status.phase == "Deploying") || (oi.status.phase == "Pending"))) [
              | inl d ↦
                  rw (h, w, p, d)
                    (deployed-Follows out oi (api.create_or_update oi (deployment_of oi) c).0
                      (api.create_or_update oi (deployment_of oi) c).1
                      (law.deployed_apart oi (deployment_of oi) c ∙ at) (deployable _ d) w)
              | inr d ↦ rw (h, w, p, d) (oi, at, unchanged out oi)
            ]
      ]
    ]
  ]

  -- Whatever the orchestrator and the API server answer, one reconciliation of a stored resource
  -- leaves one stored that its phase has moved to along an edge or stayed; a job's id, once there,
  -- stays, and the spec changes in the phase "Optimizing" alone. The server is one with the status
  -- subresource, and may refuse any write.
  pub reconcile-Follows :
      (out : Outside) (oi : OptimizedInference) (c : C)
      → api.get c ≡ found oi
      → (new : OptimizedInference) × (api.get (reconcile api out c).2 ≡ found new)
        × Follows api out oi new
  unfolding reconcile got
  reconcile-Follows out oi c at =
      subst (λ g. Stored (Follows api out oi) (got api out g c).2) (sym at)
        (reconcile_found-Follows out oi c at)
