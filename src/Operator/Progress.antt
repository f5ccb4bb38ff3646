-- ===== src/Operator/Progress.antt =====
-- Sequences of reconciliations.
use inferbolt.Base.{
  String, Bool, false, Option, none, some, ◌==◌, Bool-cases, ◌≡◌, ◌≢◌, refl, sym, ◌∙◌, subst, inl,
  inr, List, [], ◌∷◌, arith, eq_iff, OneOf, All, ==_ne, true,
}
use inferbolt.Base.Texts.{apart}
use inferbolt.Base.Results.{Result, ok, err}
use inferbolt.Operator.Types.{OptimizedInference, Outside}
use inferbolt.Operator.Api.{found, Api, HasStatusSubresource}
use inferbolt.Operator.Reconcile.{
  ReconcileResult, requeue_now, written, updated, checked, reconcile_found, got, wants_job,
  reconcile, reconciles, check_benchmark_job,
}
use inferbolt.Operator.Phases.{
  Edge, stays, initialised, submits, cannot_submit, job_fails, deploys, cannot_deploy,
  reconcile-Follows,
}

abbrev reached : List String
reached = "" ∷ "Pending" ∷ "Optimizing" ∷ "Running" ∷ "Failed" ∷ []

edge-reached :
    (b : Bool) (state : Result String) (p q : String)
    → Edge b state p q
    → OneOf reached p
    → OneOf reached q
edge-reached b state _ _ (stays p) h = h
edge-reached b state _ _ initialised h = inr (inl refl)
edge-reached b state _ _ (submits p n w) h = inr (inr (inl refl))
edge-reached b state _ _ (cannot_submit p n w) h = inr (inr (inr (inr refl)))
edge-reached b state _ _ (job_fails w f) h = inr (inr (inr (inr refl)))
edge-reached b state _ _ (deploys p d w) h = inr (inr (inr (inl refl)))
edge-reached b state _ _ (cannot_deploy p d w) h = inr (inr (inr (inr refl)))

not_deployable : (p : String) → OneOf ("Deploying" ∷ "Pending" ∷ []) p → p ≢ "Optimizing"
not_deployable p (inl d) h = apart "Deploying" "Optimizing" refl (d ∙ h)
not_deployable p (inr d) h = apart "Pending" "Optimizing" refl (d ∙ h)

edge-stays :
    (b : Bool) (state : Result String) (p q : String)
    → Edge b state p q
    → p ≡ "Optimizing"
    → b ≡ false
    → state ≢ ok "failed"
    → q ≡ "Optimizing"
edge-stays b state _ _ (stays p) h w k = h
edge-stays b state _ _ initialised h w k = absurd (apart "" "Optimizing" refl h)
edge-stays b state _ _ (submits p n v) h w k = refl
edge-stays b state _ _ (cannot_submit p n v) h w k = absurd (ground (arith, v, w))
edge-stays b state _ _ (job_fails v f) h w k = absurd (k f)
edge-stays b state _ _ (deploys p d v) h w k = absurd (not_deployable p d h)
edge-stays b state _ _ (cannot_deploy p d v) h w k = absurd (not_deployable p d h)

module _ {C : Type 0} (api : Api C) (law : HasStatusSubresource api) where
  abbrev Reached : OptimizedInference → OptimizedInference → Type 0
  Reached old new =
      OneOf reached new.status.phase
      × (old.status.benchmark_job_id ≢ ""
          → new.status.benchmark_job_id ≡ old.status.benchmark_job_id)

  -- However many reconciliations run, and whatever they are answered, a resource that was never
  -- in the phase "Deploying" does not enter it, and a job that was submitted for it stays its job.
  pub reconciles-Reached :
      (outs : List Outside) (oi : OptimizedInference) (c : C)
      → api.get c ≡ found oi
      → OneOf ("" ∷ "Pending" ∷ "Optimizing" ∷ "Running" ∷ "Failed" ∷ []) oi.status.phase
      → (new : OptimizedInference) × (api.get (reconciles api outs c) ≡ found new)
        × OneOf ("" ∷ "Pending" ∷ "Optimizing" ∷ "Running" ∷ "Failed" ∷ []) new.status.phase
        × (oi.status.benchmark_job_id ≢ ""
            → new.status.benchmark_job_id ≡ oi.status.benchmark_job_id)
  unfolding reconciles
  reconciles-Reached [] oi c at h = (oi, at, h, λ k. refl)
  reconciles-Reached (out ∷ outs) oi c at h =
      let (mid, there, follows) = reconcile-Follows api law out oi c at in
      let (new, stored, phase, job) =
        reconciles-Reached outs mid (reconcile api out c).2 there
          (edge-reached _ _ _ _ follows.edge h) in
      (new, stored, phase, λ k. job (ground (arith, k, follows.job_kept k)) ∙ follows.job_kept k)

  -- Every reconciliation of an "Optimizing" resource whose job is not reported failed.
  optimizing_step :
      (out : Outside) (oi : OptimizedInference) (c : C)
      → api.get c ≡ found oi
      → oi.status.phase ≡ "Optimizing"
      → oi.status.benchmark_job_id ≢ ""
      → check_benchmark_job out oi.status.benchmark_job_id ≢ ok "failed"
      → (new : OptimizedInference) × (api.get (reconcile api out c).2 ≡ found new)
        × (new.status.phase ≡ "Optimizing")
        × (new.status.benchmark_job_id ≡ oi.status.benchmark_job_id)
  optimizing_step out oi c at p job k =
      let (new, there, follows) = reconcile-Follows api law out oi c at in
      (
        new,
        there,
        edge-stays _ _ _ _ follows.edge p
            (ground (arith, job, eq_iff oi.status.benchmark_job_id "")) k,
        follows.job_kept job,
      )

  -- What the API server keeps apart from the resource, as its deployments: a write of the
  -- resource or of its status leaves it.
  pub record KeptApart {D : Type 0} (view : C → D) : Type 0 where
    pub by_update : (oi : OptimizedInference) (c : C) → view (api.update oi c).1 ≡ view c
    pub by_status : (oi : OptimizedInference) (c : C) → view (api.update_status oi c).1 ≡ view c

  module _ {D : Type 0} (view : C → D) (apart_from : KeptApart view) where
    written-view :
        (r : ReconcileResult) (p : Option String × C) → view (written api r p).2 ≡ view p.1
    written-view r (none, c) = refl
    written-view r (some e, c) = refl

    updated-view : (p : Result OptimizedInference × C) → view (updated api p).2 ≡ view p.1
    unfolding updated
    updated-view (err e, c) = refl
    updated-view (ok new, c) =
        written-view requeue_now (api.update_status new c) ∙ apart_from.by_status new c

    checked-view :
        (out : Outside) (oi : OptimizedInference) (state : Result String) (c : C)
        → view (checked api out oi state c).2 ≡ view c
    unfolding checked
    checked-view out oi (err e) c = refl
    checked-view out oi (ok state) c = elim (Bool-cases (state == "completed")) [
      | inl h ↦ rw h (updated-view _ ∙ apart_from.by_update _ c)
      | inr h ↦ elim (Bool-cases (state == "failed")) [
        | inl k ↦ rw (h, k) (apart_from.by_status _ c)
        | inr k ↦ rw (h, k) refl
      ]
    ]

    optimizing-view :
        (out : Outside) (oi : OptimizedInference) (c : C)
        → api.get c ≡ found oi
        → oi.status.phase ≡ "Optimizing"
        → oi.status.benchmark_job_id ≢ ""
        → view (reconcile api out c).2 ≡ view c
    unfolding reconcile got reconcile_found
    optimizing-view out oi c at p job =
        let idle : wants_job api oi ≡ false =
          ground (arith, job, eq_iff oi.status.benchmark_job_id "") in
        let named : (oi.status.phase == "") ≡ false =
          ==_ne _ _ (λ e. apart "Optimizing" "" refl (sym p ∙ e)) in
        let phase : (oi.status.phase == "Optimizing") ≡ true =
          (eq_iff oi.status.phase "Optimizing").1 p in
        rw (at, named, idle, phase)
          (checked-view out oi (check_benchmark_job out oi.status.benchmark_job_id) c)

  -- While the orchestrator does not report the job of an "Optimizing" resource as failed, the
  -- resource stays "Optimizing" with its job through every reconciliation, also when the job is
  -- completed, and nothing is deployed: what the API server keeps apart from the resource, as its
  -- deployments, is never written. The API server is one with the status subresource, which keeps
  -- the stored status at a write of the resource and answers with it.
  pub reconciles-Optimizing :
      {D : Type 0} (view : C → D) (outs : List Outside) (oi : OptimizedInference) (c : C)
      → KeptApart view
      → api.get c ≡ found oi
      → oi.status.phase ≡ "Optimizing"
      → oi.status.benchmark_job_id ≢ ""
      → All (λ out. check_benchmark_job out oi.status.benchmark_job_id ≢ ok "failed") outs
      → (new : OptimizedInference) × (api.get (reconciles api outs c) ≡ found new)
        × (new.status.phase ≡ "Optimizing")
        × (new.status.benchmark_job_id ≡ oi.status.benchmark_job_id)
        × (view (reconciles api outs c) ≡ view c)
  unfolding reconciles
  reconciles-Optimizing view [] oi c v at p job k = (oi, at, p, refl, refl)
  reconciles-Optimizing view (out ∷ outs) oi c v at p job k =
      let (mid, there, still, same) = optimizing_step out oi c at p job k.0 in
      let (new, stored, phase, id, kept) =
        reconciles-Optimizing view outs mid (reconcile api out c).2 v there still
          (λ e. job (sym same ∙ e))
          (subst (λ id. All (λ o. check_benchmark_job o id ≢ ok "failed") outs) (sym same) k.1) in
      (new, stored, phase, id ∙ same, kept ∙ optimizing-view view v out oi c at p job)
