-- ===== src/Campaigns/Trials.antt =====
-- What a trial leaves behind.
use inferbolt.Base.{
  String, ◌≡◌, refl, ◌⊎◌, inl, inr, true, Option, none, some, List, [], ◌∷◌, ◌==◌, Bool-cases, ◌≢◌,
  ◌↔◌, arith,
}
use inferbolt.Base.Float64.{Float64}
use inferbolt.Base.Maps.{get, put}
use inferbolt.Base.Results.{Result, ok, err}
use inferbolt.Jobs.State.{JobState, same_state}
use inferbolt.Jobs.Types.{Job, Measurement}
use inferbolt.Jobs.Store.{Db, save_job, inserted}
use inferbolt.Jobs.Validate.{validate_engines, validate_workload, validate_engine_config}
use inferbolt.Campaigns.Rows.{CampaignState, same}
use inferbolt.Agent.Types.{TrialSpec}
use inferbolt.Campaigns.Platform.{
  check_cancelled, TrialInputs, wait_for_job, job_for, result_of, read_results, judged, queued,
  saved, admitted, run_benchmark, trial_error,
}

-- Only the state "cancelled" stops a trial.
stopping :
    (s : CampaignState) → (check_cancelled (ok s) ≡ none) ↔ (ok s ≢ ok CampaignState.cancelled)
unfolding check_cancelled same
stopping CampaignState.pending = (λ h k. cc, λ h. refl)
stopping CampaignState.running = (λ h k. cc, λ h. refl)
stopping CampaignState.completed = (λ h k. cc, λ h. refl)
stopping CampaignState.failed = (λ h k. cc, λ h. refl)
stopping CampaignState.cancelled = (λ h k. cc, λ h. absurd (h refl))

check_cancelled_lem :
    (r : Result CampaignState) → (check_cancelled r ≡ none) ↔ (r ≢ ok CampaignState.cancelled)
check_cancelled_lem (ok s) = stopping s
check_cancelled_lem (err e) = unfold check_cancelled in (λ h k. cc, λ h. refl)

module _ {F : Type 0} where
  -- The trial, if it measured anything, measured the engine asked for.
  abbrev pub OfEngine : String → Option (Result (Measurement F)) → Type 0
  OfEngine engine none = Unit
  OfEngine engine (some (err e)) = Unit
  OfEngine engine (some (ok m)) = (m.engine == engine) ≡ true

  result_of-OfEngine :
      (id engine : String) (rs : List (Measurement F))
      → OfEngine engine (some (result_of id engine rs))
  unfolding result_of
  result_of-OfEngine id engine [] = tt
  result_of-OfEngine id engine (r ∷ rs) = elim (Bool-cases (r.engine == engine)) [
    | inl h ↦ rw h h
    | inr h ↦ rw h (result_of-OfEngine id engine rs)
  ]

  judged-OfEngine :
      (i : TrialInputs F) (spec : TrialSpec F) (o : Option (Result (Job F)))
      → OfEngine spec.engine (judged i spec o)
  unfolding judged
  judged-OfEngine i spec none = tt
  judged-OfEngine i spec (some (err e)) = tt
  judged-OfEngine i spec (some (ok final)) =
      elim (Bool-cases (same_state final.state JobState.completed)) [
        | inl h ↦ rw h (read i.results)
        | inr h ↦ rw h tt
      ]
    where
      read :
          (r : Result (List (Measurement F)))
          → OfEngine spec.engine (some (read_results i.job_id spec.engine r))
      read (err e) = tt
      read (ok rs) = result_of-OfEngine i.job_id spec.engine rs

  -- The row of a trial.
  pub record IsTrialOf (tenant : String) (i : TrialInputs F) (spec : TrialSpec F) (j : Job F)
      : Type 0 where
    pub own_id : j.job_id ≡ i.job_id
    pub owner : j.tenant_id ≡ tenant
    pub is_pending : j.state ≡ JobState.pending
    pub model : j.model ≡ spec.model
    pub engines : j.engines ≡ spec.engine ∷ []
    pub gpu_profile : j.gpu_profile ≡ spec.gpu_profile
    pub workload : j.workload_config ≡ spec.workload
    pub engine_config : j.engine_config ≡ spec.engine_config
    pub created : (j.created_at ≡ i.now) × (j.updated_at ≡ i.now)
    pub fresh : (j.run_id ≡ "") × (j.error_msg ≡ "")

  job_for-IsTrialOf :
      (tenant : String) (i : TrialInputs F) (spec : TrialSpec F)
      → IsTrialOf tenant i spec (job_for tenant i spec)
  job_for-IsTrialOf tenant i spec = record {
    own_id = refl;
    owner = refl;
    is_pending = refl;
    model = refl;
    engines = refl;
    gpu_profile = refl;
    workload = refl;
    engine_config = refl;
    created = (refl, refl);
    fresh = (refl, refl);
  }

  -- What an admitted trial writes: by the fault of the database and the job that already has the
  -- id.
  abbrev pub Started :
      Option String → Option (Job F) → String → TrialInputs F → TrialSpec F → Db F → Db F → Type 0
  Started (some e) o tenant i spec db db' = db' ≡ db
  Started none (some old) tenant i spec db db' = db' ≡ db
  Started none none tenant i spec db db' =
      (j : Job F) × IsTrialOf tenant i spec j × (db' ≡ record db { jobs = put db.jobs i.job_id j })

  queued-lem :
      (i : TrialInputs F) (spec : TrialSpec F) (o : Option String) (db : Db F)
      → ((queued i spec o db).1 ≡ db) × OfEngine spec.engine (queued i spec o db).0
  unfolding queued
  queued-lem i spec (some e) db = (refl, tt)
  queued-lem i spec none db = (refl, judged-OfEngine i spec (wait_for_job i.job_id i.wait))

  saved_lem :
      (tenant : String) (i : TrialInputs F) (spec : TrialSpec F) (fault : Option String) (db : Db F)
      (o : Option (Job F))
      → get db.jobs i.job_id ≡ o
      → Started fault o tenant i spec db
          (saved i spec (save_job fault (job_for tenant i spec) db)).1
        × OfEngine spec.engine (saved i spec (save_job fault (job_for tenant i spec) db)).0
  unfolding save_job saved inserted
  saved_lem tenant i spec (some e) db o h = (refl, tt)
  saved_lem tenant i spec none db (some old) h = rw h (refl, tt)
  saved_lem tenant i spec none db none h = rw h (
    (
      job_for tenant i spec,
      job_for-IsTrialOf tenant i spec,
      (queued-lem i spec i.enqueue_fault _).0,
    ),
    (queued-lem i spec i.enqueue_fault _).1,
  )

module _ {F : Type 0} ⦃f : Float64 F⦄ where
  -- What is asked of a trial. A state of the campaign that cannot be read does not stop it.
  abbrev pub Admits : TrialInputs F → TrialSpec F → Type 0
  Admits i spec =
      (i.campaign_state ≢ ok CampaignState.cancelled)
      × (validate_engines (spec.engine ∷ []) ≡ none)
      × (validate_workload spec.workload ≡ none)
      × (validate_engine_config spec.engine_config ≡ none)

  trial_error-Admits :
      (i : TrialInputs F) (spec : TrialSpec F) → trial_error i spec ≡ none → Admits i spec
  unfolding trial_error
  trial_error-Admits i spec h = ground (arith, h, check_cancelled_lem i.campaign_state)

  Admits-trial_error :
      (i : TrialInputs F) (spec : TrialSpec F) → Admits i spec → trial_error i spec ≡ none
  unfolding trial_error
  Admits-trial_error i spec a = ground (arith, a, check_cancelled_lem i.campaign_state)

  -- An answer without a measurement.
  abbrev pub Refused : Option (Result (Measurement F)) → Type 0
  Refused none = ⊥
  Refused (some (err e)) = Unit
  Refused (some (ok m)) = ⊥

  admitted_lem :
      (tenant : String) (i : TrialInputs F) (spec : TrialSpec F) (db : Db F) (o : Option String)
      → trial_error i spec ≡ o
      → (Admits i spec
          × Started i.save_fault
              (get db.jobs i.job_id)
              tenant
              i
              spec
              db
              (admitted tenant i spec o db).1
          × OfEngine spec.engine (admitted tenant i spec o db).0)
        ⊎ ((¬ Admits i spec)
            × Refused (admitted tenant i spec o db).0
            × ((admitted tenant i spec o db).1 ≡ db))
  unfolding admitted
  admitted_lem tenant i spec db (some e) h =
      inr (λ a. absurd (ground (arith, h, Admits-trial_error i spec a)), tt, refl)
  admitted_lem tenant i spec db none h =
      let both = saved_lem tenant i spec i.save_fault db _ refl in
      inl (trial_error-Admits i spec h, both.0, both.1)

  -- A trial of a cancelled campaign, or with a specification that a check refuses, is answered
  -- with an error and writes nothing. Any other adds one row, a pending job of the tenant of the
  -- campaign with the specification, or nothing when the database refuses the row or has one
  -- under its id; and a measurement that it returns is of the engine asked for.
  pub run_benchmark_lem :
      (tenant : String) (i : TrialInputs F) (spec : TrialSpec F) (db : Db F)
      → (Admits i spec
          × Started i.save_fault
              (get db.jobs i.job_id)
              tenant
              i
              spec
              db
              (run_benchmark tenant i spec db).1
          × OfEngine spec.engine (run_benchmark tenant i spec db).0)
        ⊎ ((¬ Admits i spec)
            × Refused (run_benchmark tenant i spec db).0
            × ((run_benchmark tenant i spec db).1 ≡ db))
  unfolding run_benchmark
  run_benchmark_lem tenant i spec db = admitted_lem tenant i spec db (trial_error i spec) refl
