-- ===== src/Gateway/Requests.antt =====
-- What the handlers do to the tables, and for whom.
use mathlib.Core.Sum.{inr-injective, inl-ne-inr}
use inferbolt.Base.{
  ℕ, String, ◌≡◌, ◌≢◌, refl, ◌⊎◌, inl, inr, subst, true, false, Option, none, some, ◌==◌, arith,
  eq_iff, ==_self, ==_ne, Bool-cases, List, [], ◌∷◌, ◌↔◌, eqb, length, is_some, if◌then◌else◌,
}
use inferbolt.Base.Int.{ℤ, pos, ltb_ℤ, ◌≤ℤ◌}
use inferbolt.Base.Float64.{Float64}
use inferbolt.Base.Maps.{get, put, get-update}
use inferbolt.Base.Results.{ok}
use inferbolt.Jobs.Validate.{validate_engines, validate_workload, validate_engine_config}
use inferbolt.Jobs.State.{pending, cancelled, is_terminal}
use inferbolt.Jobs.Types.{Job}
use inferbolt.Router.Classifier.{classify}
use inferbolt.Jobs.Store.{Db, save_job, get_job, update_job_state, inserted, got}
use inferbolt.Agent.Budget.{Budget, BudgetError, default_budget, validate}
use inferbolt.Gateway.Handlers.{
  Response, respond, CreateJobRequest, create_error, job_of, routed, checked, saved, queue_answered,
  create_job, cancel_job, cancel_found, cancel_written,
}
use inferbolt.Gateway.Campaigns.{
  CreateCampaignRequest, validated, limited, with_duration, with_trials, campaign_budget,
  max_campaign_trials, max_campaign_duration,
}

validated_lem :
    (b c : Budget) (o : Option BudgetError)
    → validate b ≡ o
    → validated b o ≡ inr c
    → (b ≡ c) × (validate b ≡ none)
unfolding validated
validated_lem b c (some e) v h = absurd (ground arith)
validated_lem b c none v h = (inr-injective _ _ h, v)

-- The budgets that the service lets a campaign have.
abbrev pub Affordable : Budget → Type 0
Affordable b =
    (pos 1 ≤ℤ b.max_trials)
    × (b.max_trials ≤ℤ max_campaign_trials)
    × (pos 1 ≤ℤ b.max_duration)
    × (b.max_duration ≤ℤ max_campaign_duration)
    × (pos 1 ≤ℤ b.max_turns)

limited_lem : (b c : Budget) → limited b ≡ inr c → Affordable c
unfolding limited validate
limited_lem b c h = elim (Bool-cases (ltb_ℤ max_campaign_trials b.max_trials)) [
  | inl t ↦ absurd (inl-ne-inr (rw t at h))
  | inr t ↦ elim (Bool-cases (ltb_ℤ max_campaign_duration b.max_duration)) [
    | inl d ↦ absurd (inl-ne-inr (rw (t, d) at h))
    | inr d ↦
        let v = validated_lem b c (validate b) refl (rw (t, d) at h) in
        subst Affordable v.0 (ground (arith, t, d, v.1))
  ]
]

-- A budget that the handler accepts is within the limits of the service, whatever the request
-- asks for and however its duration is read.
pub campaign_budget_lem :
    (parse : String → Option ℤ) (req : CreateCampaignRequest) (b : Budget)
    → campaign_budget parse req ≡ inr b
    → Affordable b
unfolding campaign_budget with_duration
campaign_budget_lem parse req b h = elim (Bool-cases (req.max_duration == "")) [
  | inl e ↦ limited_lem (with_trials req.max_trials default_budget) b (rw e at h)
  | inr e ↦ timed (parse req.max_duration) (rw e at h)
]
  where
    timed :
        (o : Option ℤ)
        → with_duration (with_trials req.max_trials default_budget) o ≡ inr b
        → Affordable b
    timed none k = absurd (inl-ne-inr k)
    timed (some d) k =
        limited_lem (record (with_trials req.max_trials default_budget) { max_duration = d }) b k

module _ {F : Type 0} where
  -- Cancelling a job: another tenant is told that there is none, a finished job is left alone,
  -- and any other job of the tenant is cancelled, in whichever state it is, also in those that
  -- the diagram of states has no edge to "cancelled" from.
  pub cancel_job_lem :
      (now : ℕ) (id tenant : String) (db : Db F) (j : Job F)
      → get db.jobs id ≡ some j
      → (j.tenant_id ≢ tenant
          → cancel_job none none now id tenant db ≡ (respond 404 "job not found", db))
        × (j.tenant_id ≡ tenant
            → is_terminal j.state ≡ true
            → cancel_job none none now id tenant db
              ≡ (respond 409 "job already in terminal state", db))
        × (j.tenant_id ≡ tenant
            → is_terminal j.state ≡ false
            → ((cancel_job none none now id tenant db).0 ≡ respond 200 "")
              × (get (cancel_job none none now id tenant db).1.jobs id
                  ≡ some (record j { state = cancelled; updated_at = now; error_msg = "" })))
  unfolding cancel_job cancel_found cancel_written get_job got update_job_state
  cancel_job_lem now id tenant db j e = (
    λ n. rw (e, ==_ne j.tenant_id tenant n) refl,
    λ o t. rw (e, (eq_iff j.tenant_id tenant).1 o, t) refl,
    λ o t.
        rw (e, (eq_iff j.tenant_id tenant).1 o, t)
          (
            refl,
            rw
                (
                  get-update db.jobs id id (λ (x : Job F). record x {
                    state = cancelled;
                    updated_at = now;
                    error_msg = "";
                  }),
                  ==_self id,
                  e,
                )
                refl,
          ),
  )

no_engines : (l : List String) → (l ≢ []) ↔ (eqb (length l) 0 ≡ false)
no_engines [] = (λ h. absurd (h refl), λ h. cc)
no_engines (e ∷ l) = (λ h. ground arith, λ h k. cc)

-- The engines behind the first.
abbrev pub behind : List String → List String
behind [] = []
behind (e ∷ l) = l

first_routed : (e : String) (l : List String) → routed e l ≡ e ∷ behind l
first_routed e [] = refl
first_routed e (x ∷ l) = refl

module _ {F : Type 0} ⦃f : Float64 F⦄ where
  -- What the handler asks of a request.
  abbrev pub Passes : CreateJobRequest F → Type 0
  Passes req =
      (req.model ≢ "")
      × ((req.auto_route ≡ true) ⊎ (req.engines ≢ []))
      × (validate_engines req.engines ≡ none)
      × (req.gpu_profile ≢ "")
      × (validate_workload req.workload ≡ none)
      × (validate_engine_config req.engine_config ≡ none)

  create_error-Passes : (req : CreateJobRequest F) → create_error req ≡ none → Passes req
  unfolding create_error
  create_error-Passes req h = (
    ground (arith, h, eq_iff req.model ""),
    elim (Bool-cases req.auto_route) [
      | inl a ↦ inl a
      | inr a ↦ inr ((no_engines req.engines).1 (ground (arith, h, a)))
    ],
    ground (arith, h),
    ground (arith, h, eq_iff req.gpu_profile ""),
    ground (arith, h),
    ground (arith, h),
  )

  Passes-create_error : (req : CreateJobRequest F) → Passes req → create_error req ≡ none
  unfolding create_error
  Passes-create_error req p =
      ground (arith, p, eq_iff req.model "", eq_iff req.gpu_profile "", no_engines req.engines)

  -- The engine that the classifier recommends for the workload.
  abbrev pub advised : CreateJobRequest F → String
  advised req =
      (classify (record {
        prompt_tokens = req.workload.prompt_tokens;
        output_tokens = req.workload.output_tokens;
        concurrency = req.workload.concurrency;
        structured_output = false;
        tool_calls = false;
        shared_prefix_ratio = f.decimal 0 0;
      })).recommended_engine

  -- The row of a request.
  pub record IsJobOf (id tenant : String) (now : ℕ) (req : CreateJobRequest F) (j : Job F)
      : Type 0 where
    pub own_id : j.job_id ≡ id
    pub owner : j.tenant_id ≡ tenant
    pub is_pending : j.state ≡ pending
    pub model : j.model ≡ req.model
    pub gpu_profile : j.gpu_profile ≡ req.gpu_profile
    pub workload : j.workload_config ≡ req.workload
    pub engine_config : j.engine_config ≡ req.engine_config
    pub asked_engines : req.auto_route ≡ false → j.engines ≡ req.engines
    pub routed_engines : req.auto_route ≡ true → j.engines ≡ advised req ∷ behind req.engines
    pub created : (j.created_at ≡ now) × (j.updated_at ≡ now)
    pub fresh : (j.run_id ≡ "") × (j.error_msg ≡ "")

  job_of-IsJobOf :
      (id tenant : String) (now : ℕ) (req : CreateJobRequest F)
      → IsJobOf id tenant now req (job_of id tenant now req)
  unfolding job_of
  job_of-IsJobOf id tenant now req = record {
    own_id = refl;
    owner = refl;
    is_pending = refl;
    model = refl;
    gpu_profile = refl;
    workload = refl;
    engine_config = refl;
    asked_engines = λ h. rw h refl;
    routed_engines = λ h. rw h (first_routed (advised req) req.engines);
    created = (refl, refl);
    fresh = (refl, refl);
  }

  -- What becomes of a request that passes: by the fault of the database, the job that already has
  -- the id, and the fault of the queue.
  abbrev pub Taken :
      Option String
      → Option (Job F)
      → Option String
      → String
      → String
      → ℕ
      → CreateJobRequest F
      → Db F
      → Response × Db F
      → Type 0
  Taken (some e) o queue id tenant now req db (r, db') = (r.status ≡ 500) × (db' ≡ db)
  Taken none (some old) queue id tenant now req db (r, db') = (r.status ≡ 500) × (db' ≡ db)
  Taken none none queue id tenant now req db (r, db') =
      (r.status ≡ (if is_some queue then 500 else 202))
      × (j : Job F) × IsJobOf id tenant now req j
      × (db' ≡ record db { jobs = put db.jobs id j })

  saved-Taken :
      (store queue : Option String) (id tenant : String) (now : ℕ) (req : CreateJobRequest F)
      (db : Db F) (o : Option (Job F))
      → get db.jobs id ≡ o
      → Taken store o queue id tenant now req db
          (saved queue (save_job store (job_of id tenant now req) db))
  unfolding saved queue_answered save_job inserted job_of
  saved-Taken (some e) queue id tenant now req db o h = (refl, refl)
  saved-Taken none queue id tenant now req db (some old) h = rw h (refl, refl)
  saved-Taken none none id tenant now req db none h =
      rw h (refl, job_of id tenant now req, job_of-IsJobOf id tenant now req, refl)
  saved-Taken none (some e) id tenant now req db none h =
      rw h (refl, job_of id tenant now req, job_of-IsJobOf id tenant now req, refl)

  checked_lem :
      (store queue : Option String) (id tenant : String) (now : ℕ) (req : CreateJobRequest F)
      (db : Db F) (o : Option String)
      → create_error req ≡ o
      → (Passes req
          × Taken store
              (get db.jobs id)
              queue
              id
              tenant
              now
              req
              db
              (checked store queue id tenant now req o db))
        ⊎ ((¬ Passes req)
            × ((checked store queue id tenant now req o db).0.status ≡ 400)
            × ((checked store queue id tenant now req o db).1 ≡ db))
  unfolding checked
  checked_lem store queue id tenant now req db (some e) c =
      inr (λ p. absurd (ground (arith, c, Passes-create_error req p)), refl, refl)
  checked_lem store queue id tenant now req db none c =
      inl (create_error-Passes req c, saved-Taken store queue id tenant now req db _ refl)

  -- A request for a job that fails one of the six checks is answered with 400 and writes nothing.
  -- Any other is answered with 500 and writes nothing when the database refuses the row or has one
  -- under its id; else one row is added, a pending job of the tenant with what was asked for, where
  -- the classifier's engine takes the place of the first if the request leaves the choice open, and
  -- the answer is 202, or 500 when the queue does not take the job: the row stays then too.
  pub create_job_lem :
      (store queue : Option String) (id tenant : String) (now : ℕ) (req : CreateJobRequest F)
      (db : Db F)
      → (Passes req
          × Taken store
              (get db.jobs id)
              queue
              id
              tenant
              now
              req
              db
              (create_job store queue id tenant now (ok req) db))
        ⊎ ((¬ Passes req)
            × ((create_job store queue id tenant now (ok req) db).0.status ≡ 400)
            × ((create_job store queue id tenant now (ok req) db).1 ≡ db))
  unfolding create_job
  create_job_lem store queue id tenant now req db =
      checked_lem store queue id tenant now req db (create_error req) refl
