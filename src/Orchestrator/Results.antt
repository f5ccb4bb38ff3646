-- ===== src/Orchestrator/Results.antt =====
-- What a posted result leaves in the tables.
use inferbolt.Base.{
  ℕ, String, ◌≡◌, ◌≢◌, refl, ap, ◌∙◌, Option, none, some, List, [], ◌∷◌, ◌++◌, inr, false, ==_self,
  ==_ne,
}
use inferbolt.Base.Maps.{get, get-update}
use inferbolt.Base.Results.{ok}
use inferbolt.Jobs.State.{completed, is_terminal}
use inferbolt.Jobs.Types.{Job, Measurement, Recommendation}
use inferbolt.Jobs.Store.{
  Db, AuditEntry, get_job_by_id, got, update_job_state, save_recommendation, append_audit_log,
}
use inferbolt.Metrics.Store.{BenchRow, bench_row, write_bench_result_batch}
use inferbolt.Gateway.Handlers.{respond, cancel_job}
use inferbolt.Gateway.Requests.{cancel_job_lem}
use inferbolt.Orchestrator.Handlers.{
  ResultFaults, submitted_advice, completed_entry, recorded, measured_then, post_results,
  state_answered, get_job_state,
}

module _ {F : Type 0} where
  -- Each of the later statements writes its own table, or nothing.
  save_recommendation_apart :
      (f : Option String) (a : Recommendation F) (db : Db F)
      → ((save_recommendation f a db).1.jobs ≡ db.jobs)
        × ((save_recommendation f a db).1.audit_log ≡ db.audit_log)
  unfolding save_recommendation
  save_recommendation_apart none a db = (refl, refl)
  save_recommendation_apart (some e) a db = (refl, refl)

  append_audit_log_apart :
      (f : Option String) (a : AuditEntry) (db : Db F)
      → ((append_audit_log f a db).1.jobs ≡ db.jobs)
        × ((append_audit_log f a db).1.recommendations ≡ db.recommendations)
  unfolding append_audit_log
  append_audit_log_apart none a db = (refl, refl)
  append_audit_log_apart (some e) a db = (refl, refl)

  update_job_state_apart :
      (f : Option String) (now : ℕ) (id : String) (db : Db F)
      → ((update_job_state f now id completed "" db).1.recommendations ≡ db.recommendations)
        × ((update_job_state f now id completed "" db).1.audit_log ≡ db.audit_log)
        × ((k : String)
            → id ≢ k
            → get (update_job_state f now id completed "" db).1.jobs k ≡ get db.jobs k)
  unfolding update_job_state
  update_job_state_apart none now id db = (refl, refl, λ k ne. rw (get-update, ==_ne id k ne) refl)
  update_job_state_apart (some e) now id db = (refl, refl, λ k ne. refl)

  recorded-jobs :
      (w : ResultFaults) (r : Measurement F) (db : Db F)
      → (recorded w r db).jobs ≡ (update_job_state w.state w.now r.job_id completed "" db).1.jobs
  unfolding recorded
  recorded-jobs w r db =
      (append_audit_log_apart w.audit _ _).0 ∙ (save_recommendation_apart w.recommendation _ _).0

  completed_by :
      (f : Option String) (now : ℕ) (id : String) (db : Db F) (j : Job F)
      → get db.jobs id ≡ some j
      → f ≡ none
      → get (update_job_state f now id completed "" db).1.jobs id
        ≡ some (record j { state = completed; updated_at = now; error_msg = "" })
  unfolding update_job_state
  completed_by none now id db j at h = rw (get-update, ==_self id) (rw at refl)
  completed_by (some e) now id db j at h = cc

  advised_by :
      (f : Option String) (a : Recommendation F) (db : Db F)
      → f ≡ none
      → (save_recommendation f a db).1.recommendations ≡ db.recommendations ++ a ∷ []
  unfolding save_recommendation
  advised_by none a db h = refl
  advised_by (some e) a db h = cc

  audited_by :
      (f : Option String) (a : AuditEntry) (db : Db F)
      → f ≡ none
      → (append_audit_log f a db).1.audit_log ≡ db.audit_log ++ a ∷ []
  unfolding append_audit_log
  audited_by none a db h = refl
  audited_by (some e) a db h = cc

  -- A result whose measurement is written is answered with 200, whatever the database answers to
  -- the other three statements, and each of those that it takes is done: the job is completed
  -- whatever state it was in, one recommendation and one audit entry are added, and no other job
  -- changes. A measurement that is not written answers 500 and leaves both tables.
  pub post_results_lem :
      (w : ResultFaults) (r : Measurement F) (rows : List (BenchRow F)) (db : Db F) (j : Job F)
      → get db.jobs r.job_id ≡ some j
      → (w.metrics ≡ none
          → ((post_results w (ok r) rows db).0 ≡ respond 200 "")
            × ((post_results w (ok r) rows db).1 ≡ rows ++ bench_row w.now r ∷ [])
            × (w.state ≡ none
                → get (post_results w (ok r) rows db).2.jobs r.job_id
                  ≡ some (record j { state = completed; updated_at = w.now; error_msg = "" }))
            × (w.recommendation ≡ none
                → (post_results w (ok r) rows db).2.recommendations
                  ≡ db.recommendations ++ submitted_advice r ∷ [])
            × (w.audit ≡ none
                → (post_results w (ok r) rows db).2.audit_log
                  ≡ db.audit_log ++ completed_entry r ∷ [])
            × ((k : String)
                → r.job_id ≢ k
                → get (post_results w (ok r) rows db).2.jobs k ≡ get db.jobs k))
        × ((e : String)
            → w.metrics ≡ some e
            → post_results w (ok r) rows db ≡ (respond 500 "failed to write metrics", rows, db))
  unfolding post_results measured_then recorded write_bench_result_batch
  post_results_lem w r rows db j at = (
    λ h. rw h (
      refl,
      refl,
      λ f.
          ap (λ d. get d r.job_id) (recorded-jobs w r db)
          ∙ completed_by w.state w.now r.job_id db j at f,
      λ f.
          (append_audit_log_apart w.audit _ _).1
          ∙ advised_by w.recommendation _ _ f
          ∙ ap (λ l. l ++ submitted_advice r ∷ [])
              (update_job_state_apart w.state w.now r.job_id db).0,
      λ f.
          audited_by w.audit _ _ f
          ∙ ap (λ l. l ++ completed_entry r ∷ [])
              ((save_recommendation_apart w.recommendation _ _).1
                ∙ (update_job_state_apart w.state w.now r.job_id db).1),
      λ k ne.
          ap (λ d. get d k) (recorded-jobs w r db)
          ∙ (update_job_state_apart w.state w.now r.job_id db).2 k ne,
    ),
    λ e h. rw h refl,
  )

  -- A result that arrives for a job that its tenant has cancelled completes the job: it reads as
  -- completed, where the cancellation was answered with 200.
  pub results_after_cancel :
      (w : ResultFaults) (r : Measurement F) (rows : List (BenchRow F)) (db : Db F) (j : Job F)
      (now : ℕ)
      → get db.jobs r.job_id ≡ some j
      → is_terminal j.state ≡ false
      → w.metrics ≡ none
      → w.state ≡ none
      → ((cancel_job none none now r.job_id j.tenant_id db).0 ≡ respond 200 "")
        × (get_job_state none r.job_id
              (post_results w (ok r) rows (cancel_job none none now r.job_id j.tenant_id db).1).2
            ≡ inr "completed")
  unfolding get_job_state state_answered get_job_by_id got
  results_after_cancel w r rows db j now at live m s =
      let (answer, there) = (cancel_job_lem now r.job_id j.tenant_id db j at).2 refl live in
      let after =
        (post_results_lem w r rows (cancel_job none none now r.job_id j.tenant_id db).1 _ there).0
          m in
      (answer, rw (after.2 s) refl)
