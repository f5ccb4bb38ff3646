-- ===== src/Gateway/Isolation.antt =====
-- What a tenant reads of jobs and measurements rests on its own jobs alone.
use mathlib.Core.Path.{ap₂}
use inferbolt.Base.{
  ℕ, String, Bool, true, ◌&&◌, ◌≡◌, refl, sym, ap, subst, ◌∙◌, Option, none, some, List, [], ◌∷◌,
  keep, length, arith, eq_iff, ◌==◌,
}
use inferbolt.Base.Lists.{take, drop}
use inferbolt.Base.Maps.{get, values}
use inferbolt.Base.Results.{ok}
use inferbolt.Jobs.Types.{Job}
use inferbolt.Jobs.Store.{
  Db, get_job, got, owned_by, listed, newest_first, matching, list_jobs, count_jobs,
}
use inferbolt.Metrics.Store.{
  BenchRow, query_by_job, query_by_tenant_engine_and_model, of_job, of_tenant, has_tenant, measured,
  results_of,
}
use inferbolt.Gateway.Reads.{
  Parameter, page_limit, page_offset, page_of, shown_or, since_of, metrics_since, get_job_route,
  get_job_results, list_jobs_route, get_metrics,
}

module _ {ℓ} {A : Type ℓ} where
  -- Two tests that hold together one after the other.
  keep-both :
      (p q both : A → Bool) (xs : List A)
      → ((x : A) → both x ≡ (p x && q x))
      → keep both xs ≡ keep p (keep q xs)
  unfolding keep
  keep-both p q both [] e = refl
  keep-both p q both (x ∷ xs) e = ground (arith, e x, keep-both p q both xs e)

  -- A test that implies another passes over what the other drops.
  keep-implied :
      (p q : A → Bool) (xs : List A)
      → ((x : A) → p x ≡ true → q x ≡ true)
      → keep p xs ≡ keep p (keep q xs)
  unfolding keep
  keep-implied p q [] e = refl
  keep-implied p q (x ∷ xs) e = ground (arith, e x, keep-implied p q xs e)

module _ {F : Type 0} where
  abbrev pub is_own : String → Job F → Bool
  is_own tenant j = j.tenant_id == tenant

  -- Two states of the tables that hold the same jobs of one tenant, and the same measurements of
  -- those.
  pub record SameFor (tenant : String) (db db' : Db F) (rows rows' : List (BenchRow F))
      : Type 0 where
    pub same_job :
        (id : String) → owned_by tenant (get db.jobs id) ≡ owned_by tenant (get db'.jobs id)
    pub same_jobs : keep (is_own tenant) (values db.jobs) ≡ keep (is_own tenant) (values db'.jobs)
    pub same_rows : keep (of_tenant tenant db.jobs) rows ≡ keep (of_tenant tenant db'.jobs) rows'

  get_job-same :
      (fault : Option String) (id tenant : String) (db db' : Db F)
      → owned_by tenant (get db.jobs id) ≡ owned_by tenant (get db'.jobs id)
      → get_job fault id tenant db ≡ get_job fault id tenant db'
  unfolding get_job
  get_job-same (some e) id tenant db db' h = refl
  get_job-same none id tenant db db' h = ap (got id) h

  listed-same :
      (tenant state : String) (jobs jobs' : List (Job F))
      → keep (is_own tenant) jobs ≡ keep (is_own tenant) jobs'
      → keep (listed tenant state) jobs ≡ keep (listed tenant state) jobs'
  listed-same tenant state jobs jobs' h =
      keep-implied (listed tenant state) (is_own tenant) jobs (λ j l. ground (arith, l))
      ∙ ap (keep (listed tenant state)) h
      ∙ sym (keep-implied (listed tenant state) (is_own tenant) jobs' (λ j l. ground (arith, l)))

  metrics-same :
      (fault : Option String) (tenant engine model : String) (since : ℕ) (db db' : Db F)
      (rows rows' : List (BenchRow F))
      → keep (of_tenant tenant db.jobs) rows ≡ keep (of_tenant tenant db'.jobs) rows'
      → query_by_tenant_engine_and_model fault tenant engine model since db.jobs rows
        ≡ query_by_tenant_engine_and_model fault tenant engine model since db'.jobs rows'
  unfolding query_by_tenant_engine_and_model
  metrics-same (some e) tenant engine model since db db' rows rows' h = refl
  metrics-same none tenant engine model since db db' rows rows' h =
      ap (λ l. ok (results_of l))
        (keep-both (measured engine model since) (of_tenant tenant db.jobs) _ rows (λ r. refl)
          ∙ ap (keep (measured engine model since)) h
          ∙ sym (
              keep-both (measured engine model since) (of_tenant tenant db'.jobs) _ rows'
                (λ r. refl)))

  owner :
      (tenant : String) (o : Option (Job F)) (j : Job F)
      → owned_by tenant o ≡ some j
      → has_tenant tenant o ≡ true
  owner tenant none j h = cc
  owner tenant (some i) j h = ground arith

  -- The rows of an own job are rows of the tenant.
  own_rows :
      (tenant id : String) (db : Db F) (j : Job F) (rows : List (BenchRow F))
      → owned_by tenant (get db.jobs id) ≡ some j
      → keep (of_job id) rows ≡ keep (of_job id) (keep (of_tenant tenant db.jobs) rows)
  own_rows tenant id db j rows h = keep-implied (of_job id) (of_tenant tenant db.jobs) rows (λ r e.
      subst (λ k. has_tenant tenant (get db.jobs k) ≡ true) (sym ((eq_iff _ _).0 e))
        (owner tenant (get db.jobs id) j h))

  query_by_job-same :
      (fault : Option String) (id : String) (rows rows' : List (BenchRow F))
      → keep (of_job id) rows ≡ keep (of_job id) rows'
      → query_by_job fault id rows ≡ query_by_job fault id rows'
  unfolding query_by_job
  query_by_job-same (some e) id rows rows' h = refl
  query_by_job-same none id rows rows' h = ap (λ l. ok (results_of l)) h

  results-same :
      (read query : Option String) (id tenant : String) (db db' : Db F)
      (rows rows' : List (BenchRow F))
      → SameFor tenant db db' rows rows'
      → get_job_results read query id tenant db rows
        ≡ get_job_results read query id tenant db' rows'
  unfolding get_job_results get_job got
  results-same (some e) query id tenant db db' rows rows' s = refl
  results-same none query id tenant db db' rows rows' s = go (owned_by tenant (get db.jobs id)) refl
    where
      go :
          (o : Option (Job F))
          → owned_by tenant (get db.jobs id) ≡ o
          → get_job_results none query id tenant db rows
            ≡ get_job_results none query id tenant db' rows'
      go none e = rw (e, sym (s.same_job id) ∙ e) refl
      go (some j) e =
          rw (e, sym (s.same_job id) ∙ e)
            (ap (shown_or 500 "failed to query results") (
              query_by_job-same query id rows rows' (
                own_rows tenant id db j rows e
                ∙ ap (keep (of_job id)) s.same_rows
                ∙ sym (own_rows tenant id db' j rows' (sym (s.same_job id) ∙ e)))))

  list_jobs-same :
      (read : Option String) (tenant state : String) (limit offset : ℕ) (db db' : Db F)
      → keep (is_own tenant) (values db.jobs) ≡ keep (is_own tenant) (values db'.jobs)
      → list_jobs read tenant state limit offset db ≡ list_jobs read tenant state limit offset db'
  unfolding list_jobs matching
  list_jobs-same (some e) tenant state limit offset db db' h = refl
  list_jobs-same none tenant state limit offset db db' h =
      ap (λ l. ok (take limit (drop offset (newest_first l)))) (listed-same tenant state _ _ h)

  count_jobs-same :
      (read : Option String) (tenant state : String) (db db' : Db F)
      → keep (is_own tenant) (values db.jobs) ≡ keep (is_own tenant) (values db'.jobs)
      → count_jobs read tenant state db ≡ count_jobs read tenant state db'
  unfolding count_jobs
  count_jobs-same (some e) tenant state db db' h = refl
  count_jobs-same none tenant state db db' h =
      ap (λ l. ok (length l)) (listed-same tenant state _ _ h)

  -- Two databases that hold the same jobs of a tenant and the same measurements of those answer
  -- the tenant's reads alike, whatever they hold of others: a job by its id, the results of a job,
  -- a page of jobs with its total, and the measurements of an engine and a model.
  pub reads_isolated :
      (tenant : String) (db db' : Db F) (rows rows' : List (BenchRow F))
      → SameFor tenant db db' rows rows'
      → ((fault : Option String) (id : String)
          → get_job_route fault id tenant db ≡ get_job_route fault id tenant db')
        × ((read query : Option String) (id : String)
            → get_job_results read query id tenant db rows
              ≡ get_job_results read query id tenant db' rows')
        × ((read count : Option String) (state : String) (limit offset : Parameter)
            → list_jobs_route read count tenant state limit offset db
              ≡ list_jobs_route read count tenant state limit offset db')
        × ((fault : Option String) (parse : String → Option ℕ) (now : ℕ)
              (engine model since : String)
            → get_metrics fault parse now tenant engine model since db rows
              ≡ get_metrics fault parse now tenant engine model since db' rows')
  unfolding get_job_route list_jobs_route get_metrics
  reads_isolated tenant db db' rows rows' s = (
    λ fault id.
        ap (shown_or 404 "job not found") (get_job-same fault id tenant db db' (s.same_job id)),
    λ read query id. results-same read query id tenant db db' rows rows' s,
    λ read count state limit offset.
        ap₂ (page_of "failed to list jobs" limit offset)
          (list_jobs-same read tenant state (page_limit limit) (page_offset offset) db db'
            s.same_jobs)
          (count_jobs-same count tenant state db db' s.same_jobs),
    λ fault parse now engine model since. go fault engine model (since_of parse now since),
  )
    where
      go :
          (fault : Option String) (engine model : String) (o : Option ℕ)
          → metrics_since fault tenant engine model o db rows
            ≡ metrics_since fault tenant engine model o db' rows'
      go fault engine model none = refl
      go fault engine model (some since) =
          ap (shown_or 500 "failed to query metrics")
            (metrics-same fault tenant engine model since db db' rows rows' s.same_rows)
