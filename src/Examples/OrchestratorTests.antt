-- ===== src/Examples/OrchestratorTests.antt =====
-- The theorems on posted results and on what a tenant reads at concrete tables.
use inferbolt.Base.{
  ℕ, String, ◌≡◌, ◌≢◌, refl, inl, inr, Bool-cases, Option, none, some, List, [], ◌∷◌, ◌++◌, keep,
  arith, ◌==◌,
}
use inferbolt.Base.Float64.{Micros, micros_float}
use inferbolt.Base.Maps.{get}
use inferbolt.Base.Results.{ok}
use inferbolt.Jobs.State.{completed, is_terminal}
use inferbolt.Jobs.Types.{Measurement}
use inferbolt.Jobs.Store.{Db}
use inferbolt.Metrics.Store.{BenchRow, bench_row, query_by_job, write_bench_result_batch}
use inferbolt.Metrics.Queries.{query_by_job-write_bench_result_batch}
use inferbolt.Gateway.Handlers.{respond, cancel_job}
use inferbolt.Gateway.Reads.{
  Parameter, get_job_route, get_job_results, list_jobs_route, get_metrics,
}
use inferbolt.Gateway.Isolation.{SameFor, reads_isolated}
use inferbolt.Orchestrator.Handlers.{
  ResultFaults, submitted_advice, completed_entry, post_results, get_job_state,
}
use inferbolt.Orchestrator.Results.{post_results_lem, results_after_cancel}
use inferbolt.Examples.Data.{job, db, measurement}

abbrev faults : ResultFaults
faults = record {
  metrics = none;
  state = none;
  recommendation = some "down";
  audit = none;
  now = 9;
}

post_results_lem_example :
    (faults.metrics ≡ none
      → ((post_results faults (ok measurement) [] db).0 ≡ respond 200 "")
        × ((post_results faults (ok measurement) [] db).1 ≡ bench_row 9 measurement ∷ [])
        × (faults.state ≡ none
            → get (post_results faults (ok measurement) [] db).2.jobs "j1"
              ≡ some (record job { state = completed; updated_at = 9; error_msg = "" }))
        × (faults.recommendation ≡ none
            → (post_results faults (ok measurement) [] db).2.recommendations
              ≡ db.recommendations ++ submitted_advice measurement ∷ [])
        × (faults.audit ≡ none
            → (post_results faults (ok measurement) [] db).2.audit_log
              ≡ db.audit_log ++ completed_entry measurement ∷ [])
        × ((k : String)
            → "j1" ≢ k
            → get (post_results faults (ok measurement) [] db).2.jobs k ≡ get db.jobs k))
    × ((e : String)
        → faults.metrics ≡ some e
        → post_results faults (ok measurement) [] db
          ≡ (respond 500 "failed to write metrics", [], db))
unfolding get
post_results_lem_example = post_results_lem faults measurement [] db job refl

results_after_cancel_example :
    ((cancel_job none none 7 "j1" "acme" db).0 ≡ respond 200 "")
    × (get_job_state none "j1"
          (post_results faults (ok measurement) [] (cancel_job none none 7 "j1" "acme" db).1).2
        ≡ inr "completed")
unfolding get is_terminal
results_after_cancel_example =
    results_after_cancel faults measurement [] db job 7 refl refl refl refl

abbrev older : List (BenchRow Micros)
older = bench_row 3 measurement ∷ []

query_by_job-write_bench_result_batch_example :
    (ms : List (Measurement Micros)) × (query_by_job none "j1" older ≡ ok ms)
    × (query_by_job none "j1" (write_bench_result_batch none 9 (measurement ∷ []) older).1
        ≡ ok (ms ++ record measurement { run_id = "" } ∷ []))
query_by_job-write_bench_result_batch_example =
    query_by_job-write_bench_result_batch 9 measurement older "j1" (omega arith, tt)

-- Another tenant's job, with a measurement.
abbrev foreign : Db Micros
foreign = record db {
  jobs = ("j1", job) ∷ ("j2", record job { job_id = "j2"; tenant_id = "rival" }) ∷ [];
}

abbrev shared : List (BenchRow Micros)
shared = bench_row 4 (record measurement { job_id = "j2" }) ∷ older

shared-SameFor : SameFor "acme" db foreign older shared
unfolding get keep
shared-SameFor = record {
  same_job = λ id. elim (Bool-cases ("j1" == id)) [
    | inl h ↦ rw h refl
    | inr h ↦ elim (Bool-cases ("j2" == id)) [ inl k ↦ rw (h, k) refl | inr k ↦ rw (h, k) refl ]
  ];
  same_jobs = refl;
  same_rows = refl;
}

reads_isolated_example :
    ((fault : Option String) (id : String)
      → get_job_route fault id "acme" db ≡ get_job_route fault id "acme" foreign)
    × ((read query : Option String) (id : String)
        → get_job_results read query id "acme" db older
          ≡ get_job_results read query id "acme" foreign shared)
    × ((read count : Option String) (state : String) (limit offset : Parameter)
        → list_jobs_route read count "acme" state limit offset db
          ≡ list_jobs_route read count "acme" state limit offset foreign)
    × ((fault : Option String) (parse : String → Option ℕ) (now : ℕ) (engine model since : String)
        → get_metrics fault parse now "acme" engine model since db older
          ≡ get_metrics fault parse now "acme" engine model since foreign shared)
reads_isolated_example = reads_isolated "acme" db foreign older shared shared-SameFor
