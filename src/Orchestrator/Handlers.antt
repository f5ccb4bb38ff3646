-- ===== src/Orchestrator/Handlers.antt =====
-- cmd/orchestrator/main.go: the handlers of the internal routes. A request is what was decoded from
-- it, or the decoder's error; a response is its status and its message.
use inferbolt.Base.{ℕ, String, Option, none, some, List, [], ◌∷◌, ◌⊎◌, inl, inr}
use inferbolt.Base.Results.{Result, ok, err}
use inferbolt.Jobs.State.{completed, text}
use inferbolt.Jobs.Types.{Job, Measurement, Recommendation}
use inferbolt.Jobs.Store.{
  Db, AuditEntry, get_job_by_id, update_job_state, save_recommendation, append_audit_log,
}
use inferbolt.Metrics.Store.{BenchRow, write_bench_result_batch}
use inferbolt.Workers.Registry.{WorkerEntry, WorkerRegistry, register, heartbeat}
use inferbolt.Gateway.Handlers.{Response, respond}

unfoldable pub post_register : ℕ → Result WorkerEntry → WorkerRegistry → Response × WorkerRegistry
post_register now (err e) r = (respond 400 "invalid body", r)
post_register now (ok entry) r = (respond 200 "", register now entry r)

unfoldable pub post_heartbeat : ℕ → Result String → WorkerRegistry → Response × WorkerRegistry
post_heartbeat now (err e) r = (respond 400 "invalid body", r)
post_heartbeat now (ok worker_id) r = (respond 200 "", heartbeat now worker_id r)

-- What the database answers to the four statements, and the clock.
pub record ResultFaults : Type 0 where
  pub metrics : Option String
  pub state : Option String
  pub recommendation : Option String
  pub audit : Option String
  pub now : ℕ

module _ {F : Type 0} where
  abbrev pub submitted_advice : Measurement F → Recommendation F
  submitted_advice r = record {
    job_id = r.job_id;
    best_engine = r.engine;
    best_config = r.config;
    cost_per_mtok = r.cost_per_mtok;
    tok_per_sec = r.tok_per_s;
    reasoning = "selected based on highest throughput from submitted result";
  }

  abbrev pub completed_entry : Measurement F → AuditEntry
  completed_entry r = record {
    tenant_id = "internal";
    action = "job.completed";
    resource_id = r.job_id;
  }

  -- The errors of these three are only logged.
  unfoldable pub recorded : ResultFaults → Measurement F → Db F → Db F
  recorded w r db =
      let updated = (update_job_state w.state w.now r.job_id completed "" db).1 in
      let advised = (save_recommendation w.recommendation (submitted_advice r) updated).1 in
      (append_audit_log w.audit (completed_entry r) advised).1

  unfoldable pub measured_then :
      ResultFaults
      → Measurement F
      → Option String × List (BenchRow F)
      → Db F
      → Response × List (BenchRow F) × Db F
  unfolding recorded
  measured_then w r (some e, rows) db = (respond 500 "failed to write metrics", rows, db)
  measured_then w r (none, rows) db = (respond 200 "", rows, recorded w r db)

  unfoldable pub post_results :
      ResultFaults
      → Result (Measurement F)
      → List (BenchRow F)
      → Db F
      → Response × List (BenchRow F) × Db F
  unfolding measured_then
  post_results w (err e) rows db = (respond 400 "invalid body", rows, db)
  post_results w (ok r) rows db =
      measured_then w r (write_bench_result_batch w.metrics w.now (r ∷ []) rows) db

  unfoldable pub state_answered : Result (Job F) → Response ⊎ String
  state_answered (err e) = inl (respond 404 "job not found")
  state_answered (ok job) = inr (text job.state)

  -- The state, or the error that is answered.
  unfoldable pub get_job_state : Option String → String → Db F → Response ⊎ String
  unfolding state_answered
  get_job_state fault id db = state_answered (get_job_by_id fault id db)
