-- ===== src/Jobs/Store.antt =====
-- internal/config/store.go: the tables that a job lives in. A statement that the database refuses
-- is the argument `fault`, the text of its error; the tables then stay as they were. A row's id is
-- the primary key. `''` stands for NULL, as `COALESCE` and `NULLIF` have it. The JSON columns hold
-- what was marshalled into them.
use inferbolt.Base.{
  ℕ, String, Bool, ◌&&◌, ◌||◌, Option, none, some, List, [], ◌∷◌, ◌++◌, ◌==◌, ltb, concat, keep,
  length, if◌then◌else◌,
}
use inferbolt.Base.Lists.{take, drop}
use inferbolt.Base.Maps.{Dict, get, put, update, values}
use inferbolt.Base.Results.{Result, ok, err}
use inferbolt.Jobs.State.{JobState, text}
use inferbolt.Jobs.Types.{Job, Recommendation}

pub record AuditEntry : Type 0 where
  pub tenant_id : String
  pub action : String
  pub resource_id : String

pub record Db (F : Type 0) : Type 0 where
  pub jobs : Dict (Job F)
  pub recommendations : List (Recommendation F)
  pub audit_log : List AuditEntry

-- The texts of pgx.ErrNoRows and of PostgreSQL's unique_violation.
abbrev pub no_rows : String
no_rows = "no rows in result set"

abbrev pub unique_violation : String
unique_violation = "duplicate key value violates unique constraint"

module _ {F : Type 0} where
  unfoldable pub inserted : Job F → Option (Job F) → Db F → Option String × Db F
  inserted job (some old) db = (some (concat "save job: " unique_violation), db)
  inserted job none db = (none, record db { jobs = put db.jobs job.job_id job })

  unfoldable pub save_job : Option String → Job F → Db F → Option String × Db F
  unfolding inserted
  save_job (some fault) job db = (some (concat "save job: " fault), db)
  save_job none job db = inserted job (get db.jobs job.job_id) db

  unfoldable pub got : String → Option (Job F) → Result (Job F)
  got id none = err (concat "get job " (concat id (concat ": " no_rows)))
  got id (some j) = ok j

  -- `WHERE id = $1 AND tenant_id = $2`
  abbrev pub owned_by : String → Option (Job F) → Option (Job F)
  owned_by tenant none = none
  owned_by tenant (some j) = if j.tenant_id == tenant then some j else none

  unfoldable pub get_job : Option String → String → String → Db F → Result (Job F)
  unfolding got
  get_job (some fault) id tenant db = err (concat "get job " (concat id (concat ": " fault)))
  get_job none id tenant db = got id (owned_by tenant (get db.jobs id))

  unfoldable pub get_job_by_id : Option String → String → Db F → Result (Job F)
  unfolding got
  get_job_by_id (some fault) id db = err (concat "get job " (concat id (concat ": " fault)))
  get_job_by_id none id db = got id (get db.jobs id)

  -- The unguarded write: any state may follow any other, and a missing row is no error.
  unfoldable pub update_job_state :
      Option String → ℕ → String → JobState → String → Db F → Option String × Db F
  update_job_state (some fault) now id state msg db = (some (concat "update job state: " fault), db)
  update_job_state none now id state msg db = (
    none,
    record db {
      jobs = update db.jobs id (λ j. record j { state = state; updated_at = now; error_msg = msg });
    },
  )

  unfoldable set_job_run_id : Option String → ℕ → String → String → Db F → Option String × Db F
  set_job_run_id (some fault) now id run db = (some (concat "set job run_id: " fault), db)
  set_job_run_id none now id run db = (
    none,
    record db { jobs = update db.jobs id (λ j. record j { run_id = run; updated_at = now }) },
  )

  unfoldable pub save_recommendation :
      Option String → Recommendation F → Db F → Option String × Db F
  save_recommendation (some fault) r db = (some (concat "save recommendation: " fault), db)
  save_recommendation none r db =
      (none, record db { recommendations = db.recommendations ++ r ∷ [] })

  unfoldable pub append_audit_log : Option String → AuditEntry → Db F → Option String × Db F
  append_audit_log (some fault) e db = (some (concat "append audit log: " fault), db)
  append_audit_log none e db = (none, record db { audit_log = db.audit_log ++ e ∷ [] })

  -- `WHERE tenant_id = $1 [AND state = $2]`
  abbrev pub listed : String → String → Job F → Bool
  listed tenant state j = (j.tenant_id == tenant) && ((state == "") || (text j.state == state))

  -- `ORDER BY created_at DESC`; rows of the same time keep their order.
  unfoldable pub insert_newest : Job F → List (Job F) → List (Job F)
  insert_newest j [] = j ∷ []
  insert_newest j (i ∷ rest) =
      if ltb j.created_at i.created_at then i ∷ insert_newest j rest else j ∷ i ∷ rest

  unfoldable pub newest_first : List (Job F) → List (Job F)
  unfolding insert_newest
  newest_first [] = []
  newest_first (j ∷ rest) = insert_newest j (newest_first rest)

  unfoldable pub matching : String → String → Db F → List (Job F)
  matching tenant state db = newest_first (keep (listed tenant state) (values db.jobs))

  -- `LIMIT` and `OFFSET` are what the handlers pass, so they are not negative.
  unfoldable pub list_jobs : Option String → String → String → ℕ → ℕ → Db F → Result (List (Job F))
  list_jobs (some fault) tenant state limit offset db = err (concat "list jobs: " fault)
  list_jobs none tenant state limit offset db =
      ok (take limit (drop offset (matching tenant state db)))

  unfoldable pub count_jobs : Option String → String → String → Db F → Result ℕ
  count_jobs (some fault) tenant state db = err (concat "count jobs: " fault)
  count_jobs none tenant state db = ok (length (keep (listed tenant state) (values db.jobs)))
