-- ===== src/Jobs/Worker.antt =====
-- internal/jobs/worker.go: the River worker that runs one benchmark job. What pgx, net/http and
-- encoding/json answer is an input; so is what other goroutines do while the run is in progress.
use inferbolt.Base.{ℕ, String, not, Option, none, some, List, [], ◌∷◌, ◌==◌, concat, if◌then◌else◌}
use inferbolt.Base.Maps.{Dict, get, update}
use inferbolt.Base.Results.{Result, ok, err}
use inferbolt.Jobs.State.{JobState, running, collecting, failed, text, valid_transition}
use inferbolt.Jobs.Types.{Job}
use inferbolt.Jobs.Store.{Db, no_rows}
use inferbolt.Workers.Registry.{WorkerEntry, WorkerRegistry, select_worker, mark_busy, mark_idle}

-- Whether the SELECT and the UPDATE of one `updateJobState` reach the database.
pub record Faults : Type 0 where
  pub read : Option String
  pub write : Option String

abbrev pub refusal : JobState → JobState → String
refusal from to = concat "invalid state transition: " (concat (text from) (concat " → " (text to)))

module _ {F : Type 0} where
  -- The scan of the SELECT.
  current_state : Option String → Option (Job F) → Result JobState
  current_state (some fault) row = err (concat "read current state: " fault)
  current_state none none = err (concat "read current state: " no_rows)
  current_state none (some j) = ok j.state

  abbrev pub stamped : ℕ → JobState → Job F → Job F
  stamped now state j = record j { state = state; updated_at = now }

  written : Option String → ℕ → String → JobState → Db F → Option String × Db F
  written (some fault) now id state db = (some fault, db)
  written none now id state db = (none, record db { jobs = update db.jobs id (stamped now state) })

  moved : Faults → ℕ → String → JobState → Db F → Result JobState → Option String × Db F
  unfolding written
  moved faults now id new_state db (err e) = (some e, db)
  moved faults now id new_state db (ok current) =
      if not (valid_transition current new_state)
      then (some (refusal current new_state), db)
      else written faults.write now id new_state db

  unfoldable pub move_job : Faults → ℕ → String → JobState → Db F → Option String × Db F
  unfolding current_state moved
  move_job faults now id new_state db =
      moved faults now id new_state db (current_state faults.read (get db.jobs id))

-- One case of the `select` in the poll loop, or what a status request answered.
pub data PollEvent : Type 0 where
  cancelled_context : String → PollEvent
  deadline : PollEvent
  tick : Result (String × String) → PollEvent

-- `none`: after these events the loop still polls.
unfoldable pub poll_for_results : String → String → List PollEvent → Option (Option String)
poll_for_results job_id run_id [] = none
poll_for_results job_id run_id (cancelled_context cause ∷ rest) = some (some cause)
poll_for_results job_id run_id (deadline ∷ rest) =
    some (some (concat "poll timeout (45m) for job=" (concat job_id (concat " run=" run_id))))
poll_for_results job_id run_id (tick (err e) ∷ rest) = poll_for_results job_id run_id rest
poll_for_results job_id run_id (tick (ok (status, message)) ∷ rest) =
    let again = poll_for_results job_id run_id rest in
    if status == "completed"
    then some none
    else if status == "failed"
    then some
        (some (concat "worker reported failure for run=" (concat run_id (concat ": " message))))
    else again

pub record World (F : Type 0) : Type 0 where
  pub db : Db F
  pub registry : WorkerRegistry

-- What the outside answers in one attempt: the faults of the three writes of the state, the order
-- in which the registry is visited, the errors of building the request, what the POST gave (the
-- error of the transport, or that of decoding, or the run's id), what others do during the run, and
-- the events of the poll loop.
pub record Attempt (F : Type 0) : Type 0 where
  pub now : ℕ
  pub start_faults : Faults
  pub order : Dict WorkerEntry
  pub marshal_error : Option String
  pub request_error : Option String
  pub response : Result (Result String)
  pub fail_faults : Faults
  pub collect_faults : Faults
  pub meanwhile : World F → World F
  pub events : List PollEvent

-- `none`: the attempt still polls. The text is the error that River sees.
abbrev pub Outcome : Type 0
Outcome = Option (Option String)

module _ {F : Type 0} where
  -- `_ = updateJobState(..., StateFailed)`
  give_up : Attempt F → String → World F → World F
  give_up a id w = record w { db = (move_job a.fail_faults a.now id failed w.db).1 }

  -- Step 6.
  unfoldable pub polled : Attempt F → String → String → World F → Outcome × World F
  polled a id run_id w = (poll_for_results id run_id a.events, a.meanwhile w)

  -- Step 5.
  unfoldable pub collected :
      Attempt F → String → String → World F → Option String × Db F → Outcome × World F
  unfolding polled
  collected a id run_id w (some e, db) =
      (some (some (concat "transition to collecting: " e)), record w { db = db })
  collected a id run_id w (none, db) = polled a id run_id (record w { db = db })

  -- The answer of the Python worker.
  unfoldable pub answered :
      Attempt F → String → World F → Result (Result String) → Outcome × World F
  unfolding collected give_up
  answered a id w (err e) = (some (some (concat "dispatch to worker: " e)), give_up a id w)
  answered a id w (ok (err e)) = (some (some (concat "decode run response: " e)), give_up a id w)
  answered a id w (ok (ok run_id)) =
      collected a id run_id w (move_job a.collect_faults a.now id collecting w.db)

  -- Step 4, behind the errors of `json.Marshal` and `http.NewRequestWithContext`.
  unfoldable pub dispatched :
      Attempt F → String → Option String → Option String → World F → Outcome × World F
  unfolding answered
  dispatched a id (some e) request w = (some (some (concat "marshal job args: " e)), w)
  dispatched a id none (some e) w = (some (some (concat "build dispatch request: " e)), w)
  dispatched a id none none w = answered a id w a.response

  -- `defer w.registry.MarkIdle(entry.ID)`, once the attempt has returned.
  abbrev pub released : String → Outcome × World F → Outcome × World F
  released worker_id (none, w) = (none, w)
  released worker_id (some e, w) = (some e, record w { registry = mark_idle worker_id w.registry })

  -- Steps 2 and 3.
  unfoldable pub selected :
      Attempt F → String → String → World F → Option WorkerEntry → Outcome × World F
  unfolding dispatched
  selected a id gpu w none = (
    some
        (some (concat "no available worker for gpu_profile=" (concat gpu ": no available worker"))),
    w,
  )
  selected a id gpu w (some entry) = released entry.worker_id (
      dispatched a id a.marshal_error a.request_error
        (record w { registry = mark_busy entry.worker_id id w.registry }))

  -- Step 1: a retry finds the job running already, which is no error.
  unfoldable pub started :
      Attempt F → String → String → World F → Option String × Db F → Outcome × World F
  unfolding selected
  started a id gpu w (some e, db) =
      if not (e == "invalid state transition: running → running")
      then (some (some (concat "transition to running: " e)), record w { db = db })
      else selected a id gpu (record w { db = db }) (select_worker a.order gpu)
  started a id gpu w (none, db) =
      selected a id gpu (record w { db = db }) (select_worker a.order gpu)

  unfoldable pub work : Attempt F → String → String → World F → Outcome × World F
  unfolding started
  work a id gpu w = started a id gpu w (move_job a.start_faults a.now id running w.db)
