-- ===== src/Jobs/Runs.antt =====
-- The path of internal/jobs/worker.go on which the run is started, and what a failed run leaves.
use inferbolt.Base.{ℕ, String, ◌≡◌, refl, ◌⊎◌, true, none, some, arith, ==_self, ◌∙◌, ap}
use inferbolt.Base.Maps.{get, update, get-update}
use inferbolt.Base.Results.{ok}
use inferbolt.Jobs.State.{JobState, pending, running, collecting, valid_transition}
use inferbolt.Jobs.Types.{Job}
use inferbolt.Jobs.Store.{Db}
use inferbolt.Jobs.Worker.{
  Faults, refusal, stamped, move_job, poll_for_results, World, Attempt, Outcome, released, selected,
  started, dispatched, answered, collected, polled, work,
}
use inferbolt.Jobs.Attempts.{work_never_resumes, move_job_refused}
use inferbolt.Workers.Registry.{WorkerEntry, select_worker, mark_busy}

-- No statement fails.
abbrev Works : Faults → Type 0
Works faults = (faults.read ≡ none) × (faults.write ≡ none)

abbrev CanStart : JobState → Type 0
CanStart s = (s ≡ pending) ⊎ (s ≡ running)

module _ {F : Type 0} where
  move_job_done :
      (faults : Faults) (now : ℕ) (id : String) (to : JobState) (db : Db F) (j : Job F)
      → get db.jobs id ≡ some j
      → Works faults
      → valid_transition j.state to ≡ true
      → move_job faults now id to db
        ≡ (none, record db { jobs = update db.jobs id (stamped now to) })
  unfolding move_job
  move_job_done faults now id to db j at up edge = ground arith

  -- The tables once the run is started.
  abbrev collecting_db : ℕ → String → Db F → Db F
  collecting_db now id db = record db { jobs = update db.jobs id (stamped now collecting) }

  abbrev running_db : ℕ → String → JobState → Db F → Db F
  running_db now id pending db = record db { jobs = update db.jobs id (stamped now running) }
  running_db now id _ db = db

  -- The world that the run starts in: the job is "collecting" and its worker busy with it.
  abbrev pub in_progress : Attempt F → String → WorkerEntry → JobState → World F → World F
  in_progress a id entry s w = record {
    db = collecting_db a.now id (running_db a.now id s w.db);
    registry = mark_busy entry.worker_id id w.registry;
  }

  selected_run :
      (a : Attempt F) (id gpu run : String) (w : World F) (j : Job F) (entry : WorkerEntry)
      → get w.db.jobs id ≡ some j
      → j.state ≡ running
      → Works a.collect_faults
      → a.marshal_error ≡ none
      → a.request_error ≡ none
      → a.response ≡ ok (ok run)
      → selected a id gpu w (some entry)
        ≡ released entry.worker_id (
          poll_for_results id run a.events,
          a.meanwhile (record {
            db = collecting_db a.now id w.db;
            registry = mark_busy entry.worker_id id w.registry;
          }),
        )
  unfolding selected dispatched answered collected polled valid_transition
  selected_run a id gpu run w j entry at s up m q r =
      rw (m, q, r) (rw (move_job_done a.collect_faults a.now id collecting w.db j at up (rw s)))

  module _ (a : Attempt F) (id gpu run : String) (w : World F) (j : Job F) (entry : WorkerEntry)
      (at : get w.db.jobs id ≡ some j) (up : Works a.start_faults) (up' : Works a.collect_faults)
      (sel : select_worker a.order gpu ≡ some entry) (m : a.marshal_error ≡ none)
      (q : a.request_error ≡ none) (r : a.response ≡ ok (ok run)) where
    run_from_pending :
        j.state ≡ pending
        → work a id gpu w
          ≡ released entry.worker_id
              (poll_for_results id run a.events, a.meanwhile (in_progress a id entry pending w))
    unfolding work started valid_transition
    run_from_pending s = rw (move_job_done a.start_faults a.now id running w.db j at up (rw s)) (
        rw sel (
          selected_run a id gpu run (record w { db = running_db a.now id pending w.db })
            (stamped a.now running j) entry (rw (get-update, ==_self id, at)) refl up' m q r))

    run_from_running :
        j.state ≡ running
        → work a id gpu w
          ≡ released entry.worker_id
              (poll_for_results id run a.events, a.meanwhile (in_progress a id entry running w))
    unfolding work started
    run_from_running s =
        rw
          (move_job_refused a.start_faults a.now id running w.db j at up.0
            (unfold valid_transition in rw s))
          (rw (ap (λ t. refusal t running) s)
            (rw sel (selected_run a id gpu run w j entry at s up' m q r)))

    row_from :
        (s : JobState)
        → CanStart s
        → get (in_progress a id entry s w).db.jobs id ≡ some (stamped a.now collecting j)
    row_from pending h = rw (get-update, ==_self id, get-update, ==_self id, at)
    row_from running h = rw (get-update, ==_self id, at)
    row_from _ h = ground arith

  -- A job that is pending, or running already when River retries it, is started on a free worker:
  -- its row goes to "collecting", the worker is busy while the run is polled, and the attempt ends
  -- as the poll loop does, with the worker released.
  pub work_starts_run :
      (a : Attempt F) (id gpu run : String) (w : World F) (j : Job F) (entry : WorkerEntry)
      → get w.db.jobs id ≡ some j
      → CanStart j.state
      → Works a.start_faults
      → Works a.collect_faults
      → select_worker a.order gpu ≡ some entry
      → a.marshal_error ≡ none
      → a.request_error ≡ none
      → a.response ≡ ok (ok run)
      → (work a id gpu w
          ≡ released entry.worker_id
              (poll_for_results id run a.events, a.meanwhile (in_progress a id entry j.state w)))
        × (get (in_progress a id entry j.state w).db.jobs id ≡ some (stamped a.now collecting j))
  work_starts_run a id gpu run w j entry at s up up' sel m q r =
      (from j.state refl s, row_from a id gpu run w j entry at up up' sel m q r j.state s)
    where
      from :
          (t : JobState)
          → j.state ≡ t
          → CanStart t
          → work a id gpu w
            ≡ released entry.worker_id
                (poll_for_results id run a.events, a.meanwhile (in_progress a id entry t w))
      from pending e h = run_from_pending a id gpu run w j entry at up up' sel m q r e
      from running e h = run_from_running a id gpu run w j entry at up up' sel m q r e
      from _ e h = ground arith

  released-db : (worker_id : String) (r : Outcome × World F) → (released worker_id r).1.db ≡ r.1.db
  released-db worker_id (none, w) = refl
  released-db worker_id (some e, w) = refl

  -- A run that the worker reports as failed leaves its job "collecting", if nobody else writes the
  -- row: the failure is returned to River alone, and each of River's later attempts fails at its
  -- first step and changes nothing.
  pub work_failure_sticks :
      (a b : Attempt F) (id gpu run msg : String) (w : World F) (j : Job F) (entry : WorkerEntry)
      → get w.db.jobs id ≡ some j
      → CanStart j.state
      → Works a.start_faults
      → Works a.collect_faults
      → select_worker a.order gpu ≡ some entry
      → a.marshal_error ≡ none
      → a.request_error ≡ none
      → a.response ≡ ok (ok run)
      → poll_for_results id run a.events ≡ some (some msg)
      → ((v : World F) → get (a.meanwhile v).db.jobs id ≡ get v.db.jobs id)
      → b.start_faults.read ≡ none
      → let w' = (work a id gpu w).1 in
        ((work a id gpu w).0 ≡ some (some msg))
        × (get w'.db.jobs id ≡ some (stamped a.now collecting j))
        × (work b id gpu w' ≡ (
          some (some "transition to running: invalid state transition: collecting → running"),
          w',
        ))
  work_failure_sticks a b id gpu run msg w j entry at s up up' sel m q r poll keeps up'' = (
    ap (λ t. t.0) ends,
    row,
    work_never_resumes b id gpu (work a id gpu w).1 (stamped a.now collecting j) row up'' (λ e. cc)
        (λ e. cc),
  )
    where
      starts :
          (work a id gpu w
            ≡ released entry.worker_id
                (poll_for_results id run a.events, a.meanwhile (in_progress a id entry j.state w)))
          × (get (in_progress a id entry j.state w).db.jobs id ≡ some (stamped a.now collecting j))
      starts = work_starts_run a id gpu run w j entry at s up up' sel m q r

      ends :
          work a id gpu w
          ≡ released entry.worker_id
              (some (some msg), a.meanwhile (in_progress a id entry j.state w))
      ends = starts.0 ∙ rw poll

      row : get (work a id gpu w).1.db.jobs id ≡ some (stamped a.now collecting j)
      row = rw ends (keeps _ ∙ starts.1)
