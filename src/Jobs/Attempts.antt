-- ===== src/Jobs/Attempts.antt =====
-- What one attempt of the benchmark worker does to the job's row and to the registry.
use inferbolt.Base.{
  ℕ, String, ◌≡◌, ◌≢◌, refl, ◌⊎◌, inl, inr, false, Option, none, some, concat, arith, ◌==◌, ==_self,
  Bool-cases,
}
use inferbolt.Base.Maps.{get, get-update}
use inferbolt.Jobs.State.{JobState, pending, running, valid_transition}
use inferbolt.Jobs.Types.{Job}
use inferbolt.Jobs.Store.{Db}
use inferbolt.Jobs.Worker.{
  Faults, refusal, move_job, World, Attempt, Outcome, released, selected, started, work,
}
use inferbolt.Workers.Registry.{WorkerEntry, WorkerRegistry, idle, select_worker, mark_idle, free}

module _ {F : Type 0} where
  pub move_job_refused :
      (faults : Faults) (now : ℕ) (id : String) (to : JobState) (db : Db F) (j : Job F)
      → get db.jobs id ≡ some j
      → faults.read ≡ none
      → valid_transition j.state to ≡ false
      → move_job faults now id to db ≡ (some (refusal j.state to), db)
  unfolding move_job
  move_job_refused faults now id to db j at up no_edge = ground arith

restart-invalid : (s : JobState) → s ≢ pending → valid_transition s running ≡ false
unfolding valid_transition
restart-invalid pending h = absurd (h refl)
restart-invalid _ h = refl

refusal_text :
    (s : JobState)
    → s ≢ running
    → (refusal s running == "invalid state transition: running → running") ≡ false
refusal_text running h = absurd (h refl)
refusal_text _ h = refl

module _ {F : Type 0} where
  -- Once a job has left the states "pending" and "running", every further attempt at it fails at
  -- its first step and changes neither the row nor the registry.
  pub work_never_resumes :
      (a : Attempt F) (id gpu : String) (w : World F) (j : Job F)
      → get w.db.jobs id ≡ some j
      → a.start_faults.read ≡ none
      → j.state ≢ pending
      → j.state ≢ running
      → work a id gpu w
        ≡ (some (some (concat "transition to running: " (refusal j.state running))), w)
  unfolding work
  work_never_resumes a id gpu w j at up np nr =
      rw
        (move_job_refused a.start_faults a.now id running w.db j at up (restart-invalid j.state np))
        (rw (refusal_text j.state nr))

-- A worker that is idle and holds no job, if it is registered still.
abbrev pub Released : String → WorkerRegistry → Type 0
Released id r =
    (v : WorkerEntry) → get r.workers id ≡ some v → (v.status ≡ idle) × (v.current_job_id ≡ "")

mark_idle-Released : (id : String) (r : WorkerRegistry) → Released id (mark_idle id r)
unfolding mark_idle
mark_idle-Released id r v at = ground (arith, get-update r.workers id id free, ==_self id)

module _ {F : Type 0} where
  released-Released :
      (id : String) (r : Outcome × World F) (e : Option String)
      → (released id r).0 ≡ some e
      → Released id (released id r).1.registry
  released-Released id (none, w) e h = cc
  released-Released id (some x, w) e h = mark_idle-Released id w.registry

  selected-releases :
      (a : Attempt F) (id gpu : String) (w : World F) (o : Option WorkerEntry) (e : Option String)
      → (selected a id gpu w o).0 ≡ some e
      → ((selected a id gpu w o).1.registry ≡ w.registry)
        ⊎ ((entry : WorkerEntry) × (o ≡ some entry)
            × Released entry.worker_id (selected a id gpu w o).1.registry)
  unfolding selected
  selected-releases a id gpu w none e h = inl refl
  selected-releases a id gpu w (some entry) e h =
      inr (entry, refl, released-Released entry.worker_id _ e h)

  started-releases :
      (a : Attempt F) (id gpu : String) (w : World F) (m : Option String × Db F) (e : Option String)
      → (started a id gpu w m).0 ≡ some e
      → ((started a id gpu w m).1.registry ≡ w.registry)
        ⊎ ((entry : WorkerEntry) × (select_worker a.order gpu ≡ some entry)
            × Released entry.worker_id (started a id gpu w m).1.registry)
  unfolding started
  started-releases a id gpu w (none, db) e h =
      selected-releases a id gpu (record w { db = db }) (select_worker a.order gpu) e h
  started-releases a id gpu w (some x, db) e h =
      elim (Bool-cases (x == "invalid state transition: running → running")) [
        | inl retry ↦ rw retry (
            selected-releases a id gpu (record w { db = db }) (select_worker a.order gpu) e
              (rw retry at h))
        | inr other ↦ inl (rw other)
      ]

  -- Whatever happens during an attempt, when it has returned, the worker that it had marked as
  -- busy is idle again and holds no job, or it had marked none and the registry is as it was.
  pub work_releases :
      (a : Attempt F) (id gpu : String) (w : World F) (e : Option String)
      → (work a id gpu w).0 ≡ some e
      → ((work a id gpu w).1.registry ≡ w.registry)
        ⊎ ((entry : WorkerEntry) × (select_worker a.order gpu ≡ some entry)
            × Released entry.worker_id (work a id gpu w).1.registry)
  unfolding work
  work_releases a id gpu w e h =
      started-releases a id gpu w (move_job a.start_faults a.now id running w.db) e h
