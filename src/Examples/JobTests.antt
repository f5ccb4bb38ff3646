-- ===== src/Examples/JobTests.antt =====
-- The theorems on jobs at concrete inputs.
use inferbolt.Base.{◌≡◌, refl, inl, ◌⊎◌, some, List, [], ◌∷◌}
use inferbolt.Base.Float64.{Micros, micros_float}
use inferbolt.Base.Maps.{get}
use inferbolt.Base.Results.{ok, err}
use inferbolt.Jobs.State.{collecting}
use inferbolt.Jobs.Worker.{stamped, PollEvent, tick, poll_for_results, World, work}
use inferbolt.Jobs.Attempts.{Released, work_releases}
use inferbolt.Jobs.Runs.{work_failure_sticks}
use inferbolt.Workers.Registry.{WorkerEntry, select_worker}
use inferbolt.Examples.Data.{job, db, worker, registry, world, failing}

abbrev early : List PollEvent
early = tick (err "503") ∷ tick (ok ("running", "")) ∷ []

work_failure_sticks_example :
    let w' = (work failing "j1" "A100" world).1 in
    ((work failing "j1" "A100" world).0 ≡ some (some "worker reported failure for run=r1: oom"))
    × (get w'.db.jobs "j1" ≡ some (stamped 9 collecting job))
    × (work failing "j1" "A100" w'
        ≡ (some (some "transition to running: invalid state transition: collecting → running"), w'))
unfolding get select_worker poll_for_results
work_failure_sticks_example =
    work_failure_sticks failing failing "j1" "A100" "r1" "worker reported failure for run=r1: oom"
      world job worker refl (inl refl) (refl, refl) (refl, refl) refl refl refl refl refl
      (λ v. refl) refl

abbrev stuck_world : World Micros
stuck_world = record world {
  db = record db { jobs = ("j1", record job { state = collecting }) ∷ [] };
}

failed_run :
    (work failing "j1" "A100" world).0 ≡ some (some "worker reported failure for run=r1: oom")
unfolding get select_worker poll_for_results
failed_run =
    (work_failure_sticks failing failing "j1" "A100" "r1" "worker reported failure for run=r1: oom"
      world job worker refl (inl refl) (refl, refl) (refl, refl) refl refl refl refl refl
      (λ v. refl) refl).0

work_releases_example :
    ((work failing "j1" "A100" world).1.registry ≡ registry)
    ⊎ ((entry : WorkerEntry) × (select_worker failing.order "A100" ≡ some entry)
        × Released entry.worker_id (work failing "j1" "A100" world).1.registry)
unfolding get select_worker poll_for_results
work_releases_example =
    work_releases failing "j1" "A100" world (some "worker reported failure for run=r1: oom")
      failed_run
