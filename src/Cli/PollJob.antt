-- ===== src/Cli/PollJob.antt =====
-- internal/cli/client.go: `PollJob`, and `pollAndReport` of cmd/inferbolt/main.go. The list of
-- turns is what the select of the loop sees.
use inferbolt.Base.{String, Bool, Option, none, some, List, [], ◌∷◌, concat, if◌then◌else◌}
use inferbolt.Base.Results.{Result, ok, err}
use inferbolt.Jobs.State.{JobState, failed, is_terminal, same_state}
use inferbolt.Jobs.Types.{Job, Measurement}

-- The context is done, with its cause, or a tick comes: whether the deadline has passed, and what
-- the gateway answers to `GetJob`.
pub data PollTurn (F : Type 0) : Type 0 where
  context_done : String → PollTurn F
  ticked : Bool → Result (Job F) → PollTurn F

module _ {F : Type 0} where
  abbrev pub job_read : Result (Job F) → Option (Result (Job F)) → Option (Result (Job F))
  job_read (err e) rest = rest
  job_read (ok job) rest = if is_terminal job.state then some (ok job) else rest

  -- `none` is a loop that is still polling.
  unfoldable pub poll_job : List (PollTurn F) → Option (Result (Job F))
  poll_job [] = none
  poll_job (context_done cause ∷ turns) = some (err cause)
  poll_job (ticked late answer ∷ turns) =
      let rest = poll_job turns in
      if late then some (err "job polling timed out after 60 minutes") else job_read answer rest

  -- The states that `onUpdate` is told.
  unfoldable pub updates : List (PollTurn F) → List JobState
  updates [] = []
  updates (context_done cause ∷ turns) = []
  updates (ticked late (err e) ∷ turns) = let rest = updates turns in if late then [] else rest
  updates (ticked late (ok job) ∷ turns) =
      let rest = updates turns in
      if late then [] else job.state ∷ (if is_terminal job.state then [] else rest)

  -- The results of the job that was read last, or the error.
  abbrev pub fetched : Result (List (Measurement F)) → Result (List (Measurement F))
  fetched (err e) = err (concat "fetching results: " e)
  fetched (ok results) = ok results

  unfoldable pub reported :
      Result (List (Measurement F))
      → Option (Result (Job F))
      → Option (Result (List (Measurement F)))
  reported results none = none
  reported results (some (err e)) = some (err e)
  reported results (some (ok job)) =
      if same_state job.state failed
      then some (err (concat "benchmark failed: " job.error_msg))
      else some (fetched results)

  -- `results` is what the gateway answers to `GetJobResults`.
  unfoldable pub poll_and_report :
      Result (List (Measurement F)) → List (PollTurn F) → Option (Result (List (Measurement F)))
  unfolding reported poll_job
  poll_and_report results turns = reported results (poll_job turns)
