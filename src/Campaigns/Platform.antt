-- ===== src/Campaigns/Platform.antt =====
-- internal/campaigns/platform.go: one trial of a campaign, run as an ordinary job. The queue and
-- the metrics are outside: what they answer is an input, and so is what each poll reads.
use inferbolt.Base.{ℕ, String, not, Option, none, some, List, [], ◌∷◌, ◌==◌, concat, if◌then◌else◌}
use inferbolt.Base.Int.{ℤ, pos, leb_ℤ}
use inferbolt.Base.Float64.{Float64}
use inferbolt.Base.Results.{Result, ok, err}
use inferbolt.Jobs.State.{JobState, text, same_state, is_terminal}
use inferbolt.Jobs.Types.{Job, Measurement}
use inferbolt.Jobs.Validate.{validate_engines, validate_workload, validate_engine_config}
use inferbolt.Jobs.Store.{Db, save_job}
use inferbolt.Agent.Types.{TrialSpec}
use inferbolt.Campaigns.Rows.{CampaignState, cancelled, same}

abbrev cancelled_error : String
cancelled_error = "campaign cancelled"

-- A state that cannot be read does not stop the campaign.
unfoldable pub check_cancelled : Result CampaignState → Option String
check_cancelled (err e) = none
check_cancelled (ok s) = if same s cancelled then some cancelled_error else none

-- `PollInterval` and `JobTimeout` with their defaults, in nanoseconds.
abbrev poll_interval : ℤ → ℤ
poll_interval d = if leb_ℤ d (pos 0) then pos 3000000000 else d

abbrev job_timeout : ℤ → ℤ
job_timeout d = if leb_ℤ d (pos 0) then pos 3600000000000 else d

abbrev or_unrecorded : String → String
or_unrecorded msg = if msg == "" then "no error message recorded" else msg

-- The early returns of a chain of checks.
abbrev first_error : Option String → Option String → Option String
first_error (some e) rest = some e
first_error none rest = rest

-- One case of the `select`; a tick brings what `GetJobByID` then answered.
pub data WaitEvent (F : Type 0) : Type 0 where
  context_done : String → WaitEvent F
  deadline_passed : String → WaitEvent F
  ticked : Result (Job F) → WaitEvent F

-- What the services answer to one trial, and the id and time it takes.
pub record TrialInputs (F : Type 0) : Type 0 where
  pub campaign_state : Result CampaignState
  pub job_id : String
  pub now : ℕ
  pub save_fault : Option String
  pub enqueue_fault : Option String
  pub wait : List (WaitEvent F)
  pub results : Result (List (Measurement F))

module _ {F : Type 0} where
  -- `none`: after these events the loop still waits.
  pub wait_for_job : String → List (WaitEvent F) → Option (Result (Job F))
  wait_for_job id [] = none
  wait_for_job id (context_done e ∷ rest) = some (err e)
  wait_for_job id (deadline_passed limit ∷ rest) =
      some (err (concat "job " (concat id (concat " did not finish within " limit))))
  wait_for_job id (ticked (err e) ∷ rest) = wait_for_job id rest
  wait_for_job id (ticked (ok job) ∷ rest) =
      let again = wait_for_job id rest in if is_terminal job.state then some (ok job) else again

  abbrev pub job_for : String → TrialInputs F → TrialSpec F → Job F
  job_for tenant i spec = record {
    job_id = i.job_id;
    tenant_id = tenant;
    model = spec.model;
    engines = spec.engine ∷ [];
    workload_config = spec.workload;
    engine_config = spec.engine_config;
    gpu_profile = spec.gpu_profile;
    state = JobState.pending;
    run_id = "";
    created_at = i.now;
    updated_at = i.now;
    error_msg = "";
  }

  unfoldable pub result_of : String → String → List (Measurement F) → Result (Measurement F)
  result_of id engine [] =
      err
        (concat "job " (concat id (concat " completed but produced no " (concat engine " result"))))
  result_of id engine (r ∷ rest) =
      let later = result_of id engine rest in if r.engine == engine then ok r else later

  pub read_results : String → String → Result (List (Measurement F)) → Result (Measurement F)
  unfolding result_of
  read_results id engine (err e) = err (concat "read results for job " (concat id (concat ": " e)))
  read_results id engine (ok rs) = result_of id engine rs

  -- Behind the wait: `none` while the job is still going.
  unfoldable pub judged :
      TrialInputs F → TrialSpec F → Option (Result (Job F)) → Option (Result (Measurement F))
  unfolding read_results
  judged i spec none = none
  judged i spec (some (err e)) = some (err e)
  judged i spec (some (ok final)) =
      if not (same_state final.state JobState.completed)
      then some (
          err (
            concat "job " (
              concat i.job_id (
                concat " ended "
                  (concat (text final.state) (concat ": " (or_unrecorded final.error_msg)))))))
      else some (read_results i.job_id spec.engine i.results)

  unfoldable pub queued :
      TrialInputs F → TrialSpec F → Option String → Db F → Option (Result (Measurement F)) × Db F
  unfolding judged wait_for_job
  queued i spec (some e) db = (some (err (concat "enqueue benchmark job: " e)), db)
  queued i spec none db = (judged i spec (wait_for_job i.job_id i.wait), db)

  unfoldable pub saved :
      TrialInputs F → TrialSpec F → Option String × Db F → Option (Result (Measurement F)) × Db F
  unfolding queued
  saved i spec (some e, db) = (some (err (concat "save benchmark job: " e)), db)
  saved i spec (none, db) = queued i spec i.enqueue_fault db

module _ {F : Type 0} ⦃f : Float64 F⦄ where
  -- The first of the checks that fails.
  unfoldable pub trial_error : TrialInputs F → TrialSpec F → Option String
  trial_error i spec = first_error (check_cancelled i.campaign_state) (
      first_error (validate_engines (spec.engine ∷ []))
        (first_error (validate_workload spec.workload) (validate_engine_config spec.engine_config)))

  unfoldable pub admitted :
      String
      → TrialInputs F
      → TrialSpec F
      → Option String
      → Db F
      → Option (Result (Measurement F)) × Db F
  unfolding saved
  admitted tenant i spec (some e) db = (some (err e), db)
  admitted tenant i spec none db = saved i spec (save_job i.save_fault (job_for tenant i spec) db)

  -- `RunBenchmark` of the platform of one tenant; `none` while the job is still going.
  unfoldable pub run_benchmark :
      String → TrialInputs F → TrialSpec F → Db F → Option (Result (Measurement F)) × Db F
  unfolding admitted trial_error
  run_benchmark tenant i spec db = admitted tenant i spec (trial_error i spec) db
