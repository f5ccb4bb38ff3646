-- ===== src/Campaigns/Worker.antt =====
-- internal/campaigns/worker.go: `Timeout`, `Work` and `finishFailed`. What the agent's run
-- reports is an input, and so are the statements that other processes and the observer carry out
-- while it runs.
use inferbolt.Base.{
  ℕ, String, Bool, true, false, Option, none, some, List, ◌⊎◌, inl, inr, concat, if◌then◌else◌,
}
use inferbolt.Base.Int.{ℤ, pos, leb_ℤ, ◌+ℤ◌, ◌*ℤ◌, wrap64}
use inferbolt.Base.Results.{Result, ok, err}
use inferbolt.Agent.Types.{Report}
use inferbolt.Agent.Budget.{default_budget}
use inferbolt.Campaigns.Rows.{CampaignRow}
use inferbolt.Campaigns.Store.{
  Tables, StoreError, not_found, refused, get_by_id, mark_running, complete, fail,
}
use inferbolt.Campaigns.Claims.{Statement, execute_all}

-- Durations are 64-bit numbers of nanoseconds.
unfoldable pub timeout : ℤ → ℤ
unfolding wrap64 ◌+ℤ◌ ◌*ℤ◌
timeout max_duration_sec =
    let d : ℤ = wrap64 (max_duration_sec *ℤ pos 1000000000) in
    wrap64 ((if leb_ℤ d (pos 0) then default_budget.max_duration else d) +ℤ pos 600000000000)

-- `errors.Is(runErr, ErrCampaignCancelled)` tells the first error from the second.
pub data RunEnd : Type 0 where
  ran_well was_cancelled : RunEnd
  ran_badly : String → RunEnd

-- What the database answers to each statement of one attempt, the runner that the factory makes or
-- its error, and how the run goes.
pub record WorkInputs (F : Type 0) : Type 0 where
  pub load_fault : Option String
  pub claim_fault : Option String
  pub claimed_at : ℕ
  pub factory_error : Option String
  pub meanwhile : List (Statement F)
  pub run_end : RunEnd
  pub report : Option (Report F)
  pub finish_fault : Option String
  pub finished_at : ℕ

module _ {F : Type 0} where
  -- `fmt.Errorf("...: %w", err)`, of an error of the store.
  abbrev annotated : String → Option StoreError × Tables F → Option String × Tables F
  annotated context (none, t) = (none, t)
  annotated context (some (refused e), t) = (some (concat context (concat ": " e)), t)
  annotated context (some not_found, t) = (some (concat context ": campaign not found"), t)

  unfoldable pub finish_failed :
      WorkInputs F → String → String → Option (Report F) → Tables F → Option String × Tables F
  finish_failed w id cause report t =
      annotated (concat "record failed campaign " id)
        (fail w.finish_fault w.finished_at id cause report t)

  unfoldable pub concluded : WorkInputs F → String → RunEnd → Tables F → Option String × Tables F
  unfolding finish_failed
  concluded w id ran_well t =
      annotated (concat "record completed campaign " id)
        (complete w.finish_fault w.finished_at id w.report t)
  concluded w id was_cancelled t =
      annotated (concat "record cancelled campaign " id)
        (complete w.finish_fault w.finished_at id w.report t)
  concluded w id (ran_badly cause) t = finish_failed w id cause w.report t

  unfoldable pub launched :
      WorkInputs F → String → Option String → Tables F → Option String × Tables F
  unfolding finish_failed concluded
  launched w id (some e) t = finish_failed w id e none t
  launched w id none t = concluded w id w.run_end (execute_all w.meanwhile t)

  unfoldable pub claim_answered :
      WorkInputs F → String → Result Bool × Tables F → Option String × Tables F
  unfolding launched
  claim_answered w id (err e, t) = (some (concat "claim campaign " (concat id (concat ": " e))), t)
  claim_answered w id (ok false, t) = (none, t)
  claim_answered w id (ok true, t) = launched w id w.factory_error t

  unfoldable pub loaded :
      WorkInputs F → String → StoreError ⊎ CampaignRow F → Tables F → Option String × Tables F
  unfolding claim_answered
  loaded w id (inl not_found) t = (none, t)
  loaded w id (inl (refused e)) t = (some (concat "load campaign " (concat id (concat ": " e))), t)
  loaded w id (inr c) t = claim_answered w id (mark_running w.claim_fault w.claimed_at id t)

  unfoldable pub work : WorkInputs F → String → Tables F → Option String × Tables F
  unfolding loaded
  work w id t = loaded w id (get_by_id w.load_fault id t) t
