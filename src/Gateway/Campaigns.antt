-- ===== src/Gateway/Campaigns.antt =====
-- internal/gateway/campaigns.go: creating and cancelling a campaign.
use inferbolt.Base.{
  ℕ, String, Option, none, some, List, [], ◌==◌, eqb, length, ◌⊎◌, inl, inr, if◌then◌else◌,
}
use inferbolt.Base.Int.{ℤ, pos, ltb_ℤ}
use inferbolt.Base.Results.{Result, ok, err}
use inferbolt.Jobs.Types.{WorkloadConfig}
use inferbolt.Jobs.Validate.{validate_engines, validate_workload}
use inferbolt.Agent.Budget.{Budget, BudgetError, default_budget, validate}
use inferbolt.Agent.Run.{default_model}
use inferbolt.Campaigns.Rows.{CampaignRow, CampaignState}
use inferbolt.Campaigns.Store.{Tables, StoreError, not_found, refused, create, cancel}
use inferbolt.Gateway.Handlers.{Response, respond, when, or_else}

pub record CreateCampaignRequest : Type 0 where
  pub goal : String
  pub model : String
  pub gpu_profile : String
  pub engines : List String
  pub workload : WorkloadConfig
  pub planner_model : String
  pub max_trials : ℤ
  pub max_duration : String

abbrev pub max_campaign_trials : ℤ
max_campaign_trials = pos 50

-- 24 hours, in nanoseconds.
abbrev pub max_campaign_duration : ℤ
max_campaign_duration = pos 86400000000000

-- The texts of the handler, or what `Budget.Validate` says.
pub data LimitError : Type 0 where
  bad_duration many_trials long_duration : LimitError
  invalid_budget : BudgetError → LimitError

unfoldable pub validated : Budget → Option BudgetError → LimitError ⊎ Budget
validated b (some e) = inl (invalid_budget e)
validated b none = inr b

unfoldable pub limited : Budget → LimitError ⊎ Budget
unfolding validated
limited b =
    if ltb_ℤ max_campaign_trials b.max_trials
    then inl many_trials
    else if ltb_ℤ max_campaign_duration b.max_duration
    then inl long_duration
    else validated b (validate b)

abbrev pub with_trials : ℤ → Budget → Budget
with_trials n b = record b { max_trials = if ltb_ℤ (pos 0) n then n else b.max_trials }

unfoldable pub with_duration : Budget → Option ℤ → LimitError ⊎ Budget
unfolding limited
with_duration b none = inl bad_duration
with_duration b (some d) = limited (record b { max_duration = d })

-- `parse` is `time.ParseDuration`.
unfoldable pub campaign_budget : (String → Option ℤ) → CreateCampaignRequest → LimitError ⊎ Budget
unfolding with_duration limited
campaign_budget parse req =
    let b : Budget = with_trials req.max_trials default_budget in
    if req.max_duration == "" then limited b else with_duration b (parse req.max_duration)

unfoldable campaign_error : CreateCampaignRequest → Option String
campaign_error req = or_else (when (req.goal == "") "goal is required") (
    or_else (when (req.model == "") "model is required") (
      or_else (when (req.gpu_profile == "") "gpu_profile is required") (
        or_else (when (eqb (length req.engines) 0) "at least one candidate engine is required")
          (or_else (validate_engines req.engines) (validate_workload req.workload)))))

module _ {F : Type 0} where
  unfoldable pub row_of : String → String → ℕ → CreateCampaignRequest → Budget → CampaignRow F
  row_of id tenant now req budget = record {
    campaign_id = id;
    tenant_id = tenant;
    goal = req.goal;
    model = req.model;
    gpu_profile = req.gpu_profile;
    engines = req.engines;
    workload = req.workload;
    budget = budget;
    planner_model = if req.planner_model == "" then default_model else req.planner_model;
    state = CampaignState.pending;
    recommendation = none;
    trials = [];
    usage = none;
    error_msg = "";
    created_at = now;
    updated_at = now;
    started_at = none;
    completed_at = none;
  }

  -- A campaign that the queue does not take is cancelled again.
  enqueued : Option String → Option String → ℕ → String → String → Tables F → Response × Tables F
  enqueued none undo now id tenant t = (respond 202 "", t)
  enqueued (some e) undo now id tenant t =
      (respond 500 "failed to enqueue campaign", (cancel undo now id tenant t).1)

  unfoldable pub stored :
      Option String
      → Option String
      → ℕ
      → String
      → String
      → Option StoreError × Tables F
      → Response × Tables F
  unfolding enqueued
  stored queue undo now id tenant (some e, t) = (respond 500 "failed to save campaign", t)
  stored queue undo now id tenant (none, t) = enqueued queue undo now id tenant t

  -- `shown` writes the error of a budget.
  unfoldable pub budgeted :
      (LimitError → String)
      → Option String
      → Option String
      → Option String
      → ℕ
      → String
      → String
      → CreateCampaignRequest
      → LimitError ⊎ Budget
      → Tables F
      → Response × Tables F
  unfolding stored
  budgeted shown store queue undo now id tenant req (inl e) t = (respond 400 (shown e), t)
  budgeted shown store queue undo now id tenant req (inr budget) t =
      stored queue undo now id tenant (create store (row_of id tenant now req budget) t)

  campaign_checked :
      (String → Option ℤ)
      → (LimitError → String)
      → Option String
      → Option String
      → Option String
      → ℕ
      → String
      → String
      → CreateCampaignRequest
      → Option String
      → Tables F
      → Response × Tables F
  unfolding budgeted
  campaign_checked parse shown store queue undo now id tenant req (some e) t = (respond 400 e, t)
  campaign_checked parse shown store queue undo now id tenant req none t =
      budgeted shown store queue undo now id tenant req (campaign_budget parse req) t

  unfoldable create_campaign :
      (String → Option ℤ)
      → (LimitError → String)
      → Option String
      → Option String
      → Option String
      → ℕ
      → String
      → String
      → Result CreateCampaignRequest
      → Tables F
      → Response × Tables F
  unfolding campaign_checked
  create_campaign parse shown store queue undo now id tenant (err e) t = (respond 400 e, t)
  create_campaign parse shown store queue undo now id tenant (ok req) t =
      campaign_checked parse shown store queue undo now id tenant req (campaign_error req) t

  cancel_answered : Option StoreError × Tables F → Response × Tables F
  cancel_answered (some not_found, t) = (respond 404 "no cancellable campaign with that id", t)
  cancel_answered (some (refused e), t) = (respond 500 "failed to cancel campaign", t)
  cancel_answered (none, t) = (respond 200 "", t)

  unfoldable cancel_campaign : Option String → ℕ → String → String → Tables F → Response × Tables F
  unfolding cancel_answered
  cancel_campaign fault now id tenant t = cancel_answered (cancel fault now id tenant t)
