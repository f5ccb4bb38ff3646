-- ===== src/Campaigns/Rows.antt =====
-- internal/campaigns/campaign.go: the stored campaign and its events. A pointer that may be nil is
-- an option; times are nanoseconds.
use inferbolt.Base.{ℕ, String, Bool, true, false, ◌||◌, Option, none, some, List, ◌/◌, suc}
use inferbolt.Base.Int.{ℤ, pos, negsuc, sub_ℕ}
use inferbolt.Jobs.Types.{WorkloadConfig, Measurement}
use inferbolt.Agent.Budget.{Budget, Usage, no_usage}
use inferbolt.Agent.Types.{Campaign, Advice, Trial, TrialSpec, Report, EventKind, EventText}

pub data CampaignState : Type 0 where
  pending running completed failed cancelled : CampaignState

unfoldable pub same : CampaignState → CampaignState → Bool
same pending pending = true
same running running = true
same completed completed = true
same failed failed = true
same cancelled cancelled = true
same _ _ = false

unfoldable pub is_terminal : CampaignState → Bool
unfolding same
is_terminal s = same s completed || (same s failed || same s cancelled)

-- `campaigns.Campaign`
pub record CampaignRow (F : Type 0) : Type 0 where
  pub campaign_id : String
  pub tenant_id : String
  pub goal : String
  pub model : String
  pub gpu_profile : String
  pub engines : List String
  pub workload : WorkloadConfig
  pub budget : Budget
  pub planner_model : String
  pub state : CampaignState
  pub recommendation : Option (Advice F)
  pub trials : List (Trial F)
  pub usage : Option Usage
  pub error_msg : String
  pub created_at : ℕ
  pub updated_at : ℕ
  pub started_at : Option ℕ
  pub completed_at : Option ℕ

-- A row of `campaign_events`, with what `campaigns.Event` shows of it.
pub record EventRow (F : Type 0) : Type 0 where
  pub campaign_id : String
  pub seq : ℕ
  pub kind : EventKind
  pub text : EventText
  pub trial : Option (TrialSpec F)
  pub result : Option (Measurement F)
  pub elapsed_ms : ℤ
  pub created_at : ℕ

-- `time.Duration.Milliseconds`, rounded toward 0.
unfoldable pub milliseconds : ℤ → ℤ
milliseconds (pos n) = pos (n / 1000000)
milliseconds (negsuc n) = sub_ℕ 0 (suc n / 1000000)

-- From the start to the end, or to the clock where there is none yet.
elapsed_of : ℕ → Option ℕ → Option ℕ → ℤ
elapsed_of now none stopped = pos 0
elapsed_of now (some started) none = sub_ℕ now started
elapsed_of now (some started) (some stopped) = sub_ℕ stopped started

usage_or_none : Option Usage → Usage
usage_or_none none = no_usage
usage_or_none (some u) = u

module _ {F : Type 0} where
  abbrev to_agent_campaign : CampaignRow F → Campaign
  to_agent_campaign c = record {
    goal = c.goal;
    model = c.model;
    gpu_profile = c.gpu_profile;
    workload = c.workload;
    engines = c.engines;
    budget = c.budget;
  }

  unfoldable to_report : ℕ → CampaignRow F → Report F
  unfolding elapsed_of usage_or_none
  to_report now c = record {
    campaign = to_agent_campaign c;
    recommendation = c.recommendation;
    trials = c.trials;
    usage = usage_or_none c.usage;
    planner_model = c.planner_model;
    elapsed = elapsed_of now c.started_at c.completed_at;
  }
