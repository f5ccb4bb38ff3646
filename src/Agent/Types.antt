-- ===== src/Agent/Types.antt =====
-- The records of internal/agent: agent.go, platform.go and events.go.
use inferbolt.Base.{String, Bool, ◌&&◌, Option, List, ◌==◌}
use inferbolt.Base.Int.{ℤ}
use inferbolt.Base.Float64.{Float64}
use inferbolt.Jobs.Types.{
  WorkloadConfig, EngineConfig, Measurement, same_workload, same_engine_config,
}
use inferbolt.Agent.Budget.{Budget, Usage, Reason}

pub record Campaign : Type 0 where
  pub goal : String
  pub model : String
  pub gpu_profile : String
  pub workload : WorkloadConfig
  pub engines : List String
  pub budget : Budget

pub record AgentWorker : Type 0 where
  pub worker_id : String
  pub gpu_type : String
  pub status : String

pub record TrialSpec (F : Type 0) : Type 0 where
  pub model : String
  pub engine : String
  pub gpu_profile : String
  pub workload : WorkloadConfig
  pub engine_config : EngineConfig F

pub record Trial (F : Type 0) : Type 0 where
  pub spec : TrialSpec F
  pub result : Measurement F
  pub err : String
  pub duration : ℤ
  pub hypothesis : String
  pub reused : Bool

-- `agent.Recommendation`.
pub record Advice (F : Type 0) : Type 0 where
  pub engine : String
  pub engine_config : EngineConfig F
  pub reasoning : String
  pub runner_up : String
  pub confidence : String
  pub caveats : String
  pub measured : Option (Measurement F)
  pub fallback : Bool

pub record Report (F : Type 0) : Type 0 where
  pub campaign : Campaign
  pub recommendation : Option (Advice F)
  pub trials : List (Trial F)
  pub usage : Usage
  pub planner_model : String
  pub elapsed : ℤ

pub data EventKind : Type 0 where
  plan thinking trial_start trial_done trial_failed lookup warn finished : EventKind

pub data EventText : Type 0 where
  plain : String → EventText
  out_of_budget : Reason → EventText

pub record Event (F : Type 0) : Type 0 where
  pub kind : EventKind
  pub text : EventText
  pub trial : Option (TrialSpec F)
  pub result : Option (Measurement F)
  pub elapsed : ℤ

module _ {F : Type 0} ⦃f : Float64 F⦄ where
  -- `t.Err == "" && t.Result.TokPerSec > 0`
  unfoldable pub ok_trial : Trial F → Bool
  ok_trial t = (t.err == "") && f.lt (f.decimal 0 0) t.result.tok_per_s

  -- `t.Spec == spec`
  unfoldable pub same_spec : TrialSpec F → TrialSpec F → Bool
  same_spec a b =
      (a.model == b.model)
      && ((a.engine == b.engine)
          && ((a.gpu_profile == b.gpu_profile)
              && (same_workload a.workload b.workload
                  && same_engine_config a.engine_config b.engine_config)))
