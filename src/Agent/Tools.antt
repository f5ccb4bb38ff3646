-- ===== src/Agent/Tools.antt =====
-- internal/agent/tools.go: the tool calls of the planner. Decoding the arguments and what the
-- platform answers are inputs; the reply is a constructor for each text, with what the text shows,
-- and whether it is an error. The clock is read at `now`, and again at `later` behind a benchmark.
use inferbolt.Base.{
  ℕ, String, Bool, true, false, Option, none, List, [], ◌∷◌, ◌++◌, concat, if◌then◌else◌,
}
use inferbolt.Base.Int.{ℤ, pos, leb_ℤ, ◌*ℤ◌, ◌-ℤ◌, wrap64}
use inferbolt.Base.Results.{Result, ok, err}
use inferbolt.Jobs.Types.{WorkloadConfig, EngineConfig, Measurement}
use inferbolt.Router.Classifier.{ClassificationInput, ClassificationResult}
use inferbolt.Agent.Budget.{Spend, Reason, elapsed}
use inferbolt.Agent.Types.{
  Campaign, AgentWorker, TrialSpec, Trial, Advice, Event, EventKind, EventText, plain, lookup,
}

-- The fields of `Agent` that a run reads and writes. `allowed_engines` is the set that `New` builds
-- from the campaign's list; `events` is what the observer was given, oldest first.
pub record Agent (F : Type 0) : Type 0 where
  pub campaign : Campaign
  pub model : String
  pub observed : Bool
  pub allowed_engines : List String
  pub trials : List (Trial F)
  pub recommendation : Option (Advice F)
  pub spend : Spend
  pub events : List (Event F)

pub record ClassifyArgs (F : Type 0) : Type 0 where
  pub structured_output : Bool
  pub tool_calls : Bool
  pub shared_prefix_ratio : F

pub record HistoricalArgs : Type 0 where
  pub engine : String
  pub since_hours : ℤ

-- `engineConfigInput` has the fields of `jobs.EngineConfig`.
pub record BenchmarkArgs (F : Type 0) : Type 0 where
  pub engine : String
  pub hypothesis : String
  pub config : EngineConfig F

pub record RecommendArgs (F : Type 0) : Type 0 where
  pub engine : String
  pub reasoning : String
  pub runner_up : String
  pub confidence : String
  pub caveats : String
  pub config : EngineConfig F

pub data Reply (F : Type 0) : Type 0 where
  unknown_tool : String → Reply F
  bad_arguments : String → Reply F
  no_list : String → Reply F
  no_workers : Reply F
  workers : List AgentWorker → Reply F
  no_classification : String → Reply F
  classification : ClassificationResult F → Reply F
  no_history : String → Reply F
  nothing_past : String → String → ℤ → Reply F
  past : List (Measurement F) → Reply F
  not_available : String → List String → Reply F
  refused : Reason → Reply F
  already_measured : Measurement F → Reply F
  benchmark_failed : String → ℤ → ℤ → Reply F
  measured : Measurement F → ℤ → ℤ → ℤ → Reply F
  recorded : Reply F

-- The platform, an interface: one answer for each question.
pub record Platform (F : Type 0) : Type 0 where
  pub list_workers : Result (List AgentWorker)
  pub classify_workload : ClassificationInput F → Result (ClassificationResult F)
  pub run_benchmark : TrialSpec F → Result (Measurement F)
  pub historical_results : String → String → ℤ → Result (List (Measurement F))

pub data ToolCall (F : Type 0) : Type 0 where
  list_workers : ToolCall F
  classify_workload : Result (ClassifyArgs F) → ToolCall F
  historical_results : Result HistoricalArgs → ToolCall F
  run_benchmark : Result (BenchmarkArgs F) → ToolCall F
  submit_recommendation : Result (RecommendArgs F) → ToolCall F
  other : String → ToolCall F

abbrev hours_asked : ℤ → ℤ
hours_asked h = if leb_ℤ h (pos 0) then pos 168 else h

-- `now.Add(-time.Duration(hours) * time.Hour)`; the product is one of 64-bit integers.
since_time : ℕ → ℤ → ℤ
unfolding ◌-ℤ◌ ◌*ℤ◌ wrap64
since_time now hours = pos now -ℤ wrap64 (hours *ℤ pos 3600000000000)

module _ {F : Type 0} where
  unfoldable pub emit :
      ℕ → EventKind → EventText → Option (TrialSpec F) → Option (Measurement F) → Agent F → Agent F
  emit now kind text trial result a = record a {
    events =
        if a.observed
        then a.events
          ++ record {
            kind = kind;
            text = text;
            trial = trial;
            result = result;
            elapsed = elapsed now a.spend;
          }
            ∷ []
        else a.events;
  }

  listed : Result (List AgentWorker) → Reply F × Bool
  listed (err e) = (no_list e, true)
  listed (ok []) = (no_workers, false)
  listed (ok (w ∷ ws)) = (workers (w ∷ ws), false)

  unfoldable pub call_list_workers : ℕ → Platform F → Agent F → (Reply F × Bool) × Agent F
  unfolding emit listed
  call_list_workers now p a =
      (listed p.list_workers, emit now lookup (plain "checking registered workers") none none a)

  -- The workload's dimensions are the campaign's.
  abbrev classifier_input : WorkloadConfig → ClassifyArgs F → ClassificationInput F
  classifier_input w args = record {
    prompt_tokens = w.prompt_tokens;
    output_tokens = w.output_tokens;
    concurrency = w.concurrency;
    structured_output = args.structured_output;
    tool_calls = args.tool_calls;
    shared_prefix_ratio = args.shared_prefix_ratio;
  }

  classified : Result (ClassificationResult F) → Reply F × Bool
  classified (err e) = (no_classification e, true)
  classified (ok r) = (classification r, false)

  unfoldable pub call_classify :
      ℕ → Platform F → Result (ClassifyArgs F) → Agent F → (Reply F × Bool) × Agent F
  unfolding emit classified
  call_classify now p (err e) a = ((bad_arguments e, true), a)
  call_classify now p (ok args) a = (
    classified (p.classify_workload (classifier_input a.campaign.workload args)),
    emit now lookup (plain "classifying workload shape") none none a,
  )

  found_past : String → String → ℤ → Result (List (Measurement F)) → Reply F × Bool
  found_past engine model hours (err e) = (no_history e, true)
  found_past engine model hours (ok []) = (nothing_past engine model hours, false)
  found_past engine model hours (ok (r ∷ rs)) = (past (r ∷ rs), false)

  unfoldable pub call_historical :
      ℕ → Platform F → Result HistoricalArgs → Agent F → (Reply F × Bool) × Agent F
  unfolding emit found_past since_time
  call_historical now p (err e) a = ((bad_arguments e, true), a)
  call_historical now p (ok args) a = (
    found_past args.engine a.campaign.model (hours_asked args.since_hours) (
        p.historical_results args.engine a.campaign.model
          (since_time now (hours_asked args.since_hours))),
    emit now lookup (plain (concat "looking up past " (concat args.engine " results"))) none none a,
  )
