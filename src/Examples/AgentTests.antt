-- ===== src/Examples/AgentTests.antt =====
-- The theorems on the agent at concrete inputs: a campaign of one trial, and one that is given up.
use inferbolt.Base.{◌≡◌, ℕ, String, refl, true, List, [], ◌∷◌, All, ltb, arith, if◌then◌else◌}
use inferbolt.Base.Int.{pos, ◌≤ℤ◌}
use inferbolt.Base.Float64.{Micros, micros_float, Micros-IsOrdered}
use inferbolt.Base.Results.{ok, err}
use inferbolt.Agent.Budget.{Budget, validate, no_usage, new_spend}
use inferbolt.Agent.Types.{Campaign, Trial}
use inferbolt.Agent.Tools.{Agent, Platform, ToolCall}
use inferbolt.Agent.Benchmark.{spec_for, fresh_trial}
use inferbolt.Agent.Conclude.{best_trial}
use inferbolt.Agent.Best.{IsUsable, Among, Undercut, best_trial_lem}
use inferbolt.Agent.Run.{
  new_agent, fresh_agent, Answer, answered, text_block, tool_use_block, tool_use, other_reason, run,
}
use inferbolt.Agent.Reports.{Answers, run_ends}
use inferbolt.Agent.Evidence.{Kept}
use inferbolt.Agent.Whole.{new_agent-run-Kept}
use inferbolt.Examples.Data.{workload, config, measurement}

abbrev budget : Budget
budget = record { max_trials = pos 1; max_duration = pos 1000; max_turns = pos 3 }

abbrev campaign : Campaign
campaign = record {
  goal = "fast";
  model = "m";
  gpu_profile = "A100";
  workload = workload;
  engines = "vllm" ∷ [];
  budget = budget;
}

abbrev agent : Agent Micros
agent = fresh_agent campaign "planner" true 0

abbrev platform : Platform Micros
platform = record {
  list_workers = ok [];
  classify_workload = λ i. err "none";
  run_benchmark = λ s. ok measurement;
  historical_results = λ e m t. ok [];
}

abbrev benchmark : ToolCall Micros
benchmark =
    ToolCall.run_benchmark (ok (record { engine = "vllm"; hypothesis = "h"; config = config }))

-- Two benchmarks, of which the budget allows one, and then silence.
abbrev planner : ℕ → Answer Micros
planner turn =
    if ltb turn 2
    then answered (record {
      used = no_usage;
      stop = tool_use;
      content = text_block 1 "try" ∷ tool_use_block 2 3 platform benchmark ∷ [];
    })
    else answered (record { used = no_usage; stop = other_reason; content = [] })

abbrev words : Micros → Micros → ℕ → String
words cost speed n = "cheapest"

run_ends_example :
    Answers (run 0 9 words planner agent).0 (run 0 9 words planner agent).1
    × (pos (run 0 9 words planner agent).1.spend.turns ≤ℤ pos 3)
unfolding new_spend
run_ends_example = run_ends 0 9 words planner agent refl (ground arith)

new_agent-run-Kept_example :
    Kept (run 0 9 words planner agent).1 × ((run 0 9 words planner agent).1.campaign ≡ campaign)
unfolding new_agent validate
new_agent-run-Kept_example =
    new_agent-run-Kept campaign "planner" true 0 agent 0 9 words planner refl

abbrev trials : List (Trial Micros)
trials = fresh_trial (spec_for campaign "vllm" config) measurement "" (pos 1) "h" ∷ []

best_trial_lem_example :
    IsUsable (best_trial trials)
    × Among (best_trial trials) trials
    × All (Undercut (best_trial trials)) trials
best_trial_lem_example = best_trial_lem Micros-IsOrdered trials
