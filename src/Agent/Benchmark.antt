-- ===== src/Agent/Benchmark.antt =====
-- internal/agent/tools.go: the calls that spend the budget and that conclude, and the dispatch.
use inferbolt.Base.{
  ℕ, suc, String, Bool, true, false, not, Option, none, some, List, [], ◌∷◌, ◌++◌, contains,
  if◌then◌else◌,
}
use inferbolt.Base.Int.{ℤ, pos, sub_ℕ}
use inferbolt.Base.Float64.{Float64}
use inferbolt.Base.Results.{Result, ok, err}
use inferbolt.Jobs.Types.{Measurement, EngineConfig}
use inferbolt.Agent.Budget.{Spend, Reason, trials_left, time_left, exhausted}
use inferbolt.Agent.Types.{
  Campaign, TrialSpec, Trial, plain, out_of_budget, trial_start, trial_done, trial_failed, warn,
  finished, ok_trial, same_spec,
}
use inferbolt.Agent.Tools.{
  Agent, BenchmarkArgs, RecommendArgs, Reply, unknown_tool, bad_arguments, not_available, refused,
  already_measured, benchmark_failed, measured, recorded, Platform, ToolCall, emit,
  call_list_workers, call_classify, call_historical,
}

-- The campaign's own model, profile and workload, with the engine and configuration of the call.
abbrev pub spec_for : {F : Type 0} → Campaign → String → EngineConfig F → TrialSpec F
spec_for c engine config = record {
  model = c.model;
  engine = engine;
  gpu_profile = c.gpu_profile;
  workload = c.workload;
  engine_config = config;
}

abbrev spent_one : Spend → Spend
spent_one s = record s { trials = suc s.trials }

module _ {F : Type 0} ⦃f : Float64 F⦄ where
  -- `jobs.Result{}`
  abbrev zero_measurement : Measurement F
  zero_measurement = record {
    job_id = "";
    run_id = "";
    engine = "";
    model = "";
    ttft_p50_ms = f.decimal 0 0;
    ttft_p99_ms = f.decimal 0 0;
    itl_ms = f.decimal 0 0;
    tok_per_s = f.decimal 0 0;
    gpu_mem_mb = pos 0;
    kv_cache_hit = f.decimal 0 0;
    error_rate = f.decimal 0 0;
    cost_per_mtok = f.decimal 0 0;
    config = "null";
  }

  unfoldable pub find_trial : TrialSpec F → List (Trial F) → Option (Trial F)
  find_trial spec [] = none
  find_trial spec (t ∷ trials) = if same_spec t.spec spec then some t else find_trial spec trials

  abbrev pub fresh_trial : TrialSpec F → Measurement F → String → ℤ → String → Trial F
  fresh_trial spec result e duration hypothesis = record {
    spec = spec;
    result = result;
    err = e;
    duration = duration;
    hypothesis = hypothesis;
    reused = false;
  }

  abbrev reused_trial : TrialSpec F → Trial F → String → Trial F
  reused_trial spec prior hypothesis = record {
    spec = spec;
    result = prior.result;
    err = prior.err;
    duration = pos 0;
    hypothesis = hypothesis;
    reused = true;
  }

  -- Behind `RunBenchmark`, which ended at `later`.
  unfoldable pub benchmarked :
      ℕ → ℕ → TrialSpec F → String → Agent F → Result (Measurement F) → (Reply F × Bool) × Agent F
  unfolding emit
  benchmarked now later spec hypothesis a (err e) =
      let a' : Agent F = record a {
        trials = a.trials ++ fresh_trial spec zero_measurement e (sub_ℕ later now) hypothesis ∷ [];
        spend = spent_one a.spend;
      } in
      (
        (benchmark_failed e (trials_left a'.spend) a.campaign.budget.max_trials, true),
        emit later trial_failed (plain e) (some spec) none a',
      )
  benchmarked now later spec hypothesis a (ok result) =
      let a' : Agent F = record a {
        trials = a.trials ++ fresh_trial spec result "" (sub_ℕ later now) hypothesis ∷ [];
        spend = spent_one a.spend;
      } in
      (
        (
          measured result (trials_left a'.spend) a.campaign.budget.max_trials
              (time_left later a'.spend),
          false,
        ),
        emit later trial_done (plain "") (some spec) (some result) a',
      )

  -- Re-running an identical configuration is answered from the earlier trial.
  unfoldable pub tried :
      ℕ
      → ℕ
      → Platform F
      → TrialSpec F
      → String
      → Agent F
      → Option (Trial F)
      → (Reply F × Bool) × Agent F
  unfolding benchmarked emit
  tried now later p spec hypothesis a (some prior) = (
    (already_measured prior.result, false),
    record a { trials = a.trials ++ reused_trial spec prior hypothesis ∷ [] },
  )
  tried now later p spec hypothesis a none =
      benchmarked now later spec hypothesis
        (emit now trial_start (plain hypothesis) (some spec) none a) (p.run_benchmark spec)

  unfoldable pub affordable :
      ℕ → ℕ → Platform F → BenchmarkArgs F → Agent F → Option Reason → (Reply F × Bool) × Agent F
  unfolding tried emit
  affordable now later p args a (some why) =
      ((refused why, true), emit now warn (out_of_budget why) none none a)
  affordable now later p args a none =
      let spec : TrialSpec F = spec_for a.campaign args.engine args.config in
      tried now later p spec args.hypothesis a (find_trial spec a.trials)

  unfoldable pub call_run_benchmark :
      ℕ → ℕ → Platform F → Result (BenchmarkArgs F) → Agent F → (Reply F × Bool) × Agent F
  unfolding affordable
  call_run_benchmark now later p (err e) a = ((bad_arguments e, true), a)
  call_run_benchmark now later p (ok args) a =
      if not (contains a.allowed_engines args.engine)
      then ((not_available args.engine a.campaign.engines, true), a)
      else affordable now later p args a (exhausted now a.spend)

  -- `ok && t.OK()`
  unfoldable pub measured_by : Option (Trial F) → Option (Measurement F)
  measured_by none = none
  measured_by (some t) = if ok_trial t then some t.result else none

  unfoldable pub call_recommend :
      ℕ → Result (RecommendArgs F) → Agent F → (Reply F × Bool) × Agent F
  unfolding emit measured_by
  call_recommend now (err e) a = ((bad_arguments e, true), a)
  call_recommend now (ok args) a = (
    (recorded, false),
    emit now finished (plain args.reasoning) none none (record a {
      recommendation = some (record {
        engine = args.engine;
        engine_config = args.config;
        reasoning = args.reasoning;
        runner_up = args.runner_up;
        confidence = args.confidence;
        caveats = args.caveats;
        measured = measured_by (find_trial (spec_for a.campaign args.engine args.config) a.trials);
        fallback = false;
      });
    }),
  )

  unfoldable pub dispatch_tool :
      ℕ → ℕ → Platform F → ToolCall F → Agent F → (Reply F × Bool) × Agent F
  dispatch_tool now later p ToolCall.list_workers a = call_list_workers now p a
  dispatch_tool now later p (ToolCall.classify_workload args) a = call_classify now p args a
  dispatch_tool now later p (ToolCall.historical_results args) a = call_historical now p args a
  dispatch_tool now later p (ToolCall.run_benchmark args) a = call_run_benchmark now later p args a
  dispatch_tool now later p (ToolCall.submit_recommendation args) a = call_recommend now args a
  dispatch_tool now later p (ToolCall.other name) a = ((unknown_tool name, true), a)
