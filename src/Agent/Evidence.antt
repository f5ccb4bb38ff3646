-- ===== src/Agent/Evidence.antt =====
-- What a whole run keeps: its budget, and that a quoted measurement was made.
use inferbolt.Base.{
  ℕ, String, ◌≡◌, refl, ◌∙◌, ◌⊎◌, inl, inr, true, Option, none, some, List, [], ◌∷◌, ◌++◌,
  Bool-cases, contains,
}
use inferbolt.Base.Float64.{Float64}
use inferbolt.Base.Results.{Result, ok, err}
use inferbolt.Jobs.Types.{Measurement}
use inferbolt.Agent.Budget.{Spend, Reason, exhausted}
use inferbolt.Agent.Types.{Trial, TrialSpec, Advice, ok_trial, same_spec}
use inferbolt.Agent.Tools.{
  Agent, BenchmarkArgs, RecommendArgs, Platform, ToolCall, emit, call_list_workers, call_classify,
  call_historical,
}
use inferbolt.Agent.Benchmark.{
  find_trial, measured_by, benchmarked, tried, affordable, call_run_benchmark, call_recommend,
  dispatch_tool, spec_for,
}
use inferbolt.Agent.Limits.{Sound, dispatch_tool-Sound}
use inferbolt.Agent.Turns.{Lasting}

module _ {F : Type 0} ⦃f : Float64 F⦄ where
  -- A trial that completed has the measurement.
  abbrev pub MeasuredIn : Measurement F → List (Trial F) → Type 0
  MeasuredIn m [] = ⊥
  MeasuredIn m (t ∷ trials) = ((ok_trial t ≡ true) × (t.result ≡ m)) ⊎ MeasuredIn m trials

  abbrev Quotes : Option (Measurement F) → List (Trial F) → Type 0
  Quotes none trials = Unit
  Quotes (some m) trials = MeasuredIn m trials

  abbrev Backs : Option (Advice F) → List (Trial F) → Type 0
  Backs none trials = Unit
  Backs (some advice) trials = Quotes advice.measured trials

  abbrev Backed : Agent F → Type 0
  Backed a = Backs a.recommendation a.trials

  MeasuredIn-append :
      (m : Measurement F) (trials new : List (Trial F))
      → MeasuredIn m trials
      → MeasuredIn m (trials ++ new)
  MeasuredIn-append m [] new h = absurd h
  MeasuredIn-append m (t ∷ trials) new (inl h) = inl h
  MeasuredIn-append m (t ∷ trials) new (inr h) = inr (MeasuredIn-append m trials new h)

  Quotes-append :
      (o : Option (Measurement F)) (trials new : List (Trial F))
      → Quotes o trials
      → Quotes o (trials ++ new)
  Quotes-append none trials new h = tt
  Quotes-append (some m) trials new h = MeasuredIn-append m trials new h

  Backs-append :
      (o : Option (Advice F)) (trials new : List (Trial F))
      → Backs o trials
      → Backs o (trials ++ new)
  Backs-append none trials new h = tt
  Backs-append (some advice) trials new h = Quotes-append advice.measured trials new h

  Quotes-tail :
      (o : Option (Measurement F)) (t : Trial F) (trials : List (Trial F))
      → Quotes o trials
      → Quotes o (t ∷ trials)
  Quotes-tail none t trials h = tt
  Quotes-tail (some m) t trials h = inr h

  measured_by_head :
      (t : Trial F) (trials : List (Trial F)) → Quotes (measured_by (some t)) (t ∷ trials)
  unfolding measured_by
  measured_by_head t trials = elim (Bool-cases (ok_trial t)) [
    | inl h ↦ rw h (inl (h, refl))
    | inr h ↦ rw h tt
  ]

  measured_by-Quotes :
      (spec : TrialSpec F) (trials : List (Trial F))
      → Quotes (measured_by (find_trial spec trials)) trials
  unfolding find_trial measured_by
  measured_by-Quotes spec [] = tt
  measured_by-Quotes spec (t ∷ trials) = elim (Bool-cases (same_spec t.spec spec)) [
    | inl h ↦ rw h (measured_by_head t trials)
    | inr h ↦ rw h (Quotes-tail _ t trials (measured_by-Quotes spec trials))
  ]

  benchmarked-Backed :
      (now later : ℕ) (spec : TrialSpec F) (hypothesis : String) (a : Agent F)
      (r : Result (Measurement F))
      → Backed a
      → Backed (benchmarked now later spec hypothesis a r).1
  unfolding benchmarked
  benchmarked-Backed now later spec hypothesis a (err e) h =
      Backs-append a.recommendation a.trials _ h
  benchmarked-Backed now later spec hypothesis a (ok m) h =
      Backs-append a.recommendation a.trials _ h

  tried-Backed :
      (now later : ℕ) (p : Platform F) (spec : TrialSpec F) (hypothesis : String) (a : Agent F)
      (o : Option (Trial F))
      → Backed a
      → Backed (tried now later p spec hypothesis a o).1
  unfolding tried
  tried-Backed now later p spec hypothesis a (some prior) h =
      Backs-append a.recommendation a.trials _ h
  tried-Backed now later p spec hypothesis a none h =
      benchmarked-Backed now later spec hypothesis _ (p.run_benchmark spec) h

  affordable-Backed :
      (now later : ℕ) (p : Platform F) (args : BenchmarkArgs F) (a : Agent F) (o : Option Reason)
      → Backed a
      → Backed (affordable now later p args a o).1
  unfolding affordable
  affordable-Backed now later p args a (some why) h = h
  affordable-Backed now later p args a none h =
      tried-Backed now later p (spec_for a.campaign args.engine args.config) args.hypothesis a _ h

  call_run_benchmark-Backed :
      (now later : ℕ) (p : Platform F) (r : Result (BenchmarkArgs F)) (a : Agent F)
      → Backed a
      → Backed (call_run_benchmark now later p r a).1
  unfolding call_run_benchmark
  call_run_benchmark-Backed now later p (err e) a h = h
  call_run_benchmark-Backed now later p (ok args) a h =
      elim (Bool-cases (contains a.allowed_engines args.engine)) [
        | inl hit ↦ rw hit (affordable-Backed now later p args a (exhausted now a.spend) h)
        | inr miss ↦ rw miss h
      ]

  call_recommend-Backed :
      (now : ℕ) (r : Result (RecommendArgs F)) (a : Agent F)
      → Backed a
      → Backed (call_recommend now r a).1
  unfolding call_recommend
  call_recommend-Backed now (err e) a h = h
  call_recommend-Backed now (ok args) a h =
      measured_by-Quotes (spec_for a.campaign args.engine args.config) a.trials

  dispatch_tool-Backed :
      (now later : ℕ) (p : Platform F) (c : ToolCall F) (a : Agent F)
      → Backed a
      → Backed (dispatch_tool now later p c a).1
  unfolding dispatch_tool call_list_workers call_classify call_historical
  dispatch_tool-Backed now later p ToolCall.list_workers a h = h
  dispatch_tool-Backed now later p (ToolCall.classify_workload (err e)) a h = h
  dispatch_tool-Backed now later p (ToolCall.classify_workload (ok x)) a h = h
  dispatch_tool-Backed now later p (ToolCall.historical_results (err e)) a h = h
  dispatch_tool-Backed now later p (ToolCall.historical_results (ok x)) a h = h
  dispatch_tool-Backed now later p (ToolCall.run_benchmark r) a h =
      call_run_benchmark-Backed now later p r a h
  dispatch_tool-Backed now later p (ToolCall.submit_recommendation r) a h =
      call_recommend-Backed now r a h
  dispatch_tool-Backed now later p (ToolCall.other name) a h = h

  -- Both at once, and what `New` establishes.
  abbrev pub Kept : Agent F → Type 0
  Kept a = Sound a × Backed a

  pub Sound-same :
      (a : Agent F) (s : Spend) (events : List _) (advice : Option (Advice F))
      → s.budget ≡ a.spend.budget
      → s.trials ≡ a.spend.trials
      → Sound a
      → Sound (record a { spend = s; events = events; recommendation = advice })
  Sound-same a s events advice b t h = record {
    counted = t ∙ h.counted;
    capped = rw t (h.capped);
    same_budget = b ∙ h.same_budget;
    same_engines = h.same_engines;
    comparable = h.comparable;
    no_repeats = h.no_repeats;
  }

  pub Kept-Lasting : Lasting Kept
  unfolding emit
  Kept-Lasting = record {
    on_tool = λ now later p c a h.
        (dispatch_tool-Sound now later p c a h.0, dispatch_tool-Backed now later p c a h.1);
    on_event = λ now k s a h. (Sound-same a a.spend _ a.recommendation refl refl h.0, h.1);
    on_spend =
        λ turns started usage a h. (Sound-same a _ a.events a.recommendation refl refl h.0, h.1);
  }
