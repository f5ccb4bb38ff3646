-- ===== src/Agent/Limits.antt =====
-- What any sequence of tool calls keeps: the budget, and that trials can be compared.
use mathlib.Core.List.{append-nil, append_assoc}
use inferbolt.Base.{
  ℕ, suc, String, ◌≡◌, refl, ◌⊎◌, inl, inr, Bool, true, false, Option, none, some, List, [], ◌∷◌,
  ◌++◌, arith, All, All-append, count_if, count_if-append, contains, if◌then◌else◌, subst,
  Bool-cases, not,
}
use inferbolt.Base.Int.{pos, ◌≤ℤ◌}
use inferbolt.Base.Float64.{Float64}
use inferbolt.Base.Results.{Result, ok, err}
use inferbolt.Jobs.Types.{Measurement}
use inferbolt.Agent.Budget.{Budget, Spend, Reason, exhausted}
use inferbolt.Agent.Types.{Campaign, TrialSpec, Trial, Advice, Event, same_spec}
use inferbolt.Agent.Tools.{
  Agent, BenchmarkArgs, Platform, ToolCall, call_list_workers, call_classify, call_historical,
}
use inferbolt.Agent.Benchmark.{
  spec_for, find_trial, benchmarked, tried, affordable, call_run_benchmark, call_recommend,
  dispatch_tool,
}

abbrev is_fresh : {F : Type 0} → Trial F → Bool
is_fresh t = not t.reused

within : (now : ℕ) (s : Spend) → exhausted now s ≡ none → pos (suc s.trials) ≤ℤ s.budget.max_trials
unfolding exhausted
within now s h = ground arith

module _ {F : Type 0} ⦃f : Float64 F⦄ where
  -- No earlier trial has the specification.
  abbrev Unseen : TrialSpec F → List (Trial F) → Type 0
  Unseen spec [] = Unit
  Unseen spec (t ∷ trials) = (same_spec t.spec spec ≡ false) × Unseen spec trials

  -- Each trial that was measured differs from all that stand before it.
  abbrev NoRepeats : List (Trial F) → List (Trial F) → Type 0
  NoRepeats before [] = Unit
  NoRepeats before (t ∷ trials) =
      ((t.reused ≡ true) ⊎ Unseen t.spec before) × NoRepeats (before ++ t ∷ []) trials

  -- What the campaign fixes of a trial.
  abbrev Fixed : Campaign → TrialSpec F → Type 0
  Fixed c spec =
      (spec.model ≡ c.model)
      × (spec.gpu_profile ≡ c.gpu_profile)
      × (spec.workload ≡ c.workload)
      × (contains c.engines spec.engine ≡ true)

  abbrev Comparable : Campaign → Trial F → Type 0
  Comparable c t = Fixed c t.spec

  pub record Sound (a : Agent F) : Type 0 where
    pub counted : a.spend.trials ≡ count_if is_fresh a.trials
    pub capped : pos a.spend.trials ≤ℤ a.campaign.budget.max_trials
    pub same_budget : a.spend.budget ≡ a.campaign.budget
    pub same_engines : a.allowed_engines ≡ a.campaign.engines
    pub comparable : All (Comparable a.campaign) a.trials
    pub no_repeats : NoRepeats [] a.trials

  find_trial-Unseen :
      (spec : TrialSpec F) (trials : List (Trial F))
      → find_trial spec trials ≡ none
      → Unseen spec trials
  unfolding find_trial
  find_trial-Unseen spec [] h = tt
  find_trial-Unseen spec (t ∷ trials) h = ground (arith, find_trial-Unseen spec trials)

  NoRepeats-append :
      (before trials : List (Trial F)) (t : Trial F)
      → NoRepeats before trials
      → (t.reused ≡ true) ⊎ Unseen t.spec (before ++ trials)
      → NoRepeats before (trials ++ t ∷ [])
  NoRepeats-append before [] t h n = (rw append-nil at n, tt)
  NoRepeats-append before (x ∷ trials) t h n =
      (h.0, NoRepeats-append (before ++ x ∷ []) trials t h.1 (rw append_assoc n))

  count_one : (t : Trial F) → count_if is_fresh (t ∷ []) ≡ (if t.reused then 0 else 1)
  unfolding count_if
  count_one t = ground arith

  -- Another trial, measured or reused, that the campaign allows.
  Sound-grow :
      (a : Agent F) (t : Trial F) (n : ℕ)
      → Sound a
      → Comparable a.campaign t
      → (t.reused ≡ true) ⊎ Unseen t.spec a.trials
      → n ≡ (if t.reused then a.spend.trials else suc a.spend.trials)
      → pos n ≤ℤ a.campaign.budget.max_trials
      → Sound (record a { trials = a.trials ++ t ∷ []; spend = record a.spend { trials = n } })
  Sound-grow a t n s c u e le = record {
    counted = ground (arith, e, s.counted, count_one t, count_if-append is_fresh a.trials (t ∷ []));
    capped = le;
    same_budget = s.same_budget;
    same_engines = s.same_engines;
    comparable = All-append (Comparable a.campaign) a.trials (t ∷ []) s.comparable (c, tt);
    no_repeats = NoRepeats-append [] a.trials t s.no_repeats u;
  }

  -- Events and recommendations do not matter.
  Sound-keep :
      (a : Agent F) (events : List (Event F)) (advice : Option (Advice F))
      → Sound a
      → Sound (record a { events = events; recommendation = advice })
  Sound-keep a events advice s = record {
    counted = s.counted;
    capped = s.capped;
    same_budget = s.same_budget;
    same_engines = s.same_engines;
    comparable = s.comparable;
    no_repeats = s.no_repeats;
  }

  room :
      (now : ℕ) (a : Agent F)
      → Sound a
      → exhausted now a.spend ≡ none
      → pos (suc a.spend.trials) ≤ℤ a.campaign.budget.max_trials
  room now a s h =
      subst (λ (b : Budget). pos (suc a.spend.trials) ≤ℤ b.max_trials) s.same_budget
        (within now a.spend h)

  benchmarked-Sound :
      (now later : ℕ) (spec : TrialSpec F) (hypothesis : String) (a : Agent F)
      (r : Result (Measurement F))
      → Sound a
      → Fixed a.campaign spec
      → Unseen spec a.trials
      → pos (suc a.spend.trials) ≤ℤ a.campaign.budget.max_trials
      → Sound (benchmarked now later spec hypothesis a r).1
  unfolding benchmarked
  benchmarked-Sound now later spec hypothesis a (err e) s c u le =
      Sound-keep _ _ _ (Sound-grow a _ (suc a.spend.trials) s c (inr u) refl le)
  benchmarked-Sound now later spec hypothesis a (ok result) s c u le =
      Sound-keep _ _ _ (Sound-grow a _ (suc a.spend.trials) s c (inr u) refl le)

  tried-Sound :
      (now later : ℕ) (p : Platform F) (spec : TrialSpec F) (hypothesis : String) (a : Agent F)
      (o : Option (Trial F))
      → find_trial spec a.trials ≡ o
      → Sound a
      → Fixed a.campaign spec
      → pos (suc a.spend.trials) ≤ℤ a.campaign.budget.max_trials
      → Sound (tried now later p spec hypothesis a o).1
  unfolding tried
  tried-Sound now later p spec hypothesis a (some prior) e s c le =
      Sound-grow a _ a.spend.trials s c (inl refl) refl s.capped
  tried-Sound now later p spec hypothesis a none e s c le =
      benchmarked-Sound now later spec hypothesis _ (p.run_benchmark spec)
        (Sound-keep a _ a.recommendation s) c (find_trial-Unseen spec a.trials e) le

  affordable-Sound :
      (now later : ℕ) (p : Platform F) (args : BenchmarkArgs F) (a : Agent F) (o : Option Reason)
      → exhausted now a.spend ≡ o
      → contains a.allowed_engines args.engine ≡ true
      → Sound a
      → Sound (affordable now later p args a o).1
  unfolding affordable
  affordable-Sound now later p args a (some why) e k s = Sound-keep a _ a.recommendation s
  affordable-Sound now later p args a none e k s =
      tried-Sound now later p (spec_for a.campaign args.engine args.config) args.hypothesis a _ refl
        s (refl, refl, refl, rw s.same_engines at k) (room now a s e)

  call_run_benchmark-Sound :
      (now later : ℕ) (p : Platform F) (r : Result (BenchmarkArgs F)) (a : Agent F)
      → Sound a
      → Sound (call_run_benchmark now later p r a).1
  unfolding call_run_benchmark
  call_run_benchmark-Sound now later p (err e) a s = s
  call_run_benchmark-Sound now later p (ok args) a s =
      elim (Bool-cases (contains a.allowed_engines args.engine)) [
        | inl hit ↦ rw hit (affordable-Sound now later p args a (exhausted now a.spend) refl hit s)
        | inr miss ↦ rw miss s
      ]

  -- A tool call keeps these limits, whatever the planner calls and the platform answers.
  pub dispatch_tool-Sound :
      (now later : ℕ) (p : Platform F) (c : ToolCall F) (a : Agent F)
      → Sound a
      → Sound (dispatch_tool now later p c a).1
  unfolding dispatch_tool call_list_workers call_classify call_historical call_recommend
  dispatch_tool-Sound now later p ToolCall.list_workers a s = Sound-keep a _ a.recommendation s
  dispatch_tool-Sound now later p (ToolCall.classify_workload (err e)) a s = s
  dispatch_tool-Sound now later p (ToolCall.classify_workload (ok x)) a s =
      Sound-keep a _ a.recommendation s
  dispatch_tool-Sound now later p (ToolCall.historical_results (err e)) a s = s
  dispatch_tool-Sound now later p (ToolCall.historical_results (ok x)) a s =
      Sound-keep a _ a.recommendation s
  dispatch_tool-Sound now later p (ToolCall.run_benchmark r) a s =
      call_run_benchmark-Sound now later p r a s
  dispatch_tool-Sound now later p (ToolCall.submit_recommendation (err e)) a s = s
  dispatch_tool-Sound now later p (ToolCall.submit_recommendation (ok x)) a s = Sound-keep a _ _ s
  dispatch_tool-Sound now later p (ToolCall.other name) a s = s
