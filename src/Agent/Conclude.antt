-- ===== src/Agent/Conclude.antt =====
-- internal/agent/agent.go: the best trial, and the end of a campaign without the planner's answer.
use inferbolt.Base.{
  ℕ, String, Bool, true, false, ◌&&◌, ◌||◌, not, Option, none, some, List, [], ◌∷◌, length,
  if◌then◌else◌,
}
use inferbolt.Base.Float64.{Float64}
use inferbolt.Agent.Budget.{elapsed}
use inferbolt.Agent.Types.{Trial, Advice, Report, plain, warn, ok_trial}
use inferbolt.Agent.Tools.{Agent, emit}

module _ {F : Type 0} ⦃f : Float64 F⦄ where
  -- The negation of the test that skips a trial.
  unfoldable pub usable : Trial F → Bool
  usable t = not (
      not (ok_trial t)
      || (f.lt (f.decimal 0 0) t.result.error_rate || f.le t.result.cost_per_mtok (f.decimal 0 0)))

  -- `!found || t.Result.CostPerMTok < best.Result.CostPerMTok`
  unfoldable pub cheaper : Trial F → Option (Trial F) → Bool
  cheaper t none = true
  cheaper t (some best) = f.lt t.result.cost_per_mtok best.result.cost_per_mtok

  unfoldable pub better : Trial F → Option (Trial F) → Option (Trial F)
  better t best = if usable t && cheaper t best then some t else best

  unfoldable pub best_of : Option (Trial F) → List (Trial F) → Option (Trial F)
  best_of best [] = best
  best_of best (t ∷ trials) = best_of (better t best) trials

  unfoldable pub best_trial : List (Trial F) → Option (Trial F)
  best_trial trials = best_of none trials

  -- `mechanical` is how `fmt.Sprintf` writes the cost, the throughput and the number of trials into
  -- the reasoning.
  abbrev salvaged : (F → F → ℕ → String) → ℕ → Trial F → Advice F
  salvaged mechanical n best = record {
    engine = best.spec.engine;
    engine_config = best.spec.engine_config;
    reasoning = mechanical best.result.cost_per_mtok best.result.tok_per_s n;
    runner_up = "";
    confidence = "low";
    caveats = "Not the planner's judgement. The campaign hit its budget or turn limit first.";
    measured = some best.result;
    fallback = true;
  }

  unfoldable pub conclude : ℕ → (F → F → ℕ → String) → Option (Trial F) → Agent F → Bool × Agent F
  unfolding emit
  conclude now mechanical none a = (false, a)
  conclude now mechanical (some best) a = (
    true,
    record (emit now warn
        (plain "planner ended without a recommendation; reporting the best measured trial") none
        none a) { recommendation = some (salvaged mechanical (length a.trials) best) },
  )

  -- `false` is `ErrNoRecommendation`.
  unfoldable pub conclude_from_trials : ℕ → (F → F → ℕ → String) → Agent F → Bool × Agent F
  unfolding conclude best_trial
  conclude_from_trials now mechanical a = conclude now mechanical (best_trial a.trials) a

unfoldable pub report : {F : Type 0} → ℕ → Agent F → Report F
report now a = record {
  campaign = a.campaign;
  recommendation = a.recommendation;
  trials = a.trials;
  usage = record a.spend.usage { turns = a.spend.turns };
  planner_model = a.model;
  elapsed = elapsed now a.spend;
}
