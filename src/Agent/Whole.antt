-- ===== src/Agent/Whole.antt =====
-- What `New` establishes and a whole run keeps.
use mathlib.Core.Sum.{inr-injective}
use inferbolt.Base.{
  ℕ, String, ◌≡◌, refl, sym, ap, ◌∙◌, ◌⊎◌, inl, inr, Bool, true, false, Option, none, some, List,
  [], ◌∷◌, length, arith, if◌then◌else◌, ◌==◌, eqb, count_if,
}
use inferbolt.Base.Int.{pos, ◌≤ℤ◌}
use inferbolt.Base.Float64.{Float64}
use inferbolt.Agent.Budget.{Budget, validate, new_spend, BudgetError}
use inferbolt.Agent.Types.{Campaign, Trial, ok_trial}
use inferbolt.Agent.Tools.{Agent, emit}
use inferbolt.Agent.Conclude.{best_trial, usable, conclude, conclude_from_trials}
use inferbolt.Agent.Best.{IsUsable, Among, Member, best_trial-IsUsable, best_trial-Among}
use inferbolt.Agent.Run.{
  Answer, Ending, out_of_fuel, advised, silent, broken, turn_fuel, begin, settled, finish, run,
  new_agent, fresh_agent, budgeted, NewError, no_goal, no_model, no_profile, no_engines,
}
use inferbolt.Agent.Turns.{Lasting, turn_loop-lasts, dispatch_tool-SameTurn}
use inferbolt.Agent.Evidence.{MeasuredIn, Kept, Kept-Lasting, Sound-same}

validate_lem : (b : Budget) → validate b ≡ none → (pos 1 ≤ℤ b.max_trials) × (pos 1 ≤ℤ b.max_turns)
unfolding validate
validate_lem b h = ground arith

module _ {F : Type 0} where
  past :
      (b : Bool) (e : NewError) (r : NewError ⊎ Agent F) (a : Agent F)
      → (if b then inl e else r) ≡ inr a
      → r ≡ inr a
  past true e r a h = absurd (ground arith)
  past false e r a h = h

  budgeted_lem :
      (o : Option BudgetError) (b a : Agent F) → budgeted o b ≡ inr a → (a ≡ b) × (o ≡ none)
  unfolding budgeted
  budgeted_lem (some e) b a h = absurd (ground arith)
  budgeted_lem none b a h = (sym (inr-injective _ _ h), refl)

  -- The agent that `new_agent` makes, and the checks that it made.
  new_agent_lem :
      (c : Campaign) (planner : String) (observed : Bool) (now : ℕ) (a : Agent F)
      → new_agent c planner observed now ≡ inr a
      → (a ≡ fresh_agent c planner observed now) × (validate c.budget ≡ none)
  unfolding new_agent
  new_agent_lem c planner observed now a h = budgeted_lem (validate c.budget) _ a (
      past (eqb (length c.engines) 0) no_engines _ a (
        past (c.gpu_profile == "") no_profile _ a
          (past (c.model == "") no_model _ a (past (c.goal == "") no_goal _ a h))))

module _ {F : Type 0} ⦃f : Float64 F⦄ where
  usable-ok : (t : Trial F) → usable t ≡ true → ok_trial t ≡ true
  unfolding usable
  usable-ok t h = ground arith

  Member-MeasuredIn :
      (t : Trial F) (trials : List (Trial F))
      → ok_trial t ≡ true
      → Member t trials
      → MeasuredIn t.result trials
  Member-MeasuredIn t [] k h = absurd h
  Member-MeasuredIn t (x ∷ trials) k (inl e) = inl (rw e (k, refl))
  Member-MeasuredIn t (x ∷ trials) k (inr h) = inr (Member-MeasuredIn t trials k h)

  conclude-Kept :
      (now : ℕ) (mechanical : F → F → ℕ → String) (a : Agent F) (o : Option (Trial F))
      → IsUsable o
      → Among o a.trials
      → Kept a
      → Kept (settled (conclude now mechanical o a)).1
  unfolding conclude settled
  conclude-Kept now mechanical a none u m h = h
  conclude-Kept now mechanical a (some best) u m h =
      (Sound-same a a.spend _ _ refl refl h.0, Member-MeasuredIn best a.trials (usable-ok best u) m)

  finish-Kept :
      (now : ℕ) (mechanical : F → F → ℕ → String) (e : Ending) (a : Agent F)
      → Kept a
      → Kept (finish now mechanical (e, a)).1
  unfolding finish conclude_from_trials
  finish-Kept now mechanical out_of_fuel a h = h
  finish-Kept now mechanical advised a h = h
  finish-Kept now mechanical silent a h =
      conclude-Kept now mechanical a (best_trial a.trials) (best_trial-IsUsable a.trials)
        (best_trial-Among a.trials) h
  finish-Kept now mechanical (broken e) a h = h

  run-Kept :
      (started stopped : ℕ) (mechanical : F → F → ℕ → String) (planner : ℕ → Answer F) (a : Agent F)
      → Kept a
      → Kept (run started stopped mechanical planner a).1
  unfolding run
  run-Kept started stopped mechanical planner a h = finish-Kept stopped mechanical _ _ (
      turn_loop-lasts Kept Kept-Lasting (turn_fuel a) planner (begin started a)
        (Sound-same a _ a.events a.recommendation refl refl h.0, h.1))

  fresh_agent-Kept :
      (c : Campaign) (planner : String) (observed : Bool) (now : ℕ)
      → pos 1 ≤ℤ c.budget.max_trials
      → Kept {F = F} (fresh_agent c planner observed now)
  unfolding new_spend count_if
  fresh_agent-Kept c planner observed now le = (
    record {
      counted = refl;
      capped = ground arith;
      same_budget = refl;
      same_engines = refl;
      comparable = tt;
      no_repeats = tt;
    },
    tt,
  )

  Campaign-Lasting : (c : Campaign) → Lasting (λ (a : Agent F). a.campaign ≡ c)
  unfolding emit
  Campaign-Lasting c = record {
    on_tool = λ now later p t a h. (dispatch_tool-SameTurn now later p t a).0 ∙ h;
    on_event = λ now k s a h. h;
    on_spend = λ turns started usage a h. h;
  }

  conclude-campaign :
      (now : ℕ) (mechanical : F → F → ℕ → String) (a : Agent F) (o : Option (Trial F))
      → (settled (conclude now mechanical o a)).1.campaign ≡ a.campaign
  unfolding conclude settled emit
  conclude-campaign now mechanical a none = refl
  conclude-campaign now mechanical a (some best) = refl

  finish-campaign :
      (now : ℕ) (mechanical : F → F → ℕ → String) (e : Ending) (a : Agent F)
      → (finish now mechanical (e, a)).1.campaign ≡ a.campaign
  unfolding finish conclude_from_trials
  finish-campaign now mechanical out_of_fuel a = refl
  finish-campaign now mechanical advised a = refl
  finish-campaign now mechanical silent a = conclude-campaign now mechanical a (best_trial a.trials)
  finish-campaign now mechanical (broken e) a = refl

  run-campaign :
      (started stopped : ℕ) (mechanical : F → F → ℕ → String) (planner : ℕ → Answer F) (a : Agent F)
      → (run started stopped mechanical planner a).1.campaign ≡ a.campaign
  unfolding run
  run-campaign started stopped mechanical planner a =
      finish-campaign stopped mechanical _ _
      ∙ turn_loop-lasts (λ (b : Agent F). b.campaign ≡ a.campaign) (Campaign-Lasting a.campaign)
          (turn_fuel a) planner (begin started a) refl

  -- A run of an agent that `New` made keeps the campaign, stays within the trials of its budget
  -- and never measures one specification twice; all its trials have the campaign's model, profile
  -- and workload and one of its engines, and a measurement that its recommendation quotes is that
  -- of one of its completed trials.
  pub new_agent-run-Kept :
      (c : Campaign) (name : String) (observed : Bool) (now : ℕ) (a : Agent F) (started stopped : ℕ)
      (mechanical : F → F → ℕ → String) (planner : ℕ → Answer F)
      → new_agent c name observed now ≡ inr a
      → Kept (run started stopped mechanical planner a).1
        × ((run started stopped mechanical planner a).1.campaign ≡ c)
  new_agent-run-Kept c name observed now a started stopped mechanical planner h =
      let made = new_agent_lem c name observed now a h in
      (
        run-Kept started stopped mechanical planner a
            (rw (made.0) (fresh_agent-Kept c name observed now (validate_lem c.budget made.1).0)),
        run-campaign started stopped mechanical planner a ∙ ap (λ (b : Agent F). b.campaign) made.0,
      )
