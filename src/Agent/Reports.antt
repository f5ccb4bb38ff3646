-- ===== src/Agent/Reports.antt =====
-- How `Run` ends.
use inferbolt.Base.{
  ℕ, zero, suc, ◌+◌, ◌<◌, String, ◌≡◌, refl, ◌∙◌, inl, inr, true, Option, none, some, arith, ap,
  Bool-cases, is_some,
}
use inferbolt.Base.Int.{ℤ, pos, ◌≤ℤ◌, pos_part, ltb_ℤ}
use inferbolt.Base.Float64.{Float64}
use inferbolt.Agent.Types.{Campaign, Trial, Advice}
use inferbolt.Agent.Tools.{Agent}
use inferbolt.Agent.Conclude.{best_trial, conclude, conclude_from_trials}
use inferbolt.Agent.Run.{
  StopReason, Answer, Ending, Next, ended, another, read_blocks, after_blocks, next_turn,
  with_usage, begin, read_response, take_answer, one_turn, turn_loop, continued, turn_fuel,
  out_of_fuel, advised, silent, broken, failed, answered, refusal, tool_use, other_reason, RunError,
  planner_turn, declined, no_recommendation, settled, finish, run,
}
use inferbolt.Agent.Turns.{SameTurn, SameTurn-trans, read_blocks-SameTurn}

module _ {F : Type 0} ⦃f : Float64 F⦄ where
  -- A loop that ran out of fuel, or that was advised without a recommendation, does not occur.
  abbrev Ends : Ending → Option (Advice F) → Type 0
  Ends out_of_fuel o = ⊥
  Ends advised none = ⊥
  Ends advised (some advice) = Unit
  Ends silent o = Unit
  Ends (broken no_recommendation) o = ⊥
  Ends (broken (planner_turn n e)) o = Unit
  Ends (broken (declined c e)) o = Unit

  abbrev Proper : Agent F → Next F → Type 0
  Proper a (ended e a') = Ends e a'.recommendation × SameTurn a a'
  Proper a (another a') = SameTurn a a'

  after_blocks-Proper :
      (stop : StopReason) (o : Option (Advice F)) (a b : Agent F)
      → b.recommendation ≡ o
      → SameTurn a b
      → Proper a (after_blocks stop o b)
  unfolding after_blocks
  after_blocks-Proper stop (some advice) a b e h = (rw e tt, h)
  after_blocks-Proper tool_use none a b e h = h
  after_blocks-Proper other_reason none a b e h = (tt, h)
  after_blocks-Proper (refusal c x) none a b e h = (tt, h)

  take_answer-Proper : (answer : Answer F) (a : Agent F) → Proper a (take_answer answer a)
  unfolding take_answer read_response
  take_answer-Proper (failed e) a = (tt, (refl, refl))
  take_answer-Proper (answered r) a = go r.stop (with_usage r.used a) (refl, refl)
    where
      go :
          (stop : StopReason) (b : Agent F)
          → SameTurn a b
          → Proper a (read_response stop r.content b)
      go (refusal c x) b h = (tt, h)
      go tool_use b h =
          after_blocks-Proper tool_use _ a _ refl
            (SameTurn-trans a b (read_blocks r.content b) h (read_blocks-SameTurn r.content b))
      go other_reason b h =
          after_blocks-Proper other_reason _ a _ refl
            (SameTurn-trans a b (read_blocks r.content b) h (read_blocks-SameTurn r.content b))

  -- The loop's result, from turns within the budget and with fuel enough.
  abbrev Within : ℤ → Ending × Agent F → Type 0
  Within m (e, a) = Ends e a.recommendation × (pos a.spend.turns ≤ℤ m)

  continued-Within :
      (m : ℤ) (rest : Agent F → Ending × Agent F) (a : Agent F) (n : Next F)
      → pos a.spend.turns ≤ℤ m
      → ((b : Agent F) → SameTurn a b → Within m (rest b))
      → Proper a n
      → Within m (continued rest n)
  unfolding continued
  continued-Within m rest a (ended e b) le r h = (h.0, rw (h.1.1) le)
  continued-Within m rest a (another b) le r h = r b h

  turn_loop-Within :
      (m : ℤ) (fuel : ℕ) (planner : ℕ → Answer F) (a : Agent F)
      → a.campaign.budget.max_turns ≡ m
      → pos_part m < a.spend.turns + fuel
      → pos a.spend.turns ≤ℤ m
      → Within m (turn_loop fuel planner a)
  unfolding turn_loop one_turn
  turn_loop-Within m zero planner a e lt le = absurd (ground arith)
  turn_loop-Within m (suc fuel) planner a e lt le =
      elim (Bool-cases (ltb_ℤ (pos a.spend.turns) a.campaign.budget.max_turns)) [
        | inl h ↦ rw h (
            continued-Within m (turn_loop fuel planner) (next_turn a)
              (take_answer (planner a.spend.turns) (next_turn a)) (ground (arith, e, h))
              (λ b k.
                turn_loop-Within m fuel planner b
                  (ap (λ (c : Campaign). c.budget.max_turns) k.0 ∙ e) (ground (arith, lt, k.1))
                  (ground (arith, e, h, k.1)))
              (take_answer-Proper (planner a.spend.turns) (next_turn a)))
        | inr h ↦ rw h (tt, le)
      ]

  -- What an end of the run says of the agent it leaves.
  abbrev pub Answers : Option RunError → Agent F → Type 0
  Answers none a = is_some a.recommendation ≡ true
  Answers (some no_recommendation) a = best_trial a.trials ≡ none
  Answers (some (planner_turn n e)) a = Unit
  Answers (some (declined c e)) a = Unit

  conclude-Answers :
      (now : ℕ) (mechanical : F → F → ℕ → String) (a : Agent F) (o : Option (Trial F))
      → best_trial a.trials ≡ o
      → Answers (settled (conclude now mechanical o a)).0 (settled (conclude now mechanical o a)).1
  unfolding conclude settled
  conclude-Answers now mechanical a none e = e
  conclude-Answers now mechanical a (some best) e = refl

  conclude-turns :
      (now : ℕ) (mechanical : F → F → ℕ → String) (a : Agent F) (o : Option (Trial F))
      → (settled (conclude now mechanical o a)).1.spend.turns ≡ a.spend.turns
  unfolding conclude settled
  conclude-turns now mechanical a none = refl
  conclude-turns now mechanical a (some best) = refl

  finish-Answers :
      (now : ℕ) (mechanical : F → F → ℕ → String) (m : ℤ) (e : Ending) (a : Agent F)
      → Within m (e, a)
      → Answers (finish now mechanical (e, a)).0 (finish now mechanical (e, a)).1
        × (pos (finish now mechanical (e, a)).1.spend.turns ≤ℤ m)
  unfolding finish conclude_from_trials
  finish-Answers now mechanical m out_of_fuel a h = absurd h.0
  finish-Answers now mechanical m advised a h = (advice_given a.recommendation h.0, h.1)
    where
      advice_given : (o : Option (Advice F)) → Ends advised o → is_some o ≡ true
      advice_given none k = absurd k
      advice_given (some advice) k = refl
  finish-Answers now mechanical m silent a h = (
    conclude-Answers now mechanical a (best_trial a.trials) refl,
    rw (conclude-turns now mechanical a (best_trial a.trials)) (h.1),
  )
  finish-Answers now mechanical m (broken no_recommendation) a h = absurd h.0
  finish-Answers now mechanical m (broken (planner_turn n e)) a h = (tt, h.1)
  finish-Answers now mechanical m (broken (declined c e)) a h = (tt, h.1)

  -- A run of an agent that has taken no turn, under a budget of at least one turn, ends within the
  -- turns of the budget, whatever the planner answers; without an error it has a recommendation,
  -- and it reports that there is none only when no trial is usable.
  pub run_ends :
      (started stopped : ℕ) (mechanical : F → F → ℕ → String) (planner : ℕ → Answer F) (a : Agent F)
      → a.spend.turns ≡ 0
      → pos 1 ≤ℤ a.campaign.budget.max_turns
      → Answers
          (run started stopped mechanical planner a).0
          (run started stopped mechanical planner a).1
        × (pos (run started stopped mechanical planner a).1.spend.turns
            ≤ℤ a.campaign.budget.max_turns)
  unfolding run turn_fuel
  run_ends started stopped mechanical planner a z le =
      finish-Answers stopped mechanical a.campaign.budget.max_turns _ _ (
        turn_loop-Within a.campaign.budget.max_turns (turn_fuel a) planner (begin started a) refl
          (ground (arith, z)) (ground (arith, z, le)))
