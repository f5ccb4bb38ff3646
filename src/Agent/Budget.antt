-- ===== src/Agent/Budget.antt =====
-- internal/agent/budget.go: what one campaign may spend, and what it has spent. Durations are
-- nanoseconds. A text that only shows numbers is a constructor with those numbers.
use inferbolt.Base.{ℕ, Option, none, some, if◌then◌else◌}
use inferbolt.Base.Int.{ℤ, pos, sub_ℕ, ltb_ℤ, leb_ℤ, ◌-ℤ◌}

pub record Budget : Type 0 where
  pub max_trials : ℤ
  pub max_duration : ℤ
  pub max_turns : ℤ

abbrev pub default_budget : Budget
default_budget = record { max_trials = pos 6; max_duration = pos 7200000000000; max_turns = pos 40 }

pub data BudgetError : Type 0 where
  few_trials : ℤ → BudgetError
  no_duration : ℤ → BudgetError
  few_turns : ℤ → BudgetError

unfoldable pub validate : Budget → Option BudgetError
validate b =
    if ltb_ℤ b.max_trials (pos 1)
    then some (few_trials b.max_trials)
    else if leb_ℤ b.max_duration (pos 0)
    then some (no_duration b.max_duration)
    else if ltb_ℤ b.max_turns (pos 1)
    then some (few_turns b.max_turns)
    else none

-- The tokens that the planner used.
pub record Usage : Type 0 where
  pub input_tokens : ℤ
  pub output_tokens : ℤ
  pub cache_read_tokens : ℤ
  pub cache_creation_tokens : ℤ
  pub turns : ℕ

-- `trials` and `turns` start at 0 and are only counted up. A reading of the clock is an argument.
pub record Spend : Type 0 where
  pub budget : Budget
  pub started : ℕ
  pub trials : ℕ
  pub turns : ℕ
  pub usage : Usage

abbrev pub no_usage : Usage
no_usage = record {
  input_tokens = pos 0;
  output_tokens = pos 0;
  cache_read_tokens = pos 0;
  cache_creation_tokens = pos 0;
  turns = 0;
}

unfoldable pub new_spend : Budget → ℕ → Spend
new_spend b now = record { budget = b; started = now; trials = 0; turns = 0; usage = no_usage }

pub elapsed : ℕ → Spend → ℤ
elapsed now s = sub_ℕ now s.started

unfoldable pub trials_left : Spend → ℤ
unfolding ◌-ℤ◌
trials_left s = s.budget.max_trials -ℤ pos s.trials

unfoldable pub time_left : ℕ → Spend → ℤ
unfolding elapsed ◌-ℤ◌
time_left now s = s.budget.max_duration -ℤ elapsed now s

pub data Reason : Type 0 where
  trials_exhausted : ℕ → ℤ → Reason
  time_exhausted : ℤ → ℤ → Reason

-- `none` is `false, ""`.
unfoldable pub exhausted : ℕ → Spend → Option Reason
unfolding elapsed
exhausted now s =
    if leb_ℤ s.budget.max_trials (pos s.trials)
    then some (trials_exhausted s.trials s.budget.max_trials)
    else if leb_ℤ s.budget.max_duration (elapsed now s)
    then some (time_exhausted (elapsed now s) s.budget.max_duration)
    else none
