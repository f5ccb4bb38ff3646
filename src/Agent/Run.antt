-- ===== src/Agent/Run.antt =====
-- internal/agent/agent.go: `New`, and the loop of `Run`. What the planner answers in a turn is an
-- input, and so is what the platform answers to the tool calls of that turn. A context that ends
-- shows as an error of the planner or of the platform.
use inferbolt.Base.{
  ℕ, zero, suc, String, Bool, true, false, Option, none, some, List, [], ◌∷◌, ◌==◌, eqb, ◌||◌, ◌⊎◌,
  inl, inr, length, concat, if◌then◌else◌,
}
use inferbolt.Base.Int.{pos, pos_part, ltb_ℤ, ◌+ℤ◌, wrap64}
use inferbolt.Base.Float64.{Float64}
use inferbolt.Agent.Budget.{BudgetError, validate, Usage, new_spend}
use inferbolt.Agent.Types.{Campaign, Advice, EventKind, plain, plan}
use inferbolt.Agent.Tools.{Agent, Platform, ToolCall, emit}
use inferbolt.Agent.Benchmark.{dispatch_tool}
use inferbolt.Agent.Conclude.{conclude_from_trials}

pub data NewError : Type 0 where
  no_goal no_model no_profile no_engines : NewError
  bad_budget : BudgetError → NewError

abbrev pub default_model : String
default_model = "claude-opus-5"

abbrev pub fresh_agent : {F : Type 0} → Campaign → String → Bool → ℕ → Agent F
fresh_agent c planner observed now = record {
  campaign = c;
  model = planner;
  observed = observed;
  allowed_engines = c.engines;
  trials = [];
  recommendation = none;
  spend = new_spend c.budget now;
  events = [];
}

unfoldable pub budgeted : {F : Type 0} → Option BudgetError → Agent F → NewError ⊎ Agent F
budgeted (some e) a = inl (bad_budget e)
budgeted none a = inr a

-- `planner` is the model that the options leave, `observed` whether they set an observer. The
-- platform is always given.
unfoldable pub new_agent : {F : Type 0} → Campaign → String → Bool → ℕ → NewError ⊎ Agent F
unfolding budgeted
new_agent c planner observed now =
    if c.goal == ""
    then inl no_goal
    else if c.model == ""
    then inl no_model
    else if c.gpu_profile == ""
    then inl no_profile
    else if eqb (length c.engines) 0
    then inl no_engines
    else budgeted (validate c.budget) (fresh_agent c planner observed now)

pub data Block (F : Type 0) : Type 0 where
  text_block : ℕ → String → Block F
  thinking_block : ℕ → String → Block F
  tool_use_block : ℕ → ℕ → Platform F → ToolCall F → Block F
  other_block : Block F

pub data StopReason : Type 0 where
  refusal : String → String → StopReason
  tool_use : StopReason
  other_reason : StopReason

pub data PlannerFailure : Type 0 where
  api_error : ℕ → String → PlannerFailure
  failure : String → PlannerFailure

pub record Response (F : Type 0) : Type 0 where
  pub used : Usage
  pub stop : StopReason
  pub content : List (Block F)

pub data Answer (F : Type 0) : Type 0 where
  failed : PlannerFailure → Answer F
  answered : Response F → Answer F

annotate_planner_error : PlannerFailure → String
annotate_planner_error (failure e) = e
annotate_planner_error (api_error status e) =
    if eqb status 401 || eqb status 403
    then concat e " — set ANTHROPIC_API_KEY, or sign in with the Anthropic CLI"
    else if eqb status 429
    then concat e " — the planner is rate limited; retry, or lower --max-trials"
    else e

pub data RunError : Type 0 where
  planner_turn : ℕ → String → RunError
  declined : String → String → RunError
  no_recommendation : RunError

-- `silent`: the planner stopped without a conclusion, or its turns ran out.
pub data Ending : Type 0 where
  out_of_fuel advised silent : Ending
  broken : RunError → Ending

pub data Next (F : Type 0) : Type 0 where
  ended : Ending → Agent F → Next F
  another : Agent F → Next F

abbrev add_usage : Usage → Usage → Usage
add_usage u r = record u {
  input_tokens = wrap64 (u.input_tokens +ℤ r.input_tokens);
  output_tokens = wrap64 (u.output_tokens +ℤ r.output_tokens);
  cache_read_tokens = wrap64 (u.cache_read_tokens +ℤ r.cache_read_tokens);
  cache_creation_tokens = wrap64 (u.cache_creation_tokens +ℤ r.cache_creation_tokens);
}

abbrev pub with_usage : {F : Type 0} → Usage → Agent F → Agent F
with_usage r a = record a { spend = record a.spend { usage = add_usage a.spend.usage r } }

abbrev pub next_turn : {F : Type 0} → Agent F → Agent F
next_turn a = record a { spend = record a.spend { turns = suc a.spend.turns } }

abbrev pub begin : {F : Type 0} → ℕ → Agent F → Agent F
begin now a = record a { spend = record a.spend { started = now } }

module _ {F : Type 0} ⦃f : Float64 F⦄ where
  unfoldable pub read_block : Block F → Agent F → Agent F
  unfolding emit
  read_block (text_block now s) a = if s == "" then a else emit now plan (plain s) none none a
  read_block (thinking_block now s) a =
      if s == "" then a else emit now EventKind.thinking (plain s) none none a
  read_block (tool_use_block now later p c) a = (dispatch_tool now later p c a).1
  read_block other_block a = a

  unfoldable pub read_blocks : List (Block F) → Agent F → Agent F
  read_blocks [] a = a
  read_blocks (b ∷ blocks) a = read_blocks blocks (read_block b a)

  -- Behind the blocks of a turn.
  unfoldable pub after_blocks : StopReason → Option (Advice F) → Agent F → Next F
  after_blocks stop (some advice) a = ended advised a
  after_blocks tool_use none a = another a
  after_blocks other_reason none a = ended silent a
  after_blocks (refusal category explanation) none a = ended silent a

  unfoldable pub read_response : StopReason → List (Block F) → Agent F → Next F
  unfolding after_blocks
  read_response (refusal category explanation) blocks a =
      ended (broken (declined category explanation)) a
  read_response tool_use blocks a =
      let a' : Agent F = read_blocks blocks a in after_blocks tool_use a'.recommendation a'
  read_response other_reason blocks a =
      let a' : Agent F = read_blocks blocks a in after_blocks other_reason a'.recommendation a'

  unfoldable pub take_answer : Answer F → Agent F → Next F
  unfolding read_response annotate_planner_error
  take_answer (failed e) a =
      ended (broken (planner_turn a.spend.turns (annotate_planner_error e))) a
  take_answer (answered r) a = read_response r.stop r.content (with_usage r.used a)

  -- One round of `for a.spend.turns < a.campaign.Budget.MaxTurns`.
  unfoldable pub one_turn : Answer F → Agent F → Next F
  unfolding take_answer
  one_turn answer a =
      if ltb_ℤ (pos a.spend.turns) a.campaign.budget.max_turns
      then take_answer answer (next_turn a)
      else ended silent a

  unfoldable pub continued : (Agent F → Ending × Agent F) → Next F → Ending × Agent F
  continued rest (ended e a) = (e, a)
  continued rest (another a) = rest a

  unfoldable pub turn_loop : ℕ → (ℕ → Answer F) → Agent F → Ending × Agent F
  unfolding continued
  turn_loop zero planner a = (out_of_fuel, a)
  turn_loop (suc fuel) planner a =
      continued (turn_loop fuel planner) (one_turn (planner a.spend.turns) a)

  -- One more than the turns of the budget, for the round that finds none left.
  unfoldable pub turn_fuel : Agent F → ℕ
  turn_fuel a = suc (pos_part a.campaign.budget.max_turns)

  unfoldable pub settled : Bool × Agent F → Option RunError × Agent F
  settled (true, a) = (none, a)
  settled (false, a) = (some no_recommendation, a)

  unfoldable pub finish : ℕ → (F → F → ℕ → String) → Ending × Agent F → Option RunError × Agent F
  unfolding settled
  finish now mechanical (out_of_fuel, a) = (none, a)
  finish now mechanical (advised, a) = (none, a)
  finish now mechanical (broken e, a) = (some e, a)
  finish now mechanical (silent, a) = settled (conclude_from_trials now mechanical a)

  -- From `started` to `stopped`; the report is that of the agent it leaves.
  unfoldable pub run :
      ℕ → ℕ → (F → F → ℕ → String) → (ℕ → Answer F) → Agent F → Option RunError × Agent F
  unfolding finish turn_loop turn_fuel
  run started stopped mechanical planner a =
      finish stopped mechanical (turn_loop (turn_fuel a) planner (begin started a))
