-- ===== src/Agent/Turns.antt =====
-- The loop of `Run`: its fuel is enough, and it keeps what the tool calls keep.
use inferbolt.Base.{
  ℕ, zero, suc, String, ◌≡◌, refl, ◌∙◌, inl, inr, Option, none, some, List, [], ◌∷◌, contains,
  Bool-cases, ◌==◌,
}
use inferbolt.Base.Int.{pos, ltb_ℤ}
use inferbolt.Base.Float64.{Float64}
use inferbolt.Base.Results.{Result, ok, err}
use inferbolt.Agent.Budget.{Usage, Reason, exhausted}
use inferbolt.Jobs.Types.{Measurement}
use inferbolt.Agent.Types.{Trial, TrialSpec, Advice, EventKind, plain}
use inferbolt.Agent.Tools.{
  Agent, BenchmarkArgs, Platform, ToolCall, emit, call_list_workers, call_classify, call_historical,
}
use inferbolt.Agent.Benchmark.{
  benchmarked, tried, affordable, call_run_benchmark, call_recommend, dispatch_tool, spec_for,
}
use inferbolt.Agent.Run.{
  Block, StopReason, Answer, Ending, Next, ended, another, read_block, read_blocks, after_blocks,
  read_response, take_answer, one_turn, turn_loop, continued, text_block, thinking_block,
  tool_use_block, other_block, failed, answered, refusal, tool_use, other_reason,
}

-- The campaign and the number of turns are the same.
abbrev pub SameTurn : {F : Type 0} → Agent F → Agent F → Type 0
SameTurn a a' = (a'.campaign ≡ a.campaign) × (a'.spend.turns ≡ a.spend.turns)

module _ {F : Type 0} ⦃f : Float64 F⦄ where
  pub SameTurn-trans : (a b c : Agent F) → SameTurn a b → SameTurn b c → SameTurn a c
  SameTurn-trans a b c h k = (k.0 ∙ h.0, k.1 ∙ h.1)

  benchmarked-SameTurn :
      (now later : ℕ) (spec : TrialSpec F) (hypothesis : String) (a : Agent F)
      (r : Result (Measurement F))
      → SameTurn a (benchmarked now later spec hypothesis a r).1
  unfolding benchmarked
  benchmarked-SameTurn now later spec hypothesis a (err e) = (refl, refl)
  benchmarked-SameTurn now later spec hypothesis a (ok m) = (refl, refl)

  tried-SameTurn :
      (now later : ℕ) (p : Platform F) (spec : TrialSpec F) (hypothesis : String) (a : Agent F)
      (o : Option (Trial F))
      → SameTurn a (tried now later p spec hypothesis a o).1
  unfolding tried
  tried-SameTurn now later p spec hypothesis a (some prior) = (refl, refl)
  tried-SameTurn now later p spec hypothesis a none =
      benchmarked-SameTurn now later spec hypothesis _ (p.run_benchmark spec)

  affordable-SameTurn :
      (now later : ℕ) (p : Platform F) (args : BenchmarkArgs F) (a : Agent F) (o : Option Reason)
      → SameTurn a (affordable now later p args a o).1
  unfolding affordable
  affordable-SameTurn now later p args a (some why) = (refl, refl)
  affordable-SameTurn now later p args a none =
      tried-SameTurn now later p (spec_for a.campaign args.engine args.config) args.hypothesis a _

  call_run_benchmark-SameTurn :
      (now later : ℕ) (p : Platform F) (r : Result (BenchmarkArgs F)) (a : Agent F)
      → SameTurn a (call_run_benchmark now later p r a).1
  unfolding call_run_benchmark
  call_run_benchmark-SameTurn now later p (err e) a = (refl, refl)
  call_run_benchmark-SameTurn now later p (ok args) a =
      elim (Bool-cases (contains a.allowed_engines args.engine)) [
        | inl hit ↦ rw hit (affordable-SameTurn now later p args a (exhausted now a.spend))
        | inr miss ↦ rw miss (refl, refl)
      ]

  pub dispatch_tool-SameTurn :
      (now later : ℕ) (p : Platform F) (c : ToolCall F) (a : Agent F)
      → SameTurn a (dispatch_tool now later p c a).1
  unfolding dispatch_tool call_list_workers call_classify call_historical call_recommend
  dispatch_tool-SameTurn now later p ToolCall.list_workers a = (refl, refl)
  dispatch_tool-SameTurn now later p (ToolCall.classify_workload (err e)) a = (refl, refl)
  dispatch_tool-SameTurn now later p (ToolCall.classify_workload (ok x)) a = (refl, refl)
  dispatch_tool-SameTurn now later p (ToolCall.historical_results (err e)) a = (refl, refl)
  dispatch_tool-SameTurn now later p (ToolCall.historical_results (ok x)) a = (refl, refl)
  dispatch_tool-SameTurn now later p (ToolCall.run_benchmark r) a =
      call_run_benchmark-SameTurn now later p r a
  dispatch_tool-SameTurn now later p (ToolCall.submit_recommendation (err e)) a = (refl, refl)
  dispatch_tool-SameTurn now later p (ToolCall.submit_recommendation (ok x)) a = (refl, refl)
  dispatch_tool-SameTurn now later p (ToolCall.other name) a = (refl, refl)

  read_block-SameTurn : (b : Block F) (a : Agent F) → SameTurn a (read_block b a)
  unfolding read_block
  read_block-SameTurn (text_block now s) a = elim (Bool-cases (s == "")) [
    | inl h ↦ rw h (refl, refl)
    | inr h ↦ rw h (refl, refl)
  ]
  read_block-SameTurn (thinking_block now s) a = elim (Bool-cases (s == "")) [
    | inl h ↦ rw h (refl, refl)
    | inr h ↦ rw h (refl, refl)
  ]
  read_block-SameTurn (tool_use_block now later p c) a = dispatch_tool-SameTurn now later p c a
  read_block-SameTurn other_block a = (refl, refl)

  pub read_blocks-SameTurn :
      (blocks : List (Block F)) (a : Agent F) → SameTurn a (read_blocks blocks a)
  unfolding read_blocks
  read_blocks-SameTurn [] a = (refl, refl)
  read_blocks-SameTurn (b ∷ blocks) a =
      SameTurn-trans a (read_block b a) (read_blocks blocks (read_block b a))
        (read_block-SameTurn b a) (read_blocks-SameTurn blocks (read_block b a))

  -- What a predicate needs to survive a run: it holds on through a tool call, and does not read the
  -- events or the turns, the tokens and the start of the spending.
  pub record Lasting (P : Agent F → Type 0) : Type 0 where
    pub on_tool :
        (now later : ℕ) (p : Platform F) (c : ToolCall F) (a : Agent F)
        → P a
        → P (dispatch_tool now later p c a).1
    pub on_event :
        (now : ℕ) (k : EventKind) (s : String) (a : Agent F)
        → P a
        → P (emit now k (plain s) none none a)
    pub on_spend :
        (turns started : ℕ) (usage : Usage) (a : Agent F)
        → P a
        → P (record a {
          spend = record a.spend { turns = turns; started = started; usage = usage };
        })

  module _ (P : Agent F → Type 0) (l : Lasting P) where
    read_block-lasts : (b : Block F) (a : Agent F) → P a → P (read_block b a)
    unfolding read_block
    read_block-lasts (text_block now s) a h = elim (Bool-cases (s == "")) [
      | inl e ↦ rw e h
      | inr e ↦ rw e (l.on_event now _ s a h)
    ]
    read_block-lasts (thinking_block now s) a h = elim (Bool-cases (s == "")) [
      | inl e ↦ rw e h
      | inr e ↦ rw e (l.on_event now _ s a h)
    ]
    read_block-lasts (tool_use_block now later p c) a h = l.on_tool now later p c a h
    read_block-lasts other_block a h = h

    read_blocks-lasts : (blocks : List (Block F)) (a : Agent F) → P a → P (read_blocks blocks a)
    unfolding read_blocks
    read_blocks-lasts [] a h = h
    read_blocks-lasts (b ∷ blocks) a h =
        read_blocks-lasts blocks (read_block b a) (read_block-lasts b a h)

    abbrev Holds : Next F → Type 0
    Holds (ended e a) = P a
    Holds (another a) = P a

    after_blocks-lasts :
        (stop : StopReason) (o : Option (Advice F)) (a : Agent F)
        → P a
        → Holds (after_blocks stop o a)
    unfolding after_blocks
    after_blocks-lasts stop (some advice) a h = h
    after_blocks-lasts tool_use none a h = h
    after_blocks-lasts other_reason none a h = h
    after_blocks-lasts (refusal category explanation) none a h = h

    read_response-lasts :
        (stop : StopReason) (blocks : List (Block F)) (a : Agent F)
        → P a
        → Holds (read_response stop blocks a)
    unfolding read_response
    read_response-lasts (refusal category explanation) blocks a h = h
    read_response-lasts tool_use blocks a h =
        after_blocks-lasts tool_use _ _ (read_blocks-lasts blocks a h)
    read_response-lasts other_reason blocks a h =
        after_blocks-lasts other_reason _ _ (read_blocks-lasts blocks a h)

    take_answer-lasts : (answer : Answer F) (a : Agent F) → P a → Holds (take_answer answer a)
    unfolding take_answer
    take_answer-lasts (failed e) a h = h
    take_answer-lasts (answered r) a h =
        read_response-lasts r.stop r.content _ (l.on_spend a.spend.turns a.spend.started _ a h)

    one_turn-lasts : (answer : Answer F) (a : Agent F) → P a → Holds (one_turn answer a)
    unfolding one_turn
    one_turn-lasts answer a h =
        elim (Bool-cases (ltb_ℤ (pos a.spend.turns) a.campaign.budget.max_turns)) [
          | inl e ↦
              rw e (take_answer-lasts answer _ (l.on_spend _ a.spend.started a.spend.usage a h))
          | inr e ↦ rw e h
        ]

    continued-lasts :
        (rest : Agent F → Ending × Agent F) (n : Next F)
        → ((a : Agent F) → P a → P (rest a).1)
        → Holds n
        → P (continued rest n).1
    unfolding continued
    continued-lasts rest (ended e a) r h = h
    continued-lasts rest (another a) r h = r a h

    pub turn_loop-lasts :
        (fuel : ℕ) (planner : ℕ → Answer F) (a : Agent F) → P a → P (turn_loop fuel planner a).1
    unfolding turn_loop
    turn_loop-lasts zero planner a h = h
    turn_loop-lasts (suc fuel) planner a h =
        continued-lasts (turn_loop fuel planner) _ (turn_loop-lasts fuel planner)
          (one_turn-lasts (planner a.spend.turns) a h)
