-- ===== src/Cli/Follow.antt =====
-- cmd/inferbolt/campaigns.go: following a campaign. What is rendered is the list of the events, in
-- their order.
use inferbolt.Base.{ℕ, Bool, Option, none, some, List, [], ◌∷◌, ◌++◌, map, if◌then◌else◌}
use inferbolt.Base.Int.{pos, ◌*ℤ◌, wrap64}
use inferbolt.Base.Results.{Result, ok, err}
use inferbolt.Agent.Types.{Event}
use inferbolt.Campaigns.Rows.{EventRow}
use inferbolt.Gateway.Reads.{CampaignEvents}

-- A follow ends by the interrupt, or with the final report.
pub data FollowEnd : Type 0 where
  detached finished : FollowEnd

-- One turn of the loop: how the client's read at a cursor is answered, whether the context is done
-- when an error is looked at, and whether it is done in place of the next tick.
pub record Turn (F : Type 0) : Type 0 where
  pub read : ℕ → Result (CampaignEvents F)
  pub done_at_error : Bool
  pub done_at_wait : Bool

abbrev pub Followed : Type 0 → Type 0
Followed F = List (Event F) × Option FollowEnd

module _ {F : Type 0} where
  -- The milliseconds of the row as a duration of 64 bits.
  unfoldable pub to_agent_event : EventRow F → Event F
  unfolding wrap64 ◌*ℤ◌
  to_agent_event e = record {
    kind = e.kind;
    text = e.text;
    trial = e.trial;
    result = e.result;
    elapsed = wrap64 (e.elapsed_ms *ℤ pos 1000000);
  }

  abbrev pub waited : Bool → Followed F → Followed F
  waited stopped rest = if stopped then ([], some detached) else rest

  abbrev pub rendered_before : List (EventRow F) → Followed F → Followed F
  rendered_before rows rest = (map to_agent_event rows ++ rest.0, rest.1)

  -- `rest` is the loop from the next turn on, at a cursor.
  unfoldable pub turn_taken :
      Bool → Bool → (ℕ → Followed F) → ℕ → Result (CampaignEvents F) → Followed F
  turn_taken at_error at_wait rest after (err e) =
      if at_error then ([], some detached) else waited at_wait (rest after)
  turn_taken at_error at_wait rest after (ok page) =
      rendered_before page.events
        (if page.done then ([], some finished) else waited at_wait (rest page.last_seq))

  -- `none` is a loop that is still running when the turns are used up.
  unfoldable pub follow_campaign : List (Turn F) → ℕ → Followed F
  unfolding turn_taken
  follow_campaign [] after_seq = ([], none)
  follow_campaign (t ∷ turns) after_seq =
      turn_taken t.done_at_error t.done_at_wait (λ after. follow_campaign turns after) after_seq
        (t.read after_seq)
