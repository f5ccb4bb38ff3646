-- ===== src/Campaigns/Store.antt =====
-- internal/campaigns/store.go: the statements on `campaigns` and `campaign_events`. A statement
-- that the database refuses, or a value that does not marshal, is the argument `fault`, the text
-- of its error; the tables then stay as they were. The id is the primary key.
use inferbolt.Base.{
  ℕ, suc, String, Bool, false, ◌&&◌, ◌||◌, Option, none, some, List, [], ◌∷◌, ◌++◌, ◌==◌, ltb, leb,
  concat, keep, ◌⊎◌, inl, inr, if◌then◌else◌,
}
use inferbolt.Base.Lists.{take}
use inferbolt.Base.Maps.{Dict, get, put, update}
use inferbolt.Base.Results.{Result, ok, err}
use inferbolt.Jobs.Store.{unique_violation, no_rows}
use inferbolt.Agent.Budget.{Usage}
use inferbolt.Agent.Types.{Advice, Trial, Report, Event}
use inferbolt.Campaigns.Rows.{
  CampaignState, pending, running, completed, failed, cancelled, same, CampaignRow, EventRow,
  milliseconds,
}

pub record Tables (F : Type 0) : Type 0 where
  pub campaigns : Dict (CampaignRow F)
  pub events : List (EventRow F)

pub data StoreError : Type 0 where
  not_found : StoreError
  refused : String → StoreError

-- `SELECT COALESCE(MAX(seq), 0)`, over the rows of one campaign.
unfoldable pub max_seq : {F : Type 0} → String → List (EventRow F) → ℕ
max_seq id [] = 0
max_seq id (e ∷ events) =
    let rest = max_seq id events in
    if e.campaign_id == id then (if leb e.seq rest then rest else e.seq) else rest

-- `CASE WHEN state = 'cancelled' THEN 'cancelled' ELSE $1 END`
unfoldable pub unless_cancelled : CampaignState → CampaignState → CampaignState
unfolding same
unless_cancelled new old = if same old cancelled then cancelled else new

module _ {F : Type 0} where
  unfoldable pub created :
      CampaignRow F → Option (CampaignRow F) → Tables F → Option StoreError × Tables F
  created c (some old) t = (some (refused (concat "create campaign: " unique_violation)), t)
  created c none t = (none, record t { campaigns = put t.campaigns c.campaign_id c })

  -- The columns that the statement does not name are NULL.
  abbrev pub new_row : CampaignRow F → CampaignRow F
  new_row c = record c {
    recommendation = none;
    trials = [];
    usage = none;
    error_msg = "";
    updated_at = c.created_at;
    started_at = none;
    completed_at = none;
  }

  unfoldable pub create : Option String → CampaignRow F → Tables F → Option StoreError × Tables F
  unfolding created
  create (some fault) c t = (some (refused fault), t)
  create none c t = created (new_row c) (get t.campaigns c.campaign_id) t

  unfoldable pub found : Option (CampaignRow F) → StoreError ⊎ CampaignRow F
  found none = inl not_found
  found (some c) = inr c

  -- `WHERE id = $1 AND tenant_id = $2`
  abbrev pub owned : String → Option (CampaignRow F) → Option (CampaignRow F)
  owned tenant none = none
  owned tenant (some c) = if c.tenant_id == tenant then some c else none

  unfoldable pub get_campaign :
      Option String → String → String → Tables F → StoreError ⊎ CampaignRow F
  unfolding found
  get_campaign (some fault) id tenant t = inl (refused (concat "query campaign: " fault))
  get_campaign none id tenant t = found (owned tenant (get t.campaigns id))

  unfoldable pub get_by_id : Option String → String → Tables F → StoreError ⊎ CampaignRow F
  unfolding found
  get_by_id (some fault) id t = inl (refused (concat "query campaign: " fault))
  get_by_id none id t = found (get t.campaigns id)

  -- `UPDATE ... WHERE id = $1 AND <test>`: whether a row was written, and the tables.
  abbrev pub row_affected : (CampaignRow F → Bool) → Option (CampaignRow F) → Bool
  row_affected test none = false
  row_affected test (some c) = test c

  abbrev pub where_test :
      (CampaignRow F → Bool) → (CampaignRow F → CampaignRow F) → CampaignRow F → CampaignRow F
  where_test test write c = if test c then write c else c

  abbrev pub written :
      String → (CampaignRow F → Bool) → (CampaignRow F → CampaignRow F) → Tables F → Tables F
  written id test write t = record t { campaigns = update t.campaigns id (where_test test write) }

  abbrev pub is_pending : CampaignRow F → Bool
  is_pending c = same c.state pending

  abbrev pub claimed : ℕ → CampaignRow F → CampaignRow F
  claimed now c = record c { state = running; started_at = some now; updated_at = now }

  unfoldable pub mark_running : Option String → ℕ → String → Tables F → Result Bool × Tables F
  unfolding same
  mark_running (some fault) now id t = (err (concat "mark campaign running: " fault), t)
  mark_running none now id t =
      (ok (row_affected is_pending (get t.campaigns id)), written id is_pending (claimed now) t)

  abbrev reported_advice : Option (Report F) → Option (Advice F)
  reported_advice none = none
  reported_advice (some r) = r.recommendation

  abbrev reported_trials : Option (Report F) → List (Trial F)
  reported_trials none = []
  reported_trials (some r) = r.trials

  abbrev reported_usage : Option (Report F) → Option Usage
  reported_usage none = none
  reported_usage (some r) = some r.usage

  abbrev pub finished : ℕ → Option (Report F) → CampaignRow F → CampaignRow F
  finished now report c = record c {
    state = unless_cancelled completed c.state;
    recommendation = reported_advice report;
    trials = reported_trials report;
    usage = reported_usage report;
    completed_at = some now;
    updated_at = now;
  }

  unfoldable pub complete :
      Option String → ℕ → String → Option (Report F) → Tables F → Option StoreError × Tables F
  complete (some fault) now id report t = (some (refused fault), t)
  complete none now id report t =
      (none, record t { campaigns = update t.campaigns id (finished now report) })

  -- Without a report, `COALESCE` keeps what the row has.
  unfoldable pub kept_work : Option (Report F) → CampaignRow F → CampaignRow F
  kept_work none c = c
  kept_work (some r) c = record c { trials = r.trials; usage = some r.usage }

  abbrev pub broken : ℕ → String → Option (Report F) → CampaignRow F → CampaignRow F
  broken now msg report c = record (kept_work report c) {
    state = unless_cancelled failed c.state;
    error_msg = msg;
    completed_at = some now;
    updated_at = now;
  }

  unfoldable pub fail :
      Option String
      → ℕ
      → String
      → String
      → Option (Report F)
      → Tables F
      → Option StoreError × Tables F
  fail (some fault) now id msg report t = (some (refused (concat "fail campaign: " fault)), t)
  fail none now id msg report t =
      (none, record t { campaigns = update t.campaigns id (broken now msg report) })

  unfoldable pub cancellable : String → CampaignRow F → Bool
  unfolding same
  cancellable tenant c = (c.tenant_id == tenant) && (same c.state pending || same c.state running)

  abbrev pub called_off : ℕ → CampaignRow F → CampaignRow F
  called_off now c = record c { state = cancelled; updated_at = now }

  unfoldable pub cancel :
      Option String → ℕ → String → String → Tables F → Option StoreError × Tables F
  cancel (some fault) now id tenant t = (some (refused (concat "cancel campaign: " fault)), t)
  cancel none now id tenant t = (
    (if row_affected (cancellable tenant) (get t.campaigns id) then none else some not_found),
    written id (cancellable tenant) (called_off now) t,
  )

  read_state : Option (CampaignRow F) → Result CampaignState
  read_state none = err (concat "read campaign state: " no_rows)
  read_state (some c) = ok c.state

  unfoldable state_of : Option String → String → Tables F → Result CampaignState
  unfolding read_state
  state_of (some fault) id t = err (concat "read campaign state: " fault)
  state_of none id t = read_state (get t.campaigns id)

  abbrev event_row : ℕ → String → ℕ → Event F → EventRow F
  event_row now id seq e = record {
    campaign_id = id;
    seq = seq;
    kind = e.kind;
    text = e.text;
    trial = e.trial;
    result = e.result;
    elapsed_ms = milliseconds e.elapsed;
    created_at = now;
  }

  unfoldable pub append_event :
      Option String → ℕ → String → Event F → Tables F → Option StoreError × Tables F
  append_event (some fault) now id e t = (some (refused fault), t)
  append_event none now id e t =
      (none, record t { events = t.events ++ event_row now id (suc (max_seq id t.events)) e ∷ [] })

  -- `ORDER BY seq ASC`
  unfoldable pub insert_seq : EventRow F → List (EventRow F) → List (EventRow F)
  insert_seq e [] = e ∷ []
  insert_seq e (x ∷ rest) =
      let later = insert_seq e rest in if leb e.seq x.seq then e ∷ x ∷ rest else x ∷ later

  unfoldable pub by_seq : List (EventRow F) → List (EventRow F)
  unfolding insert_seq
  by_seq [] = []
  by_seq (e ∷ rest) = insert_seq e (by_seq rest)

  abbrev pub is_after : String → ℕ → EventRow F → Bool
  is_after id after e = (e.campaign_id == id) && ltb after e.seq

  -- The cursor and the limit are not negative, as the handler passes them.
  unfoldable pub events : Option String → String → ℕ → ℕ → Tables F → Result (List (EventRow F))
  unfolding by_seq
  events (some fault) id after limit t = err (concat "read campaign events: " fault)
  events none id after limit t = ok (take limit (by_seq (keep (is_after id after) t.events)))
