-- ===== src/Campaigns/Listing.antt =====
-- internal/campaigns/store.go: `List` and `Count`. `LIMIT` and `OFFSET` are what the handlers pass,
-- so they are not negative.
use inferbolt.Base.{
  ℕ, String, Bool, ◌&&◌, ◌||◌, Option, none, some, List, [], ◌∷◌, ◌==◌, ltb, concat, keep, length,
  if◌then◌else◌,
}
use inferbolt.Base.Lists.{take, drop}
use inferbolt.Base.Maps.{values}
use inferbolt.Base.Results.{Result, ok, err}
use inferbolt.Campaigns.Rows.{
  CampaignState, pending, running, completed, failed, cancelled, CampaignRow,
}
use inferbolt.Campaigns.Store.{Tables}

-- `string(state)`
abbrev pub state_text : CampaignState → String
state_text pending = "pending"
state_text running = "running"
state_text completed = "completed"
state_text failed = "failed"
state_text cancelled = "cancelled"

module _ {F : Type 0} where
  -- `WHERE tenant_id = $1 [AND state = $2]`
  abbrev pub selected : String → String → CampaignRow F → Bool
  selected tenant state c =
      (c.tenant_id == tenant) && ((state == "") || (state_text c.state == state))

  -- `ORDER BY created_at DESC`; rows of the same time keep their order.
  unfoldable pub insert_newest : CampaignRow F → List (CampaignRow F) → List (CampaignRow F)
  insert_newest c [] = c ∷ []
  insert_newest c (x ∷ rest) =
      let later = insert_newest c rest in
      if ltb c.created_at x.created_at then x ∷ later else c ∷ x ∷ rest

  unfoldable pub newest_first : List (CampaignRow F) → List (CampaignRow F)
  unfolding insert_newest
  newest_first [] = []
  newest_first (c ∷ rest) = insert_newest c (newest_first rest)

  unfoldable pub list_campaigns :
      Option String → String → String → ℕ → ℕ → Tables F → Result (List (CampaignRow F))
  list_campaigns (some fault) tenant state limit offset t = err (concat "list campaigns: " fault)
  list_campaigns none tenant state limit offset t =
      ok (
        take limit (drop offset (newest_first (keep (selected tenant state) (values t.campaigns)))))

  unfoldable pub count_campaigns : Option String → String → String → Tables F → Result ℕ
  count_campaigns (some fault) tenant state t = err (concat "count campaigns: " fault)
  count_campaigns none tenant state t =
      ok (length (keep (selected tenant state) (values t.campaigns)))
