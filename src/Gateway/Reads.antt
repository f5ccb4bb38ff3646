-- ===== src/Gateway/Reads.antt =====
-- internal/gateway: the handlers that read. What is answered is an error, or what the body shows.
use inferbolt.Base.{
  ℕ, ◌-◌, String, Bool, Option, none, some, List, [], ◌∷◌, ◌==◌, ◌⊎◌, inl, inr, length,
  if◌then◌else◌,
}
use inferbolt.Base.Int.{ℤ}
use inferbolt.Base.Results.{Result, ok, err}
use inferbolt.Jobs.Types.{Job, Measurement}
use inferbolt.Jobs.Store.{Db, get_job, list_jobs, count_jobs}
use inferbolt.Metrics.Store.{BenchRow, query_by_job, query_by_tenant_engine_and_model}
use inferbolt.Campaigns.Rows.{CampaignState, CampaignRow, EventRow, is_terminal}
use inferbolt.Campaigns.Store.{Tables, StoreError, get_campaign, events}
use inferbolt.Campaigns.Listing.{list_campaigns, count_campaigns}
use inferbolt.Gateway.Handlers.{Response, respond, query_int}

-- A query parameter: its text, and what `strconv.Atoi` answers to it.
pub record Parameter : Type 0 where
  pub text : String
  pub number : Option ℤ

pub record Page (A : Type 0) : Type 0 where
  pub items : List A
  pub total : ℕ
  pub limit : ℕ
  pub offset : ℕ

-- A count that fails is the length of the page.
abbrev pub total_of : {A : Type 0} → List A → Result ℕ → ℕ
total_of items (ok n) = n
total_of items (err e) = length items

abbrev pub page_limit : Parameter → ℕ
page_limit p = query_int p.text p.number 20 100

abbrev pub page_offset : Parameter → ℕ
page_offset p = query_int p.text p.number 0 0

abbrev pub page_of :
    {A : Type 0} → String → Parameter → Parameter → Result (List A) → Result ℕ → Response ⊎ Page A
page_of message limit offset (err e) count = inl (respond 500 message)
page_of message limit offset (ok items) count = inr (record {
  items = items;
  total = total_of items count;
  limit = page_limit limit;
  offset = page_offset offset;
})

abbrev pub shown_or : {A : Type 0} → ℕ → String → Result A → Response ⊎ A
shown_or status message (ok a) = inr a
shown_or status message (err e) = inl (respond status message)

pub record CampaignEvents (F : Type 0) : Type 0 where
  pub events : List (EventRow F)
  pub last_seq : ℕ
  pub state : CampaignState
  pub done : Bool

-- The start of the window: a day ago where none is given. `parse` is `time.Parse`, and times are
-- nanoseconds of the epoch, of which a day has passed.
abbrev pub since_of : (String → Option ℕ) → ℕ → String → Option ℕ
since_of parse now text = if text == "" then some (now - 86400000000000) else parse text

module _ {F : Type 0} where
  unfoldable pub get_job_route : Option String → String → String → Db F → Response ⊎ Job F
  get_job_route fault id tenant db = shown_or 404 "job not found" (get_job fault id tenant db)

  abbrev pub results_found :
      Option String → String → List (BenchRow F) → Result (Job F) → Response ⊎ List (Measurement F)
  results_found fault id rows (err e) = inl (respond 404 "job not found")
  results_found fault id rows (ok job) =
      shown_or 500 "failed to query results" (query_by_job fault id rows)

  unfoldable pub get_job_results :
      Option String
      → Option String
      → String
      → String
      → Db F
      → List (BenchRow F)
      → Response ⊎ List (Measurement F)
  get_job_results read query id tenant db rows =
      results_found query id rows (get_job read id tenant db)

  unfoldable pub list_jobs_route :
      Option String
      → Option String
      → String
      → String
      → Parameter
      → Parameter
      → Db F
      → Response ⊎ Page (Job F)
  list_jobs_route read count tenant state limit offset db =
      page_of "failed to list jobs" limit offset
        (list_jobs read tenant state (page_limit limit) (page_offset offset) db)
        (count_jobs count tenant state db)

  abbrev pub metrics_since :
      Option String
      → String
      → String
      → String
      → Option ℕ
      → Db F
      → List (BenchRow F)
      → Response ⊎ List (Measurement F)
  metrics_since fault tenant engine model none db rows =
      inl (respond 400 "invalid since format (use RFC3339)")
  metrics_since fault tenant engine model (some since) db rows =
      shown_or 500 "failed to query metrics"
        (query_by_tenant_engine_and_model fault tenant engine model since db.jobs rows)

  unfoldable pub get_metrics :
      Option String
      → (String → Option ℕ)
      → ℕ
      → String
      → String
      → String
      → String
      → Db F
      → List (BenchRow F)
      → Response ⊎ List (Measurement F)
  get_metrics fault parse now tenant engine model since db rows =
      metrics_since fault tenant engine model (since_of parse now since) db rows

  unfoldable pub list_campaigns_route :
      Option String
      → Option String
      → String
      → String
      → Parameter
      → Parameter
      → Tables F
      → Response ⊎ Page (CampaignRow F)
  list_campaigns_route read count tenant state limit offset t =
      page_of "failed to list campaigns" limit offset
        (list_campaigns read tenant state (page_limit limit) (page_offset offset) t)
        (count_campaigns count tenant state t)

  abbrev pub campaign_or :
      {A : Type 0} → (CampaignRow F → Response ⊎ A) → StoreError ⊎ CampaignRow F → Response ⊎ A
  campaign_or f (inl e) = inl (respond 404 "campaign not found")
  campaign_or f (inr c) = f c

  unfoldable pub get_campaign_route :
      Option String → String → String → Tables F → Response ⊎ CampaignRow F
  get_campaign_route fault id tenant t = campaign_or inr (get_campaign fault id tenant t)

  -- The number of the last event, or the cursor where there is none.
  unfoldable pub last_seq : ℕ → List (EventRow F) → ℕ
  last_seq after [] = after
  last_seq after (e ∷ rest) = last_seq e.seq rest

  abbrev pub events_page :
      CampaignRow F → ℕ → Result (List (EventRow F)) → Response ⊎ CampaignEvents F
  events_page c after (err e) = inl (respond 500 "failed to read campaign events")
  events_page c after (ok rows) = inr (record {
    events = rows;
    last_seq = last_seq after rows;
    state = c.state;
    done = is_terminal c.state;
  })

  -- The two statements read the tables one after the other; others may have written between.
  unfoldable pub get_campaign_events :
      Option String
      → Option String
      → String
      → String
      → Parameter
      → Parameter
      → Tables F
      → Tables F
      → Response ⊎ CampaignEvents F
  unfolding last_seq
  get_campaign_events read query id tenant after limit t later =
      campaign_or
        (λ c. events_page c (query_int after.text after.number 0 0) (
          events query id (query_int after.text after.number 0 0)
            (query_int limit.text limit.number 200 500) later))
        (get_campaign read id tenant t)
