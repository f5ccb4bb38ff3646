-- ===== src/Cli/Resume.antt =====
-- What a follower shows of a campaign whose events are recorded while it follows.
use mathlib.Core.Path.{ap₂}
use mathlib.Core.List.{append-nil}
use inferbolt.Base.{
  ℕ, zero, suc, ◌+◌, String, Bool, true, false, ◌≡◌, refl, sym, ap, subst, ◌∙◌, ◌⊎◌, inl, inr,
  Option, none, some, List, [], ◌∷◌, ◌++◌, map, keep, length, arith, All, Bool-cases, ◌==◌,
  if◌then◌else◌,
}
use inferbolt.Base.Lists.{
  take, drop, keep-append, page-prefix, take-append-drop, drop-drop, map-append,
}
use inferbolt.Base.Results.{Result, ok, err, ok-injective}
use inferbolt.Base.Int.{pos}
use inferbolt.Base.Texts.{decimal_text, decimal_text-nonempty}
use inferbolt.Campaigns.Rows.{CampaignRow, EventRow, is_terminal}
use inferbolt.Campaigns.Store.{Tables, StoreError, get_campaign, events}
use inferbolt.Campaigns.Feed.{is_of, rows_of, Numbered, events_behind}
use inferbolt.Gateway.Handlers.{query_int}
use inferbolt.Gateway.Reads.{
  CampaignEvents, events_page, campaign_or, last_seq, get_campaign_events,
}
use inferbolt.Cli.Client.{campaign_events_after, decode_resp}
use inferbolt.Cli.Follow.{
  Turn, finished, Followed, waited, rendered_before, turn_taken, follow_campaign, to_agent_event,
}

-- What the gateway answers to one turn of a follower: the tables at its two statements, and what
-- the database answers to them.
pub record Poll (F : Type 0) : Type 0 where
  pub read_fault : Option String
  pub query_fault : Option String
  pub at_read : Tables F
  pub at_query : Tables F
  pub done_at_error : Bool
  pub done_at_wait : Bool

module _ {F : Type 0} (status_line : ℕ → String) (id tenant : String) where
  abbrev pub turn_of : Poll F → Turn F
  turn_of p = record {
    read =
        campaign_events_after status_line p.read_fault p.query_fault id tenant p.at_read p.at_query;
    done_at_error = p.done_at_error;
    done_at_wait = p.done_at_wait;
  }

module _ {F : Type 0} where
  -- The rows count on from a number.
  abbrev Counts : ℕ → List (EventRow F) → Type 0
  Counts n [] = Unit
  Counts n (e ∷ rows) = (e.seq ≡ suc n) × Counts (suc n) rows

  rows_of-Counts :
      (id : String) (n : ℕ) (log : List (EventRow F))
      → Numbered id n log
      → Counts n (rows_of id log)
  unfolding keep
  rows_of-Counts id n [] h = tt
  rows_of-Counts id n (e ∷ log) h = elim (Bool-cases (e.campaign_id == id)) [
    | inl m ↦
        let now : (e.seq ≡ suc n) × Numbered id (suc n) log = rw m at h in
        rw m (now.0, rows_of-Counts id (suc n) log now.1)
    | inr m ↦ let now : Numbered id n log = rw m at h in rw m (rows_of-Counts id n log now)
  ]

  take-Counts : (m n : ℕ) (rows : List (EventRow F)) → Counts n rows → Counts n (take m rows)
  take-Counts zero n rows h = tt
  take-Counts (suc m) n [] h = tt
  take-Counts (suc m) n (e ∷ rows) h = (h.0, take-Counts m (suc n) rows h.1)

  drop-Counts :
      (k n m : ℕ) (rows : List (EventRow F)) → m ≡ n + k → Counts n rows → Counts m (drop k rows)
  drop-Counts zero n m rows e h = subst (λ x. Counts x rows) (ground (arith, e)) h
  drop-Counts (suc k) n m [] e h = tt
  drop-Counts (suc k) n m (x ∷ rows) e h = drop-Counts k (suc n) m rows (ground (arith, e)) h.1

  last_seq-Counts :
      (n : ℕ) (rows : List (EventRow F)) → Counts n rows → last_seq n rows ≡ n + length rows
  unfolding last_seq
  last_seq-Counts n [] h = ground arith
  last_seq-Counts n (e ∷ rows) h =
      ap (λ s. last_seq s rows) h.0 ∙ last_seq-Counts (suc n) rows h.1 ∙ ground arith

  Numbered-front :
      (id : String) (n : ℕ) (pre post : List (EventRow F))
      → Numbered id n (pre ++ post)
      → Numbered id n pre
  Numbered-front id n [] post h = tt
  Numbered-front id n (e ∷ pre) post h = elim (Bool-cases (e.campaign_id == id)) [
    | inl m ↦
        let now : (e.seq ≡ suc n) × Numbered id (suc n) (pre ++ post) = rw m at h in
        rw m (now.0, Numbered-front id (suc n) pre post now.1)
    | inr m ↦
        let now : Numbered id n (pre ++ post) = rw m at h in rw m (Numbered-front id n pre post now)
  ]

-- The cursor that the client sends, as the gateway reads it.
cursor_read : (n : ℕ) → query_int (decimal_text n) (some (pos n)) 0 0 ≡ n
unfolding query_int
cursor_read n = rw (decimal_text-nonempty n) refl

default_limit : query_int "" none 200 500 ≡ 200
unfolding query_int
default_limit = refl

module _ {F : Type 0} (id : String) where
  -- Rows that are read are the next rows of the campaign behind the cursor, at most 200 of those
  -- that the table holds, and the last of their numbers is the cursor moved on by as many.
  events_read :
      (fault : Option String) (after : ℕ) (t : Tables F) (rest log rows : List (EventRow F))
      → log ≡ t.events ++ rest
      → Numbered id 0 log
      → events fault id after 200 t ≡ ok rows
      → (rows ≡ take 200 (drop after (rows_of id t.events)))
        × (rows ≡ take (length rows) (drop after (rows_of id log)))
        × (last_seq after rows ≡ after + length rows)
  unfolding events
  events_read (some e) after t rest log rows front h r = cc
  events_read none after t rest log rows front h r =
      let own : Numbered id 0 t.events =
        Numbered-front id 0 t.events rest (subst (Numbered id 0) front h) in
      let page : rows ≡ take 200 (drop after (rows_of id t.events)) =
        sym (ok-injective (sym (events_behind id t after 200 own) ∙ r)) in
      (
        page,
        page
            ∙ sym (page-prefix 200 after (rows_of id t.events) (rows_of id rest))
            ∙ ap₂ (λ n l. take n (drop after l)) (ap length (sym page))
                (sym (ap (rows_of id) front ∙ keep-append (is_of id) t.events rest)),
        last_seq-Counts after rows (
            subst (Counts after) (sym page) (
              take-Counts 200 after _
                (drop-Counts after 0 after _ (ground arith) (rows_of-Counts id 0 t.events own)))),
      )

  page_of_campaign :
      (status_line : ℕ → String) (fault : Option String) (after : ℕ) (t : Tables F)
      (rest log : List (EventRow F)) (c : CampaignRow F) (page : CampaignEvents F)
      (answer : Result (List (EventRow F)))
      → log ≡ t.events ++ rest
      → Numbered id 0 log
      → events fault id after 200 t ≡ answer
      → decode_resp status_line (events_page c after answer) ≡ ok page
      → (page.events ≡ take 200 (drop after (rows_of id t.events)))
        × (page.events ≡ take (length page.events) (drop after (rows_of id log)))
        × (page.last_seq ≡ after + length page.events)
        × (page.done ≡ is_terminal c.state)
  unfolding decode_resp
  page_of_campaign sl fault after t rest log c page (err e) front h r d = cc
  page_of_campaign sl fault after t rest log c page (ok rows) front h r d =
      let (tables, whole, last) = events_read fault after t rest log rows front h r in
      subst
        (λ (q : CampaignEvents F).
          (q.events ≡ take 200 (drop after (rows_of id t.events)))
          × (q.events ≡ take (length q.events) (drop after (rows_of id log)))
          × (q.last_seq ≡ after + length q.events)
          × (q.done ≡ is_terminal c.state))
        (ok-injective d) (tables, whole, last, refl)

  -- What the client reads at a cursor, when it reads a page.
  page_read :
      (status_line : ℕ → String) (tenant : String) (p : Poll F) (after : ℕ)
      (rest log : List (EventRow F)) (page : CampaignEvents F)
      → log ≡ p.at_query.events ++ rest
      → Numbered id 0 log
      → (turn_of status_line id tenant p).read after ≡ ok page
      → (c : CampaignRow F) × (get_campaign p.read_fault id tenant p.at_read ≡ inr c)
        × (page.events ≡ take 200 (drop after (rows_of id p.at_query.events)))
        × (page.events ≡ take (length page.events) (drop after (rows_of id log)))
        × (page.last_seq ≡ after + length page.events)
        × (page.done ≡ is_terminal c.state)
  unfolding campaign_events_after get_campaign_events decode_resp query_int
  page_read status_line tenant p after rest log page front h r =
      go (get_campaign p.read_fault id tenant p.at_read) refl (rw (cursor_read after) at r)
    where
      go :
          (o : StoreError ⊎ CampaignRow F)
          → get_campaign p.read_fault id tenant p.at_read ≡ o
          → decode_resp status_line (
              campaign_or
                (λ c. events_page c after (events p.query_fault id after 200 p.at_query))
                o)
            ≡ ok page
          → (c : CampaignRow F) × (get_campaign p.read_fault id tenant p.at_read ≡ inr c)
            × (page.events ≡ take 200 (drop after (rows_of id p.at_query.events)))
            × (page.events ≡ take (length page.events) (drop after (rows_of id log)))
            × (page.last_seq ≡ after + length page.events)
            × (page.done ≡ is_terminal c.state)
      go (inl e) g d = cc
      go (inr c) g d =
          let (tables, whole, last, done) =
            page_of_campaign status_line p.query_fault after p.at_query rest log c page _ front h
              refl d in
          (c, g, tables, whole, last, done)

  -- Some front of a page, after the pages shown so far.
  abbrev Shown : List (EventRow F) → ℕ → Followed F → Type 0
  Shown log after followed =
      (n : ℕ) × (followed.0 ≡ map to_agent_event (take n (drop after (rows_of id log))))

  waited-Shown :
      (log : List (EventRow F)) (after : ℕ) (stopped : Bool) (rest : Followed F)
      → Shown log after rest
      → Shown log after (waited stopped rest)
  waited-Shown log after true rest h = (0, refl)
  waited-Shown log after false rest h = h

  rendered_before-Shown :
      (log rows : List (EventRow F)) (after : ℕ) (rest : Followed F)
      → rows ≡ take (length rows) (drop after (rows_of id log))
      → Shown log (after + length rows) rest
      → Shown log after (rendered_before rows rest)
  rendered_before-Shown log rows after rest e (n, h) = (
    length rows + n,
    ap (λ l. map to_agent_event rows ++ l) h
        ∙ sym (map-append to_agent_event rows _)
        ∙ ap (map to_agent_event) (
            ap₂ (λ a b. a ++ take n b) e (sym (drop-drop (length rows) after (rows_of id log)))
            ∙ take-append-drop (length rows) n (drop after (rows_of id log))),
  )

  ended :
      (log : List (EventRow F)) (after : ℕ) (done : Bool) (rest : Followed F)
      → Shown log after rest
      → Shown log after (if done then ([], some finished) else rest)
  ended log after true rest h = (0, refl)
  ended log after false rest h = h

  turn_taken-Shown :
      (log : List (EventRow F)) (after : ℕ) (at_error at_wait : Bool) (rest : ℕ → Followed F)
      (answer : Result (CampaignEvents F))
      → ((k : ℕ) → Shown log k (rest k))
      → ((page : CampaignEvents F)
          → answer ≡ ok page
          → (page.events ≡ take (length page.events) (drop after (rows_of id log)))
            × (page.last_seq ≡ after + length page.events))
      → Shown log after (turn_taken at_error at_wait rest after answer)
  unfolding turn_taken
  turn_taken-Shown log after true at_wait rest (err e) h r = (0, refl)
  turn_taken-Shown log after false at_wait rest (err e) h r =
      waited-Shown log after at_wait (rest after) (h after)
  turn_taken-Shown log after at_error at_wait rest (ok page) h r =
      rendered_before-Shown log page.events after
        (if page.done then ([], some finished) else waited at_wait (rest page.last_seq))
        (r page refl).0
        (ended log (after + length page.events) page.done (waited at_wait (rest page.last_seq)) (
          waited-Shown log _ at_wait (rest page.last_seq)
            (subst (λ k. Shown log k (rest page.last_seq)) (r page refl).1 (h page.last_seq))))

  -- A follower that starts behind the first so many events of a campaign, while further events are
  -- recorded, shows the events that follow in their order, without a gap and without a repetition,
  -- whatever reads fail on the way and wherever it stops.
  pub follow_campaign-events :
      (status_line : ℕ → String) (tenant : String) (log : List (EventRow F)) (polls : List (Poll F))
      (after : ℕ)
      → Numbered id 0 log
      → All (λ p. (rest : List (EventRow F)) × (log ≡ p.at_query.events ++ rest)) polls
      → (n : ℕ) × ((follow_campaign (map (turn_of status_line id tenant) polls) after).0
          ≡ map to_agent_event (take n (drop after (rows_of id log))))
  unfolding follow_campaign
  follow_campaign-events status_line tenant log [] after h fronts = (0, refl)
  follow_campaign-events status_line tenant log (p ∷ polls) after h fronts =
      turn_taken-Shown log after p.done_at_error p.done_at_wait
        (λ k. follow_campaign (map (turn_of status_line id tenant) polls) k)
        ((turn_of status_line id tenant p).read after)
        (λ k. follow_campaign-events status_line tenant log polls k h fronts.1)
        (λ page r.
          let (c, at, tables, whole, last, done) =
            page_read status_line tenant p after fronts.0.0 log page fronts.0.1 h r in
          (whole, last))

  -- The first page that is read of a campaign that has ended is the last: the follow is finished,
  -- and of the events behind the cursor 200 are shown, be there more or not.
  pub follow_campaign-terminal :
      (status_line : ℕ → String) (tenant : String) (p : Poll F) (polls : List (Poll F)) (after : ℕ)
      (c : CampaignRow F)
      → Numbered id 0 p.at_query.events
      → p.read_fault ≡ none
      → p.query_fault ≡ none
      → get_campaign none id tenant p.at_read ≡ inr c
      → is_terminal c.state ≡ true
      → follow_campaign (map (turn_of status_line id tenant) (p ∷ polls)) after
        ≡ (map to_agent_event (take 200 (drop after (rows_of id p.at_query.events))), some finished)
  unfolding follow_campaign turn_taken campaign_events_after get_campaign_events decode_resp
  follow_campaign-terminal status_line tenant p polls after c h r q at terminal =
      rw
        (
          r,
          q,
          at,
          cursor_read after,
          default_limit,
          events_behind id p.at_query after 200 h,
          terminal,
        )
        (ap (λ l. (l, some finished)) (append-nil _))
