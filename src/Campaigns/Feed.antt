-- ===== src/Campaigns/Feed.antt =====
-- The events of a campaign, as a client reads them behind a cursor.
use inferbolt.Base.{
  ℕ, zero, suc, ◌+◌, ◌≤◌, String, ◌≡◌, ◌⊎◌, refl, sym, ◌∙◌, ap, inl, inr, Bool, true, false, none,
  List, [], ◌∷◌, ◌++◌, ◌==◌, arith, eq_iff, keep, length, Bool-cases, if◌then◌else◌,
}
use inferbolt.Base.Lists.{take, drop}
use inferbolt.Base.Results.{ok}
use inferbolt.Agent.Types.{Event}
use inferbolt.Campaigns.Rows.{EventRow}
use inferbolt.Campaigns.Store.{Tables, max_seq, append_event, insert_seq, by_seq, is_after, events}

module _ {F : Type 0} where
  abbrev pub is_of : String → EventRow F → Bool
  is_of id e = e.campaign_id == id

  abbrev pub rows_of : String → List (EventRow F) → List (EventRow F)
  rows_of id log = keep (is_of id) log

  -- The rows of a campaign are numbered in the order they stand in, without a gap, behind `n`.
  abbrev pub Numbered : String → ℕ → List (EventRow F) → Type 0
  Numbered id n [] = Unit
  Numbered id n (e ∷ log) =
      if e.campaign_id == id then ((e.seq ≡ suc n) × Numbered id (suc n) log) else Numbered id n log

  rows_of-of :
      (id : String) (e : EventRow F) (log : List (EventRow F))
      → (e.campaign_id == id) ≡ true
      → rows_of id (e ∷ log) ≡ e ∷ rows_of id log
  unfolding keep
  rows_of-of id e log h = rw h refl

  rows_of-other :
      (id : String) (e : EventRow F) (log : List (EventRow F))
      → (e.campaign_id == id) ≡ false
      → rows_of id (e ∷ log) ≡ rows_of id log
  unfolding keep
  rows_of-other id e log h = rw h refl

  max_seq-Numbered :
      (id : String) (n : ℕ) (log : List (EventRow F))
      → Numbered id n log
      → ((max_seq id log ≡ 0) × (length (rows_of id log) ≡ 0))
        ⊎ (max_seq id log ≡ n + length (rows_of id log))
  unfolding max_seq keep
  max_seq-Numbered id n [] h = inl (refl, refl)
  max_seq-Numbered id n (e ∷ log) h = elim (Bool-cases (e.campaign_id == id)) [
    | inl k ↦
        let now : (e.seq ≡ suc n) × Numbered id (suc n) log = rw k at h in
        ground (arith, k, now.0, max_seq-Numbered id (suc n) log now.1)
    | inr k ↦
        let now : Numbered id n log = rw k at h in ground (arith, k, max_seq-Numbered id n log now)
  ]

  Numbered-append :
      (id : String) (n : ℕ) (log : List (EventRow F)) (e : EventRow F)
      → Numbered id n log
      → ((e.campaign_id == id) ≡ true → e.seq ≡ suc (n + length (rows_of id log)))
      → Numbered id n (log ++ e ∷ [])
  unfolding keep
  Numbered-append id n [] e h s = elim (Bool-cases (e.campaign_id == id)) [
    | inl k ↦ rw k (ground (arith, s k), tt)
    | inr k ↦ rw k tt
  ]
  Numbered-append id n (x ∷ log) e h s = elim (Bool-cases (x.campaign_id == id)) [
    | inl k ↦
        let now : (x.seq ≡ suc n) × Numbered id (suc n) log = rw k at h in
        rw k (now.0, Numbered-append id (suc n) log e now.1 (λ m. ground (arith, k, s m)))
    | inr k ↦
        let now : Numbered id n log = rw k at h in
        rw k (Numbered-append id n log e now (λ m. ground (arith, k, s m)))
  ]

  -- A cursor at or before the first row.
  keep-early :
      (id : String) (n after : ℕ) (log : List (EventRow F))
      → after ≤ n
      → Numbered id n log
      → keep (is_after id after) log ≡ rows_of id log
  unfolding keep
  keep-early id n after [] le h = refl
  keep-early id n after (e ∷ log) le h = elim (Bool-cases (e.campaign_id == id)) [
    | inl k ↦
        let now : (e.seq ≡ suc n) × Numbered id (suc n) log = rw k at h in
        ground (arith, k, now.0, keep-early id (suc n) after log (ground arith) now.1)
    | inr k ↦
        let now : Numbered id n log = rw k at h in
        ground (arith, k, keep-early id n after log le now)
  ]

  insert_seq-first :
      (id : String) (n : ℕ) (e : EventRow F) (log : List (EventRow F))
      → e.seq ≤ suc n
      → Numbered id n log
      → insert_seq e (rows_of id log) ≡ e ∷ rows_of id log
  unfolding keep insert_seq
  insert_seq-first id n e [] le h = refl
  insert_seq-first id n e (x ∷ log) le h = elim (Bool-cases (x.campaign_id == id)) [
    | inl k ↦
        let now : (x.seq ≡ suc n) × Numbered id (suc n) log = rw k at h in ground (arith, k, now.0)
    | inr k ↦
        let now : Numbered id n log = rw k at h in
        ground (arith, k, insert_seq-first id n e log le now)
  ]

  by_seq-rows :
      (id : String) (n : ℕ) (log : List (EventRow F))
      → Numbered id n log
      → by_seq (rows_of id log) ≡ rows_of id log
  unfolding keep by_seq
  by_seq-rows id n [] h = refl
  by_seq-rows id n (e ∷ log) h = elim (Bool-cases (e.campaign_id == id)) [
    | inl k ↦
        let now : (e.seq ≡ suc n) × Numbered id (suc n) log = rw k at h in
        rw (k, by_seq-rows id (suc n) log now.1)
          (insert_seq-first id (suc n) e log (ground (arith, now.0)) now.1)
    | inr k ↦ let now : Numbered id n log = rw k at h in rw k (by_seq-rows id n log now)
  ]

  skipped :
      (id : String) (after : ℕ) (e : EventRow F) (log : List (EventRow F))
      → e.seq ≤ after
      → keep (is_after id after) (e ∷ log) ≡ keep (is_after id after) log
  unfolding keep
  skipped id after e log le = ground arith

  by_seq-after :
      (id : String) (n k after : ℕ) (log : List (EventRow F))
      → after ≡ n + k
      → Numbered id n log
      → by_seq (keep (is_after id after) log) ≡ drop k (rows_of id log)
  unfolding keep by_seq
  by_seq-after id n zero after [] a h = refl
  by_seq-after id n (suc k) after [] a h = refl
  by_seq-after id n zero after (e ∷ log) a h =
      rw (keep-early id n after (e ∷ log) (ground (arith, a)) h) (by_seq-rows id n (e ∷ log) h)
  by_seq-after id n (suc k) after (e ∷ log) a h = elim (Bool-cases (e.campaign_id == id)) [
    | inl m ↦
        let now : (e.seq ≡ suc n) × Numbered id (suc n) log = rw m at h in
        ap by_seq (skipped id after e log (ground (arith, a, now.0)))
        ∙ by_seq-after id (suc n) k after log (ground (arith, a)) now.1
        ∙ sym (ap (drop (suc k)) (rows_of-of id e log m))
    | inr m ↦
        let now : Numbered id n log = rw m at h in rw m (by_seq-after id n (suc k) after log a now)
  ]

  append_event-Numbered :
      (now : ℕ) (id other : String) (e : Event F) (t : Tables F)
      → Numbered other 0 t.events
      → Numbered other 0 (append_event none now id e t).1.events
  unfolding append_event
  append_event-Numbered now id other e t h = Numbered-append other 0 t.events _ h (λ m. ground (
    arith,
    (eq_iff id other).0 m,
    ap (λ i. max_seq i t.events) ((eq_iff id other).0 m),
    max_seq-Numbered other 0 t.events h,
  ))

  pub events_behind :
      (id : String) (t : Tables F) (after limit : ℕ)
      → Numbered id 0 t.events
      → events none id after limit t ≡ ok (take limit (drop after (rows_of id t.events)))
  unfolding events
  events_behind id t after limit h =
      ap (λ rows. ok (take limit rows)) (by_seq-after id 0 after after t.events (ground arith) h)

  -- Where the events of a campaign are numbered from 1 in the order they were recorded, as
  -- recording an event keeps it for every campaign, the page behind a cursor is what follows the
  -- first so many events of the campaign, up to the limit: nothing is skipped and nothing repeated.
  pub events_resume :
      (now : ℕ) (id other : String) (e : Event F) (t : Tables F)
      → Numbered id 0 t.events
      → ((after limit : ℕ)
          → events none id after limit t ≡ ok (take limit (drop after (rows_of id t.events))))
        × Numbered id 0 (append_event none now other e t).1.events
  events_resume now id other e t h =
      (λ after limit. events_behind id t after limit h, append_event-Numbered now other id e t h)
