-- ===== src/Campaigns/Runs.antt =====
-- What an attempt at a campaign, and a trial of it, leave behind.
use mathlib.Core.Option
use inferbolt.Base.{
  ℕ, String, ◌≡◌, refl, inl, inr, ◌∙◌, ap, Bool, true, false, Option, none, some, arith, ==_self,
  Bool-cases, if◌then◌else◌,
}
use inferbolt.Base.Maps.{get, update, get-update, update-same}
use inferbolt.Base.Results.{ok}
use inferbolt.Campaigns.Rows.{
  CampaignState, pending, running, completed, failed, cancelled, same, CampaignRow,
}
use inferbolt.Campaigns.Rows
use inferbolt.Campaigns.Store.{
  Tables, get_by_id, mark_running, complete, fail, unless_cancelled, is_pending, claimed, finished,
  broken, row_affected, where_test, found,
}
use inferbolt.Campaigns.Claims.{StateIs, RowIs, Absorbing, execute_all-keeps}
use inferbolt.Campaigns.Worker.{
  RunEnd, ran_well, was_cancelled, ran_badly, WorkInputs, finish_failed, concluded, launched,
  claim_answered, loaded, work,
}

abbrev pub Terminal : CampaignState → Type 0
Terminal s = Rows.is_terminal s ≡ true

abbrev Exists : CampaignState → Type 0
Exists s = Unit

Exists-Absorbing : Absorbing Exists
Exists-Absorbing = record {
  on_claim = λ h. tt;
  on_complete = λ s h. tt;
  on_fail = λ s h. tt;
  on_cancel = λ s h. tt;
}

completed_or_cancelled : (s : CampaignState) → Terminal (unless_cancelled completed s)
unfolding unless_cancelled same Rows.is_terminal
completed_or_cancelled s = ground arith

failed_or_cancelled : (s : CampaignState) → Terminal (unless_cancelled failed s)
unfolding unless_cancelled same Rows.is_terminal
failed_or_cancelled s = ground arith

module _ {F : Type 0} where
  -- A write to every row with the id leaves the row in a state it always writes.
  written_is :
      (Q : CampaignState → Type 0) (id : String) (f : CampaignRow F → CampaignRow F) (t : Tables F)
      → ((c : CampaignRow F) → Q (f c).state)
      → StateIs Exists id t
      → StateIs Q id (record t { campaigns = update t.campaigns id f })
  written_is Q id f t q h =
      rw (get-update t.campaigns id id f, ==_self id) (go (get t.campaigns id) h)
    where
      go : (o : Option (CampaignRow F)) → RowIs Exists o → RowIs Q (Option.map f o)
      go none k = k
      go (some c) k = q c

  concluded_settles :
      (w : WorkInputs F) (id : String) (e : RunEnd) (t : Tables F)
      → w.finish_fault ≡ none
      → StateIs Exists id t
      → ((concluded w id e t).0 ≡ none) × StateIs Terminal id (concluded w id e t).1
  unfolding concluded finish_failed complete fail
  concluded_settles w id ran_well t n h = rw n (
    refl,
    written_is Terminal id (finished w.finished_at w.report) t (λ c. completed_or_cancelled c.state)
        h,
  )
  concluded_settles w id was_cancelled t n h = rw n (
    refl,
    written_is Terminal id (finished w.finished_at w.report) t (λ c. completed_or_cancelled c.state)
        h,
  )
  concluded_settles w id (ran_badly cause) t n h = rw n (
    refl,
    written_is Terminal id (broken w.finished_at cause w.report) t
        (λ c. failed_or_cancelled c.state) h,
  )

  launched_settles :
      (w : WorkInputs F) (id : String) (o : Option String) (t : Tables F)
      → w.finish_fault ≡ none
      → StateIs Exists id t
      → ((launched w id o t).0 ≡ none) × StateIs Terminal id (launched w id o t).1
  unfolding launched finish_failed fail
  launched_settles w id (some e) t n h = rw n (
    refl,
    written_is Terminal id (broken w.finished_at e none) t (λ c. failed_or_cancelled c.state) h,
  )
  launched_settles w id none t n h =
      concluded_settles w id w.run_end _ n
        (execute_all-keeps Exists Exists-Absorbing id w.meanwhile t h)

  work_at :
      (w : WorkInputs F) (id : String) (t : Tables F) (c : CampaignRow F)
      → get t.campaigns id ≡ some c
      → w.load_fault ≡ none
      → w.claim_fault ≡ none
      → work w id t ≡ claim_answered w id (mark_running none w.claimed_at id t)
  unfolding work loaded get_by_id found
  work_at w id t c e l k = rw (l, e, k) refl

  row_there :
      (id : String) (t : Tables F) (c : CampaignRow F)
      → get t.campaigns id ≡ some c
      → StateIs Exists id t
  row_there id t c e = rw e tt

  claimed_settles :
      (w : WorkInputs F) (id : String) (t : Tables F) (c : CampaignRow F)
      → get t.campaigns id ≡ some c
      → same c.state pending ≡ true
      → w.finish_fault ≡ none
      → ((claim_answered w id (mark_running none w.claimed_at id t)).0 ≡ none)
        × StateIs Terminal id (claim_answered w id (mark_running none w.claimed_at id t)).1
  unfolding claim_answered mark_running
  claimed_settles w id t c e p n =
      go (row_affected is_pending (get t.campaigns id)) (rw (e, p) refl)
    where
      t' : Tables F
      t' = (mark_running none w.claimed_at id t).1

      go :
          (b : Bool)
          → b ≡ true
          → ((claim_answered w id (ok b, t')).0 ≡ none)
            × StateIs Terminal id (claim_answered w id (ok b, t')).1
      go false q = absurd (ground arith)
      go true q =
          launched_settles w id w.factory_error t' n
            (written_is Exists id _ t (λ x. tt) (row_there id t c e))

  claim_misses :
      (now : ℕ) (id : String) (t : Tables F) (c : CampaignRow F)
      → get t.campaigns id ≡ some c
      → same c.state pending ≡ false
      → mark_running none now id t ≡ (ok false, t)
  unfolding mark_running
  claim_misses now id t c e p =
      ap (λ d. (ok (row_affected is_pending (get t.campaigns id)), record t { campaigns = d }))
        (update-same t.campaigns id c (where_test is_pending (claimed now)) e (rw p refl))
      ∙ rw (e, p) refl

  claim_hits :
      (now : ℕ) (id : String) (t : Tables F) (c : CampaignRow F)
      → get t.campaigns id ≡ some c
      → same c.state pending ≡ true
      → (mark_running none now id t).0 ≡ ok true
  unfolding mark_running
  claim_hits now id t c e p = rw (e, p) refl

  -- With a database that answers, an attempt at a campaign that is not pending changes nothing,
  -- and an attempt at a pending one leaves it in a terminal state, however the agent's run ends
  -- and whatever statements come between; neither reports an error, so neither is tried again.
  pub work_settles :
      (w : WorkInputs F) (id : String) (t : Tables F) (c : CampaignRow F)
      → get t.campaigns id ≡ some c
      → w.load_fault ≡ none
      → w.claim_fault ≡ none
      → w.finish_fault ≡ none
      → ((work w id t).0 ≡ none)
        × (if same c.state pending
            then StateIs Terminal id (work w id t).1
            else ((work w id t).1 ≡ t))
  unfolding claim_answered
  work_settles w id t c e l k n =
      rw (work_at w id t c e l k) (elim (Bool-cases (same c.state pending)) [
        | inl p ↦ rw p (claimed_settles w id t c e p n)
        | inr p ↦ rw (p, claim_misses w.claimed_at id t c e p) (refl, refl)
      ])
