-- ===== src/Campaigns/Claims.antt =====
-- What the statements on a campaign's row promise under any order of calls.
use mathlib.Core.Option
use inferbolt.Base.{
  ℕ, String, ◌≡◌, refl, inl, inr, Bool, true, false, Option, none, some, List, ap, sym, ◌∙◌, [],
  ◌∷◌, ◌==◌, arith, eq_iff, ==_self, Bool-cases, subst,
}
use inferbolt.Base.Maps.{get, update, get-put, get-update}
use inferbolt.Base.Results.{ok, ok-injective}
use inferbolt.Agent.Types.{Report, Event}
use inferbolt.Campaigns.Rows.{
  CampaignState, pending, running, completed, failed, cancelled, same, CampaignRow,
}
use inferbolt.Campaigns.Store.{
  Tables, create, mark_running, complete, fail, cancel, append_event, unless_cancelled, cancellable,
  is_pending, claimed, finished, broken, called_off, where_test, row_affected, new_row, created,
}

-- A statement that the database carries out, by whichever process.
pub data Statement (F : Type 0) : Type 0 where
  creates : CampaignRow F → Statement F
  claims : ℕ → String → Statement F
  completes : ℕ → String → Option (Report F) → Statement F
  fails : ℕ → String → String → Option (Report F) → Statement F
  cancels : ℕ → String → String → Statement F
  appends : ℕ → String → Event F → Statement F

-- The states that no statement leaves for one outside `Q`.
pub record Absorbing (Q : CampaignState → Type 0) : Type 0 where
  pub on_claim : Q pending → Q running
  pub on_complete : (s : CampaignState) → Q s → Q (unless_cancelled completed s)
  pub on_fail : (s : CampaignState) → Q s → Q (unless_cancelled failed s)
  pub on_cancel : (s : CampaignState) → Q s → Q cancelled

same_pending : (s : CampaignState) → same s pending ≡ true → s ≡ pending
unfolding same
same_pending pending h = refl
same_pending running h = absurd (ground arith)
same_pending completed h = absurd (ground arith)
same_pending failed h = absurd (ground arith)
same_pending cancelled h = absurd (ground arith)

module _ {F : Type 0} where
  abbrev execute : Statement F → Tables F → Tables F
  execute (creates c) t = (create none c t).1
  execute (claims now id) t = (mark_running none now id t).1
  execute (completes now id report) t = (complete none now id report t).1
  execute (fails now id msg report) t = (fail none now id msg report t).1
  execute (cancels now id tenant) t = (cancel none now id tenant t).1
  execute (appends now id e) t = (append_event none now id e t).1

  abbrev pub execute_all : List (Statement F) → Tables F → Tables F
  execute_all [] t = t
  execute_all (s ∷ rest) t = execute_all rest (execute s t)

  -- The row exists, and its state is one that `Q` allows.
  abbrev pub RowIs : (CampaignState → Type 0) → Option (CampaignRow F) → Type 0
  RowIs Q none = ⊥
  RowIs Q (some c) = Q c.state

  abbrev pub StateIs : (CampaignState → Type 0) → String → Tables F → Type 0
  StateIs Q id t = RowIs Q (get t.campaigns id)

  module _ (Q : CampaignState → Type 0) where
    RowIs-map :
        (f : CampaignRow F → CampaignRow F) (o : Option (CampaignRow F))
        → ((c : CampaignRow F) → Q c.state → Q (f c).state)
        → RowIs Q o
        → RowIs Q (Option.map f o)
    RowIs-map f none keep h = h
    RowIs-map f (some c) keep h = keep c h

    StateIs-update :
        (id k : String) (f : CampaignRow F → CampaignRow F) (t : Tables F)
        → ((c : CampaignRow F) → Q c.state → Q (f c).state)
        → StateIs Q id t
        → StateIs Q id (record t { campaigns = update t.campaigns k f })
    StateIs-update id k f t keep h = elim (Bool-cases (k == id)) [
      | inl e ↦ rw (get-update t.campaigns k id f, e) (RowIs-map f _ keep h)
      | inr e ↦ rw (get-update t.campaigns k id f, e) h
    ]

    where_test-keeps :
        (test : CampaignRow F → Bool) (write : CampaignRow F → CampaignRow F) (c : CampaignRow F)
        → (test c ≡ true → Q c.state → Q (write c).state)
        → Q c.state
        → Q (where_test test write c).state
    where_test-keeps test write c keep h = elim (Bool-cases (test c)) [
      | inl e ↦ rw e (keep e h)
      | inr e ↦ rw e h
    ]

    create-keeps :
        (id : String) (c : CampaignRow F) (t : Tables F) (o : Option (CampaignRow F))
        → get t.campaigns c.campaign_id ≡ o
        → StateIs Q id t
        → StateIs Q id (created (new_row c) o t).1
    unfolding created
    create-keeps id c t (some old) e h = h
    create-keeps id c t none e h = elim (Bool-cases (c.campaign_id == id)) [
      | inl k ↦
          absurd
            (subst (RowIs Q) (ap (get t.campaigns) (sym ((eq_iff c.campaign_id id).0 k)) ∙ e) h)
      | inr k ↦ rw (get-put t.campaigns c.campaign_id id (new_row c), k) h
    ]

    execute-keeps :
        Absorbing Q
        → (id : String) (s : Statement F) (t : Tables F) → StateIs Q id t
        → StateIs Q id (execute s t)
    unfolding create mark_running complete fail cancel append_event
    execute-keeps q id (creates c) t h = create-keeps id c t _ refl h
    execute-keeps q id (claims now k) t h =
        StateIs-update id k _ t
          (λ c.
            where_test-keeps is_pending (claimed now) c
              (λ e w. q.on_claim (subst Q (same_pending c.state e) w)))
          h
    execute-keeps q id (completes now k report) t h =
        StateIs-update id k (finished now report) t (λ c. q.on_complete c.state) h
    execute-keeps q id (fails now k msg report) t h =
        StateIs-update id k (broken now msg report) t (λ c. q.on_fail c.state) h
    execute-keeps q id (cancels now k tenant) t h =
        StateIs-update id k _ t
          (λ c. where_test-keeps (cancellable tenant) (called_off now) c (λ e. q.on_cancel c.state))
          h
    execute-keeps q id (appends now k e) t h = h

    pub execute_all-keeps :
        Absorbing Q
        → (id : String) (ss : List (Statement F)) (t : Tables F) → StateIs Q id t
        → StateIs Q id (execute_all ss t)
    execute_all-keeps q id [] t h = h
    execute_all-keeps q id (s ∷ rest) t h =
        execute_all-keeps q id rest (execute s t) (execute-keeps q id s t h)

abbrev pub Cancelled : CampaignState → Type 0
Cancelled s = same s cancelled ≡ true

abbrev Claimed : CampaignState → Type 0
Claimed s = same s pending ≡ false

Cancelled-Absorbing : Absorbing Cancelled
unfolding same unless_cancelled
Cancelled-Absorbing = record {
  on_claim = λ h. absurd (ground arith);
  on_complete = λ s h. ground arith;
  on_fail = λ s h. ground arith;
  on_cancel = λ s h. refl;
}

Claimed-Absorbing : Absorbing Claimed
unfolding same unless_cancelled
Claimed-Absorbing = record {
  on_claim = λ h. refl;
  on_complete = λ s h. ground arith;
  on_fail = λ s h. ground arith;
  on_cancel = λ s h. refl;
}

module _ {F : Type 0} where
  -- Whatever statements follow, in any order, a cancelled campaign stays cancelled.
  pub execute_all-Cancelled :
      (id : String) (ss : List (Statement F)) (t : Tables F)
      → StateIs Cancelled id t
      → StateIs Cancelled id (execute_all ss t)
  execute_all-Cancelled id ss t h = execute_all-keeps Cancelled Cancelled-Absorbing id ss t h

  claim_fails :
      (now : ℕ) (id : String) (t : Tables F)
      → StateIs Claimed id t
      → (mark_running none now id t).0 ≡ ok false
  unfolding mark_running
  claim_fails now id t h = go (get t.campaigns id) h
    where
      go :
          (o : Option (CampaignRow F)) → RowIs Claimed o → ok (row_affected is_pending o) ≡ ok false
      go none k = absurd k
      go (some c) k = ap ok k

  claim_claims :
      (now : ℕ) (id : String) (t : Tables F)
      → (mark_running none now id t).0 ≡ ok true
      → StateIs Claimed id (mark_running none now id t).1
  unfolding mark_running same
  claim_claims now id t h =
      rw (get-update t.campaigns id id (where_test is_pending (claimed now)), ==_self id)
        (go (get t.campaigns id) (ok-injective h))
    where
      go :
          (o : Option (CampaignRow F))
          → row_affected is_pending o ≡ true
          → RowIs Claimed (Option.map (where_test is_pending (claimed now)) o)
      go none k = absurd (ground arith)
      go (some c) k = rw k refl

  -- A campaign that one process claimed is not claimed again, whatever statements come between.
  pub claimed_once :
      (now later : ℕ) (id : String) (ss : List (Statement F)) (t : Tables F)
      → (mark_running none now id t).0 ≡ ok true
      → (mark_running none later id (execute_all ss (mark_running none now id t).1)).0 ≡ ok false
  claimed_once now later id ss t h =
      claim_fails later id _
        (execute_all-keeps Claimed Claimed-Absorbing id ss _ (claim_claims now id t h))
