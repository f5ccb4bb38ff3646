-- ===== src/Agent/Best.antt =====
-- What the mechanical pick promises.
use inferbolt.Base.{
  ◌≡◌, refl, ◌∙◌, ◌⊎◌, inl, inr, true, false, Option, none, some, List, [], ◌∷◌, arith, All,
}
use inferbolt.Base.Float64.{Float64, IsOrdered}
use inferbolt.Agent.Types.{Trial}
use inferbolt.Agent.Conclude.{usable, cheaper, better, best_of, best_trial}

module _ {F : Type 0} ⦃f : Float64 F⦄ where
  -- No usable trial of the list is cheaper than the pick; without one, none is usable.
  abbrev pub Undercut : Option (Trial F) → Trial F → Type 0
  Undercut none t = usable t ≡ false
  Undercut (some best) t =
      (usable t ≡ false) ⊎ (f.lt t.result.cost_per_mtok best.result.cost_per_mtok ≡ false)

  abbrev pub Member : Trial F → List (Trial F) → Type 0
  Member x [] = ⊥
  Member x (t ∷ trials) = (t ≡ x) ⊎ Member x trials

  abbrev pub Among : Option (Trial F) → List (Trial F) → Type 0
  Among none trials = Unit
  Among (some best) trials = Member best trials

  Among-tail :
      (r : Option (Trial F)) (t : Trial F) (trials : List (Trial F))
      → Among r trials
      → Among r (t ∷ trials)
  Among-tail none t trials h = tt
  Among-tail (some best) t trials h = inr h

  Among-head :
      (r : Option (Trial F)) (t : Trial F) (trials : List (Trial F))
      → r ≡ some t
      → Among r (t ∷ trials)
  Among-head r t trials e = rw e (inl refl)

  abbrev pub IsUsable : Option (Trial F) → Type 0
  IsUsable none = Unit
  IsUsable (some best) = usable best ≡ true

  better-IsUsable :
      (t : Trial F) (best : Option (Trial F)) → IsUsable best → IsUsable (better t best)
  unfolding better
  better-IsUsable t none h = ground arith
  better-IsUsable t (some best) h = ground arith

  better-Undercut_self :
      IsOrdered F → (t : Trial F) (best : Option (Trial F)) → Undercut (better t best) t
  unfolding better cheaper
  better-Undercut_self o t none = ground (arith, o.lt_irrefl t.result.cost_per_mtok)
  better-Undercut_self o t (some best) = ground (arith, o.lt_irrefl t.result.cost_per_mtok)

  better-Undercut :
      IsOrdered F
      → (t x : Trial F) (best : Option (Trial F)) → Undercut best x
      → Undercut (better t best) x
  unfolding better cheaper
  better-Undercut o t x none h = ground arith
  better-Undercut o t x (some best) h =
      ground
        (arith, o.lt_trans x.result.cost_per_mtok t.result.cost_per_mtok best.result.cost_per_mtok)

  better-Among :
      (t : Trial F) (best : Option (Trial F)) → (better t best ≡ best) ⊎ (better t best ≡ some t)
  unfolding better
  better-Among t best = ground arith

  best_of-IsUsable :
      (best : Option (Trial F)) (trials : List (Trial F))
      → IsUsable best
      → IsUsable (best_of best trials)
  unfolding best_of
  best_of-IsUsable best [] h = h
  best_of-IsUsable best (t ∷ trials) h =
      best_of-IsUsable (better t best) trials (better-IsUsable t best h)

  best_of-Undercut :
      IsOrdered F
      → (best : Option (Trial F)) (trials : List (Trial F)) (x : Trial F) → Undercut best x
      → Undercut (best_of best trials) x
  unfolding best_of
  best_of-Undercut o best [] x h = h
  best_of-Undercut o best (t ∷ trials) x h =
      best_of-Undercut o (better t best) trials x (better-Undercut o t x best h)

  best_of-All :
      IsOrdered F
      → (best : Option (Trial F)) (trials : List (Trial F))
      → All (Undercut (best_of best trials)) trials
  unfolding best_of
  best_of-All o best [] = tt
  best_of-All o best (t ∷ trials) = (
    best_of-Undercut o (better t best) trials t (better-Undercut_self o t best),
    best_of-All o (better t best) trials,
  )

  best_of-Among :
      (best : Option (Trial F)) (trials : List (Trial F))
      → (best_of best trials ≡ best) ⊎ Among (best_of best trials) trials
  unfolding best_of
  best_of-Among best [] = inl refl
  best_of-Among best (t ∷ trials) = elim (best_of-Among (better t best) trials) [
    | inl e ↦ elim (better-Among t best) [
      | inl same ↦ inl (e ∙ same)
      | inr new ↦ inr (Among-head _ t trials (e ∙ new))
    ]
    | inr h ↦ inr (Among-tail _ t trials h)
  ]

  pub best_trial-Among : (trials : List (Trial F)) → Among (best_trial trials) trials
  unfolding best_trial
  best_trial-Among trials = elim (best_of-Among none trials) [ inl e ↦ rw e tt | inr h ↦ h ]

  pub best_trial-IsUsable : (trials : List (Trial F)) → IsUsable (best_trial trials)
  unfolding best_trial
  best_trial-IsUsable trials = best_of-IsUsable none trials tt

  -- The trial that a campaign without a conclusion reports is one of its trials, is usable, and no
  -- usable trial is cheaper, in the comparison of floats; when it reports none, none is usable.
  pub best_trial_lem :
      IsOrdered F
      → (trials : List (Trial F))
      → IsUsable (best_trial trials)
        × Among (best_trial trials) trials
        × All (Undercut (best_trial trials)) trials
  unfolding best_trial
  best_trial_lem o trials =
      (best_trial-IsUsable trials, best_trial-Among trials, best_of-All o none trials)
