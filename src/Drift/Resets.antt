-- ===== src/Drift/Resets.antt =====
-- What is left of the baselines after a reset.
use inferbolt.Base.{
  String, true, false, not, ◌||◌, ◌≡◌, ◌≢◌, refl, ap, ◌⊎◌, inl, inr, Option, none, some, List, [],
  ◌∷◌, ◌==◌, keep, arith, eq_iff, Bool-cases,
}
use inferbolt.Base.Results.{ok}
use inferbolt.Drift.Baseline.{Baseline, is_for, find_baseline, get_baseline}
use inferbolt.Drift.Collector.{reset_baseline_handler, deleted}
use inferbolt.Gateway.Handlers.{respond}

module _ {F : Type 0} where
  find-deleted :
      (engine model : String) (rows : List (Baseline F))
      → find_baseline engine model (keep (λ b. not (is_for engine model b)) rows) ≡ none
  unfolding find_baseline keep
  find-deleted engine model [] = refl
  find-deleted engine model (b ∷ rows) = ground (arith, find-deleted engine model rows)

  apart :
      (engine model other_engine other_model : String) (b : Baseline F)
      → (engine ≢ other_engine) ⊎ (model ≢ other_model)
      → is_for other_engine other_model b ≡ true
      → is_for engine model b ≡ false
  unfolding is_for
  apart engine model other_engine other_model b ne h = ground (
    arith,
    eq_iff b.engine engine,
    eq_iff b.model model,
    eq_iff b.engine other_engine,
    eq_iff b.model other_model,
  )

  find-others :
      (engine model other_engine other_model : String) (rows : List (Baseline F))
      → (engine ≢ other_engine) ⊎ (model ≢ other_model)
      → find_baseline other_engine other_model (keep (λ b. not (is_for engine model b)) rows)
        ≡ find_baseline other_engine other_model rows
  unfolding find_baseline keep
  find-others engine model other_engine other_model [] ne = refl
  find-others engine model other_engine other_model (b ∷ rows) ne = ground (
    arith,
    find-others engine model other_engine other_model rows ne,
    apart engine model other_engine other_model b ne,
  )

  -- After a reset that is answered with 200 the pair has no baseline, and every other pair has the
  -- one it had; a reset that is answered otherwise leaves the table.
  pub reset_baseline_handler_lem :
      (fault : Option String) (engine model other_engine other_model : String)
      (rows : List (Baseline F))
      → ((reset_baseline_handler fault (ok (engine, model)) rows).0 ≡ respond 200 ""
          → (get_baseline none engine model
                (reset_baseline_handler fault (ok (engine, model)) rows).1
              ≡ ok none)
            × ((engine ≢ other_engine) ⊎ (model ≢ other_model)
                → get_baseline none other_engine other_model
                    (reset_baseline_handler fault (ok (engine, model)) rows).1
                  ≡ get_baseline none other_engine other_model rows))
        × ((reset_baseline_handler fault (ok (engine, model)) rows).0 ≢ respond 200 ""
            → (reset_baseline_handler fault (ok (engine, model)) rows).1 ≡ rows)
  unfolding reset_baseline_handler get_baseline
  reset_baseline_handler_lem fault engine model other_engine other_model rows =
      elim (Bool-cases ((engine == "") || (model == ""))) [
        | inl h ↦ rw h (λ k. absurd (ground (arith, ap (λ r. r.status) k)), λ k. refl)
        | inr h ↦ rw h (go fault)
      ]
    where
      go :
          (f : Option String)
          → ((deleted f engine model rows).0 ≡ respond 200 ""
              → (ok (find_baseline engine model (deleted f engine model rows).1) ≡ ok none)
                × ((engine ≢ other_engine) ⊎ (model ≢ other_model)
                    → ok (find_baseline other_engine other_model (deleted f engine model rows).1)
                      ≡ ok (find_baseline other_engine other_model rows)))
            × ((deleted f engine model rows).0 ≢ respond 200 ""
                → (deleted f engine model rows).1 ≡ rows)
      go (some e) = (λ k. absurd (ground (arith, ap (λ r. r.status) k)), λ k. refl)
      go none = (
        λ k. (
          ap ok (find-deleted engine model rows),
          λ ne. ap ok (find-others engine model other_engine other_model rows ne),
        ),
        λ k. absurd (k refl),
      )
