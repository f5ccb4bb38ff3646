-- ===== src/Drift/Statistics.antt =====
-- The greatest value of a baseline, and what reading one back finds.
use inferbolt.Base.{
  String, ◌≡◌, refl, ◌⊎◌, inl, inr, none, some, List, [], ◌∷◌, arith, eq_iff, ◌∙◌, All, Bool-cases,
  if◌then◌else◌,
}
use inferbolt.Base.Int.{ℤ, ltb_ℤ, ◌≤ℤ◌}
use inferbolt.Base.Results.{ok}
use inferbolt.Drift.Baseline.{
  Baseline, is_for, upsert, set_baseline, find_baseline, get_baseline, max_from, compute_max_int64,
}

abbrev pub Among : ℤ → List ℤ → Type 0
Among m [] = ⊥
Among m (v ∷ values) = (m ≡ v) ⊎ Among m values

max_from_le : (m : ℤ) (values : List ℤ) → m ≤ℤ max_from m values
unfolding max_from
max_from_le m [] = ground arith
max_from_le m (v ∷ values) = ground (arith, max_from_le v values, max_from_le m values)

max_from-All : (m : ℤ) (values : List ℤ) → All (λ v. v ≤ℤ max_from m values) values
unfolding max_from
max_from-All m [] = tt
max_from-All m (v ∷ values) = (
  ground (arith, max_from_le (if ltb_ℤ m v then v else m) values),
  max_from-All (if ltb_ℤ m v then v else m) values,
)

picked : (m v : ℤ) → ((if ltb_ℤ m v then v else m) ≡ m) ⊎ ((if ltb_ℤ m v then v else m) ≡ v)
picked m v = elim (Bool-cases (ltb_ℤ m v)) [ inl h ↦ inr (rw h refl) | inr h ↦ inl (rw h refl) ]

max_from-Among :
    (m : ℤ) (values : List ℤ) → (max_from m values ≡ m) ⊎ Among (max_from m values) values
unfolding max_from
max_from-Among m [] = inl refl
max_from-Among m (v ∷ values) = elim (max_from-Among (if ltb_ℤ m v then v else m) values) [
  | inl e ↦ elim (picked m v) [ inl q ↦ inl (e ∙ q) | inr q ↦ inr (inl (e ∙ q)) ]
  | inr k ↦ inr (inr k)
]

-- The memory of a baseline is one of the measured values and none is greater.
compute_max_int64_lem :
    (v : ℤ) (values : List ℤ)
    → Among (compute_max_int64 (v ∷ values)) (v ∷ values)
      × All (λ x. x ≤ℤ compute_max_int64 (v ∷ values)) (v ∷ values)
unfolding compute_max_int64
compute_max_int64_lem v values =
    (max_from-Among v values, (max_from_le v values, max_from-All v values))

module _ {F : Type 0} where
  find-upsert :
      (b : Baseline F) (rows : List (Baseline F)) (engine model : String)
      → find_baseline engine model (upsert b rows)
        ≡ (if is_for engine model b then some b else find_baseline engine model rows)
  unfolding find_baseline upsert is_for
  find-upsert b [] engine model = refl
  find-upsert b (x ∷ rows) engine model = ground (
    arith,
    eq_iff b.engine engine,
    eq_iff b.model model,
    eq_iff x.engine b.engine,
    eq_iff x.model b.model,
    eq_iff x.engine engine,
    eq_iff x.model model,
    find-upsert b rows engine model,
  )

  -- A baseline that was set is what its engine and model then have; those of others are as they
  -- were.
  pub get_baseline-set_baseline :
      (b : Baseline F) (rows : List (Baseline F)) (engine model : String)
      → get_baseline none engine model (set_baseline none b rows).1
        ≡ (if is_for engine model b then ok (some b) else get_baseline none engine model rows)
  unfolding get_baseline set_baseline
  get_baseline-set_baseline b rows engine model =
      rw (find-upsert b rows engine model)
        (elim (Bool-cases (is_for engine model b)) [ inl h ↦ rw h refl | inr h ↦ rw h refl ])
