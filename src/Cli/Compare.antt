-- ===== src/Cli/Compare.antt =====
-- The engine that the comparison recommends and the cell that it marks.
use mathlib.Core.Path.{ap₂}
use mathlib.Core.List.{append_assoc, append-nil}
use inferbolt.Base.{
  ℕ, zero, suc, ◌≡◌, refl, sym, ap, ◌∙◌, subst, inl, inr, true, false, Option, none, some, List, [],
  ◌∷◌, ◌++◌, map, length, length-append, arith, All, All-append, All-map, Bool-cases, if◌then◌else◌,
}
use inferbolt.Base.Float64.{Float64, IsOrdered}
use inferbolt.Jobs.Types.{Measurement}
use inferbolt.Cli.Table.{
  Column, tok_per_s, green, value, index_from, index_of, best_idx, mark_of, best_result,
  recommended,
}

module _ {F : Type 0} ⦃f : Float64 F⦄ where
  abbrev pub nth : List (Measurement F) → ℕ → Option (Measurement F)
  nth [] i = none
  nth (r ∷ results) zero = some r
  nth (r ∷ results) (suc i) = nth results i

  nth-append :
      (pre rest : List (Measurement F)) (r : Measurement F) (i : ℕ)
      → length pre ≡ i
      → nth (pre ++ r ∷ rest) i ≡ some r
  nth-append pre rest r i e = subst (λ n. nth (pre ++ r ∷ rest) n ≡ some r) e (here pre)
    where
      here : (p : List (Measurement F)) → nth (p ++ r ∷ rest) (length p) ≡ some r
      here [] = refl
      here (x ∷ p) = here p

  index_from-up :
      (best r : Measurement F) (rest : List (Measurement F)) (i k : ℕ)
      → f.lt best.tok_per_s r.tok_per_s ≡ true
      → index_from true i k best.tok_per_s (map (value tok_per_s) (r ∷ rest))
        ≡ index_from true (suc i) i r.tok_per_s (map (value tok_per_s) rest)
  unfolding index_from
  index_from-up best r rest i k h =
      ap₂ (λ n v. index_from true (suc i) n v (map (value tok_per_s) rest))
        (ap (λ b. if b then i else k) h) (ap (λ b. if b then r.tok_per_s else best.tok_per_s) h)

  best_result-up :
      (best r : Measurement F) (rest : List (Measurement F))
      → f.lt best.tok_per_s r.tok_per_s ≡ true
      → best_result best (r ∷ rest) ≡ best_result r rest
  unfolding best_result
  best_result-up best r rest h = ap (λ b. best_result (if b then r else best) rest) h

  index_from-stay :
      (best r : Measurement F) (rest : List (Measurement F)) (i k : ℕ)
      → f.lt best.tok_per_s r.tok_per_s ≡ false
      → index_from true i k best.tok_per_s (map (value tok_per_s) (r ∷ rest))
        ≡ index_from true (suc i) k best.tok_per_s (map (value tok_per_s) rest)
  unfolding index_from
  index_from-stay best r rest i k h =
      ap₂ (λ n v. index_from true (suc i) n v (map (value tok_per_s) rest))
        (ap (λ b. if b then i else k) h) (ap (λ b. if b then r.tok_per_s else best.tok_per_s) h)

  best_result-stay :
      (best r : Measurement F) (rest : List (Measurement F))
      → f.lt best.tok_per_s r.tok_per_s ≡ false
      → best_result best (r ∷ rest) ≡ best_result best rest
  unfolding best_result
  best_result-stay best r rest h = ap (λ b. best_result (if b then r else best) rest) h

  -- Both loops keep the same result.
  index_from-best_result :
      (pre rest : List (Measurement F)) (best : Measurement F) (i k : ℕ)
      → length pre ≡ i
      → nth (pre ++ rest) k ≡ some best
      → nth (pre ++ rest) (index_from true i k best.tok_per_s (map (value tok_per_s) rest))
        ≡ some (best_result best rest)
  unfolding index_from best_result
  index_from-best_result pre [] best i k e at = at
  index_from-best_result pre (r ∷ rest) best i k e at =
      let go : (b : Measurement F) (j : ℕ)
          → nth (pre ++ r ∷ rest) j ≡ some b
          → nth (pre ++ r ∷ rest)
              (index_from true (suc i) j b.tok_per_s (map (value tok_per_s) rest))
            ≡ some (best_result b rest) =
        λ b j there.
          subst
            (λ l.
              nth l (index_from true (suc i) j b.tok_per_s (map (value tok_per_s) rest))
              ≡ some (best_result b rest))
            (append_assoc pre (r ∷ []) rest)
            (index_from-best_result (pre ++ r ∷ []) rest b (suc i) j
              (ground (arith, e, length-append pre (r ∷ [])))
              (subst (λ l. nth l j ≡ some b) (sym (append_assoc pre (r ∷ []) rest)) there)) in
      elim (Bool-cases (f.lt best.tok_per_s r.tok_per_s)) [
        | inl h ↦
            ap (nth (pre ++ r ∷ rest)) (index_from-up best r rest i k h)
            ∙ go r i (nth-append pre rest r i e)
            ∙ sym (ap some (best_result-up best r rest h))
        | inr h ↦
            ap (nth (pre ++ r ∷ rest)) (index_from-stay best r rest i k h)
            ∙ go best k at
            ∙ sym (ap some (best_result-stay best r rest h))
      ]

  above :
      IsOrdered F
      → (best r x : Measurement F) → f.lt best.tok_per_s r.tok_per_s ≡ true
      → f.lt best.tok_per_s x.tok_per_s ≡ false
      → f.lt r.tok_per_s x.tok_per_s ≡ false
  above order best r x k lower = elim (Bool-cases (f.lt r.tok_per_s x.tok_per_s)) [
    | inl h ↦ absurd (ground (arith, lower, order.lt_trans _ _ _ k h))
    | inr h ↦ h
  ]

  -- No result is above the one that the loop ends with.
  best_result-max :
      (order : IsOrdered F) (best : Measurement F) (rest before : List (Measurement F))
      → All (λ r. f.lt best.tok_per_s r.tok_per_s ≡ false) before
      → All (λ r. f.lt (best_result best rest).tok_per_s r.tok_per_s ≡ false) (before ++ rest)
  unfolding best_result
  best_result-max order best [] before h = subst (All _) (sym (append-nil before)) h
  best_result-max order best (r ∷ rest) before h =
      let go : (b : Measurement F)
          → All (λ x. f.lt b.tok_per_s x.tok_per_s ≡ false) (before ++ r ∷ [])
          → All (λ x. f.lt (best_result b rest).tok_per_s x.tok_per_s ≡ false)
              (before ++ r ∷ rest) =
        λ b all.
          subst (All (λ x. f.lt (best_result b rest).tok_per_s x.tok_per_s ≡ false))
            (append_assoc before (r ∷ []) rest)
            (best_result-max order b rest (before ++ r ∷ []) all) in
      elim (Bool-cases (f.lt best.tok_per_s r.tok_per_s)) [
        | inl k ↦
            subst (λ m. All (λ x. f.lt m.tok_per_s x.tok_per_s ≡ false) (before ++ r ∷ rest))
              (sym (best_result-up best r rest k))
              (go r (
                All-append _ before (r ∷ [])
                  (All-map _ _ (λ x lower. above order best r x k lower) before h)
                  (order.lt_irrefl r.tok_per_s, tt)))
        | inr k ↦
            subst (λ m. All (λ x. f.lt m.tok_per_s x.tok_per_s ≡ false) (before ++ r ∷ rest))
              (sym (best_result-stay best r rest k))
              (go best (All-append _ before (r ∷ []) h (k, tt)))
      ]

  best_idx-green :
      (col : Column) (results : List (Measurement F))
      → mark_of results (best_idx col results) col ≡ green
  unfolding mark_of
  best_idx-green col results = ground arith

  -- The comparison recommends the result whose throughput is marked as the best, and no result has
  -- a higher one; with no result there is no recommendation. The order of the floats is one where
  -- no value is below itself and being below is transitive.
  pub recommended_lem :
      IsOrdered F
      → (r : Measurement F) (results : List (Measurement F))
      → (best : Measurement F) × (recommended (r ∷ results) ≡ some best)
        × (nth (r ∷ results) (best_idx tok_per_s (r ∷ results)) ≡ some best)
        × (mark_of (r ∷ results) (best_idx tok_per_s (r ∷ results)) tok_per_s ≡ green)
        × All (λ x. f.lt best.tok_per_s x.tok_per_s ≡ false) (r ∷ results)
  unfolding recommended best_idx index_of mark_of
  recommended_lem order r results = (
    best_result r results,
    refl,
    rw (order.lt_irrefl r.tok_per_s) (index_from-best_result (r ∷ []) results r 1 0 refl refl),
    best_idx-green tok_per_s (r ∷ results),
    best_result-max order r results (r ∷ []) (order.lt_irrefl r.tok_per_s, tt),
  )
