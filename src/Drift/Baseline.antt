-- ===== src/Drift/Baseline.antt =====
-- internal/drift/baseline.go: the statistics of a baseline, and the table they are kept in.
use mathlib.Core.List.{map}
use inferbolt.Base.{
  ℕ, zero, suc, ◌-◌, ◌/◌, ◌%◌, String, Bool, ◌&&◌, Option, none, some, List, [], ◌∷◌, ◌==◌, length,
  ltb, leb, eqb, concat, if◌then◌else◌,
}
use inferbolt.Base.Int.{ℤ, pos, negsuc, ltb_ℤ}
use inferbolt.Base.Float64.{Float64}
use inferbolt.Base.Results.{Result, ok, err}
use inferbolt.Jobs.Types.{Measurement}

pub record Baseline (F : Type 0) : Type 0 where
  pub engine : String
  pub model : String
  pub ttft_p50_ms : F
  pub ttft_p99_ms : F
  pub tok_per_sec : F
  pub gpu_mem_mb : ℤ
  pub sample_count : ℕ
  pub set_at : ℕ

module _ {F : Type 0} where
  -- `PRIMARY KEY (engine, model)`
  unfoldable pub is_for : String → String → Baseline F → Bool
  is_for engine model b = (b.engine == engine) && (b.model == model)

  -- The upsert.
  unfoldable pub upsert : Baseline F → List (Baseline F) → List (Baseline F)
  upsert b [] = b ∷ []
  upsert b (x ∷ rows) =
      let rest = upsert b rows in if is_for b.engine b.model x then b ∷ rows else x ∷ rest

  unfoldable pub set_baseline :
      Option String → Baseline F → List (Baseline F) → Option String × List (Baseline F)
  set_baseline (some fault) b rows = (some (concat "set baseline: " fault), rows)
  set_baseline none b rows = (none, upsert b rows)

  unfoldable pub find_baseline : String → String → List (Baseline F) → Option (Baseline F)
  find_baseline engine model [] = none
  find_baseline engine model (x ∷ rows) =
      let rest = find_baseline engine model rows in if is_for engine model x then some x else rest

  -- No row is no error.
  unfoldable pub get_baseline :
      Option String → String → String → List (Baseline F) → Result (Option (Baseline F))
  get_baseline (some fault) engine model rows = err (concat "get baseline: " fault)
  get_baseline none engine model rows = ok (find_baseline engine model rows)

-- `computeMaxInt64`
unfoldable pub max_from : ℤ → List ℤ → ℤ
max_from m [] = m
max_from m (v ∷ values) = max_from (if ltb_ℤ m v then v else m) values

unfoldable pub compute_max_int64 : List ℤ → ℤ
unfolding max_from
compute_max_int64 [] = pos 0
compute_max_int64 (v ∷ values) = max_from v values

module _ {F : Type 0} ⦃f : Float64 F⦄ where
  abbrev pub zero_float : F
  zero_float = f.decimal 0 0

  -- `sort.Float64s`, for values that compare (none is NaN), as a sort by insertion.
  unfoldable pub insert_float : F → List F → List F
  insert_float x [] = x ∷ []
  insert_float x (y ∷ ys) =
      let rest = insert_float x ys in if f.le x y then x ∷ y ∷ ys else y ∷ rest

  unfoldable pub sorted : List F → List F
  unfolding insert_float
  sorted [] = []
  sorted (x ∷ xs) = insert_float x (sorted xs)

  -- `values[i]`; the indices below stay within the list.
  unfoldable pub at_index : List F → ℕ → F
  at_index [] i = zero_float
  at_index (x ∷ xs) zero = x
  at_index (x ∷ xs) (suc i) = at_index xs i

  unfoldable pub compute_median : List F → F
  unfolding sorted at_index
  compute_median values =
      let s : List F = sorted values in
      let n : ℕ = length s in
      if eqb (n % 2) 0
      then f.div (f.add (at_index s (n / 2 - 1)) (at_index s (n / 2))) (f.decimal 2 0)
      else at_index s (n / 2)

  -- Between the element at `lower` and the one behind it. `lower` may be negative for a negative
  -- percentile only.
  unfoldable pub interpolated : List F → F → ℤ → F
  unfolding at_index
  interpolated s index (negsuc lower) =
      if leb (length s) 0 then at_index s (length s - 1) else at_index s 0
  interpolated s index (pos lower) =
      if leb (length s) (suc lower)
      then at_index s (length s - 1)
      else let weight : F = f.sub index (f.of_int (pos lower)) in
        f.add (f.mul (at_index s lower) (f.sub (f.decimal 1 0) weight))
          (f.mul (at_index s (suc lower)) weight)

  unfoldable pub compute_percentile : List F → F → F
  unfolding interpolated sorted
  compute_percentile values percentile =
      let s : List F = sorted values in
      let index : F = f.mul percentile (f.of_int (pos (length s - 1))) in
      interpolated s index (f.trunc index)

  unfoldable pub sum_from : F → List F → F
  sum_from sum [] = sum
  sum_from sum (v ∷ values) = sum_from (f.add sum v) values

  unfoldable pub compute_mean : List F → F
  unfolding sum_from
  compute_mean [] = zero_float
  compute_mean (v ∷ values) =
      f.div (sum_from zero_float (v ∷ values)) (f.of_int (pos (suc (length values))))

  unfoldable pub compute_from_results :
      ℕ → String → String → List (Measurement F) → Option (Baseline F)
  unfolding compute_median compute_percentile compute_mean compute_max_int64
  compute_from_results now engine model results =
      if ltb (length results) 5
      then none
      else some (record {
        engine = engine;
        model = model;
        ttft_p50_ms = compute_median (map (λ r. r.ttft_p50_ms) results);
        ttft_p99_ms = compute_percentile (map (λ r. r.ttft_p99_ms) results) (f.decimal 95 2);
        tok_per_sec = compute_mean (map (λ r. r.tok_per_s) results);
        gpu_mem_mb = compute_max_int64 (map (λ r. r.gpu_mem_mb) results);
        sample_count = length results;
        set_at = now;
      })
