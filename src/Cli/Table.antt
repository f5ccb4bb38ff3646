-- ===== src/Cli/Table.antt =====
-- cmd/inferbolt/main.go: which cells `printComparisonTable` marks, and which engine it names. The
-- texts of the cells are not modelled.
use inferbolt.Base.{
  ℕ, suc, Bool, true, false, Option, none, some, List, [], ◌∷◌, map, eqb, if◌then◌else◌,
}
use inferbolt.Base.Float64.{Float64}
use inferbolt.Jobs.Types.{Measurement}

-- The six columns of numbers.
pub data Column : Type 0 where
  ttft_p50 ttft_p99 tok_per_s gpu_mem cost kv_hit : Column

abbrev pub higher_better : Column → Bool
higher_better tok_per_s = true
higher_better kv_hit = true
higher_better _ = false

pub data Mark : Type 0 where
  plain green red : Mark

module _ {F : Type 0} ⦃f : Float64 F⦄ where
  abbrev pub value : Column → Measurement F → F
  value ttft_p50 r = r.ttft_p50_ms
  value ttft_p99 r = r.ttft_p99_ms
  value tok_per_s r = r.tok_per_s
  value gpu_mem r = f.of_int r.gpu_mem_mb
  value cost r = r.cost_per_mtok
  value kv_hit r = r.kv_cache_hit

  -- Whether a value is above another, or below where lower is sought.
  abbrev pub beyond : Bool → F → F → Bool
  beyond up v best = if up then f.lt best v else f.lt v best

  -- The loop from index `i` on, with the best index so far and its value.
  unfoldable pub index_from : Bool → ℕ → ℕ → F → List F → ℕ
  index_from up i best at [] = best
  index_from up i best at (v ∷ vals) =
      index_from up (suc i) (if beyond up v at then i else best) (if beyond up v at then v else at)
        vals

  unfoldable pub index_of : Bool → List F → ℕ
  unfolding index_from
  index_of up [] = 0
  index_of up (v ∷ vals) = index_from up 0 0 v (v ∷ vals)

  unfoldable pub best_idx : Column → List (Measurement F) → ℕ
  unfolding index_of
  best_idx col results = index_of (higher_better col) (map (value col) results)

  unfoldable pub worst_idx : Column → List (Measurement F) → ℕ
  unfolding index_of
  worst_idx col results =
      index_of (if higher_better col then false else true) (map (value col) results)

  unfoldable pub mark_of : List (Measurement F) → ℕ → Column → Mark
  unfolding best_idx worst_idx
  mark_of results i col =
      if eqb i (best_idx col results)
      then green
      else if eqb i (worst_idx col results)
      then red
      else plain

  -- The last loop.
  unfoldable pub best_result : Measurement F → List (Measurement F) → Measurement F
  best_result best [] = best
  best_result best (r ∷ results) =
      best_result (if f.lt best.tok_per_s r.tok_per_s then r else best) results

  unfoldable pub recommended : List (Measurement F) → Option (Measurement F)
  unfolding best_result
  recommended [] = none
  recommended (r ∷ results) = some (best_result r results)
