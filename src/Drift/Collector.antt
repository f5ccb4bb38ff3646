-- ===== src/Drift/Collector.antt =====
-- cmd/collector/main.go: the collector's handlers. A response is its status and its message, or
-- what the body shows.
use inferbolt.Base.{
  ℕ, ◌-◌, String, not, ◌||◌, Option, none, some, List, ◌==◌, ◌⊎◌, inl, inr, keep, if◌then◌else◌,
}
use inferbolt.Base.Results.{Result, ok, err}
use inferbolt.Jobs.Types.{Measurement}
use inferbolt.Metrics.Store.{BenchRow, query_by_engine_and_model}
use inferbolt.Drift.Baseline.{Baseline, is_for, get_baseline}
use inferbolt.Gateway.Handlers.{Response, respond}

abbrev pub parameters_missing : Response
parameters_missing = respond 400 "engine and model parameters are required"

module _ {F : Type 0} where
  abbrev pub measured_or : Result (List (Measurement F)) → Response ⊎ List (Measurement F)
  measured_or (ok results) = inr results
  measured_or (err e) = inl (respond 500 "failed to query metrics")

  abbrev pub measured_since :
      Option String
      → String
      → String
      → Option ℕ
      → List (BenchRow F)
      → Response ⊎ List (Measurement F)
  measured_since fault engine model none rows =
      inl (respond 400 "invalid since format (use RFC3339)")
  measured_since fault engine model (some since) rows =
      measured_or (query_by_engine_and_model fault engine model since rows)

  -- `parse` is `time.Parse`; without a time it is a day ago.
  unfoldable pub metrics_handler :
      Option String
      → (String → Option ℕ)
      → ℕ
      → String
      → String
      → String
      → List (BenchRow F)
      → Response ⊎ List (Measurement F)
  metrics_handler fault parse now engine model since rows =
      if (engine == "") || (model == "")
      then inl parameters_missing
      else measured_since fault engine model
          (if since == "" then some (now - 86400000000000) else parse since) rows

  abbrev pub baseline_or : Result (Option (Baseline F)) → Response ⊎ Baseline F
  baseline_or (err e) = inl (respond 500 "failed to get baseline")
  baseline_or (ok none) = inl (respond 404 "baseline not found")
  baseline_or (ok (some b)) = inr b

  unfoldable pub baselines_handler :
      Option String → String → String → List (Baseline F) → Response ⊎ Baseline F
  baselines_handler fault engine model rows =
      if (engine == "") || (model == "")
      then inl parameters_missing
      else baseline_or (get_baseline fault engine model rows)

  abbrev pub deleted :
      Option String → String → String → List (Baseline F) → Response × List (Baseline F)
  deleted (some e) engine model rows = (respond 500 "failed to delete baseline", rows)
  deleted none engine model rows = (respond 200 "", keep (λ b. not (is_for engine model b)) rows)

  -- A request is the engine and the model that it names, or the decoder's error.
  unfoldable pub reset_baseline_handler :
      Option String → Result (String × String) → List (Baseline F) → Response × List (Baseline F)
  reset_baseline_handler fault (err e) rows = (respond 400 "invalid request body", rows)
  reset_baseline_handler fault (ok (engine, model)) rows =
      if (engine == "") || (model == "")
      then (respond 400 "engine and model are required", rows)
      else deleted fault engine model rows
