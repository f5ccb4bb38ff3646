-- ===== src/Drift/Detector.antt =====
-- internal/drift/detector.go: comparing what was measured lately with the baseline.
use inferbolt.Base.{
  ℕ, String, ◌||◌, Option, none, some, List, [], ◌∷◌, ◌++◌, ◌==◌, length, ltb, concat,
  if◌then◌else◌,
}
use inferbolt.Base.Int.{ℤ, pos, ltb_ℤ}
use inferbolt.Base.Float64.{Float64}
use inferbolt.Base.Results.{Result, ok, err}
use inferbolt.Jobs.Types.{Measurement}
use inferbolt.Drift.Baseline.{
  Baseline, zero_float, set_baseline, get_baseline, compute_from_results,
}

pub record DriftAlert (F : Type 0) : Type 0 where
  pub engine : String
  pub model : String
  pub metric : String
  pub baseline_value : F
  pub current_value : F
  pub deviation_pct : F
  pub severity : String
  pub detected_at : ℕ

pub record DetectorConfig (F : Type 0) : Type 0 where
  pub warning_threshold_pct : F
  pub critical_threshold_pct : F
  pub min_samples : ℤ

-- The capacity of the channel.
abbrev pub alert_capacity : ℕ
alert_capacity = 100

-- The table of baselines and the alerts that wait in the channel.
pub record Watch (F : Type 0) : Type 0 where
  pub baselines : List (Baseline F)
  pub alerts : List (DriftAlert F)

module _ {F : Type 0} ⦃f : Float64 F⦄ where
  -- The deviation that counts against the engine, if there is one.
  unfoldable pub worsening : String → F → F → Option F
  worsening metric base current =
      let deviation : F = f.div (f.sub current base) base in
      if metric == "tok_per_sec"
      then (if f.lt deviation zero_float
          then some (f.mul (f.abs deviation) (f.decimal 100 0))
          else none)
      else if metric == "gpu_mem" || (metric == "ttft_p50" || metric == "ttft_p99")
      then (if f.lt zero_float deviation then some (f.mul deviation (f.decimal 100 0)) else none)
      else none

  unfoldable pub severity_of : DetectorConfig F → F → Option String
  severity_of c pct =
      if f.le c.critical_threshold_pct pct
      then some "critical"
      else if f.le c.warning_threshold_pct pct
      then some "warning"
      else none

  unfoldable pub alert_with :
      ℕ → String → String → String → F → F → F → Option String → Option (DriftAlert F)
  alert_with now engine model metric base current pct none = none
  alert_with now engine model metric base current pct (some severity) = some (record {
    engine = engine;
    model = model;
    metric = metric;
    baseline_value = base;
    current_value = current;
    deviation_pct = pct;
    severity = severity;
    detected_at = now;
  })

  unfoldable pub alert_for :
      DetectorConfig F → ℕ → String → String → String → F → F → Option F → Option (DriftAlert F)
  unfolding alert_with severity_of
  alert_for c now engine model metric base current none = none
  alert_for c now engine model metric base current (some pct) =
      alert_with now engine model metric base current pct (severity_of c pct)

  unfoldable pub check_metric :
      DetectorConfig F → ℕ → String → String → String → F → F → Option (DriftAlert F)
  unfolding alert_for worsening
  check_metric c now engine model metric base current =
      if f.eq base zero_float
      then none
      else alert_for c now engine model metric base current (worsening metric base current)

  -- The send that does not wait: a full channel drops the alert.
  unfoldable pub send_alert : Option (DriftAlert F) → List (DriftAlert F) → List (DriftAlert F)
  send_alert none alerts = alerts
  send_alert (some a) alerts =
      if ltb (length alerts) alert_capacity then alerts ++ a ∷ [] else alerts

  unfoldable pub compared :
      DetectorConfig F
      → ℕ
      → String
      → String
      → Baseline F
      → Option (Baseline F)
      → List (DriftAlert F)
      → List (DriftAlert F)
  unfolding send_alert check_metric
  compared c now engine model base none alerts = alerts
  compared c now engine model base (some current) alerts =
      send_alert
        (check_metric c now engine model "gpu_mem" (f.of_int base.gpu_mem_mb)
          (f.of_int current.gpu_mem_mb))
        (send_alert
          (check_metric c now engine model "tok_per_sec" base.tok_per_sec current.tok_per_sec)
          (send_alert
            (check_metric c now engine model "ttft_p99" base.ttft_p99_ms current.ttft_p99_ms)
            (send_alert
              (check_metric c now engine model "ttft_p50" base.ttft_p50_ms current.ttft_p50_ms)
              alerts)))

  unfoldable pub stored : Option String × List (Baseline F) → Watch F → Option String × Watch F
  stored (some e, rows) w = (some (concat "set new baseline: " e), w)
  stored (none, rows) w = (none, record w { baselines = rows })

  unfoldable pub first_baseline :
      Option String → Option (Baseline F) → Watch F → Option String × Watch F
  unfolding stored set_baseline
  first_baseline fault none w = (none, w)
  first_baseline fault (some b) w = stored (set_baseline fault b w.baselines) w

  unfoldable pub against :
      DetectorConfig F
      → Option String
      → ℕ
      → String
      → String
      → List (Measurement F)
      → Result (Option (Baseline F))
      → Watch F
      → Option String × Watch F
  unfolding first_baseline compared
  against c fault now engine model results (err e) w = (some (concat "get baseline: " e), w)
  against c fault now engine model results (ok none) w =
      first_baseline fault (compute_from_results now engine model results) w
  against c fault now engine model results (ok (some base)) w = (
    none,
    record w {
      alerts =
          compared c now engine model base (compute_from_results now engine model results) w.alerts;
    },
  )

  -- What the metrics query answered is an input, as are the faults of the two statements on
  -- baselines.
  unfoldable pub check_engine_model :
      DetectorConfig F
      → Option String
      → Option String
      → ℕ
      → String
      → String
      → Result (List (Measurement F))
      → Watch F
      → Option String × Watch F
  unfolding against
  check_engine_model c read write now engine model (err e) w =
      (some (concat "query results: " e), w)
  check_engine_model c read write now engine model (ok results) w =
      if ltb_ℤ (pos (length results)) c.min_samples
      then (none, w)
      else against c write now engine model results (get_baseline read engine model w.baselines) w
