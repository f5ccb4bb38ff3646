-- ===== src/Drift/Alerts.antt =====
-- When the detector alerts, and what it does to the channel.
use mathlib.Core.List.{append-nil, append_assoc}
use inferbolt.Base.{
  ℕ, ◌≤◌, String, OneOf, eq_iff, ◌==◌, ◌≡◌, refl, sym, ◌⊎◌, inl, inr, Bool, true, false, Option,
  none, some, List, [], ◌∷◌, ◌++◌, arith, length, length-append, Bool-cases, if◌then◌else◌, ltb,
}
use inferbolt.Base.Int.{pos, ltb_ℤ}
use inferbolt.Base.Float64.{Float64}
use inferbolt.Base.Results.{Result, ok, err}
use inferbolt.Jobs.Types.{Measurement}
use inferbolt.Drift.Baseline.{
  Baseline, zero_float, get_baseline, compute_from_results, set_baseline,
}
use inferbolt.Drift.Detector.{
  DriftAlert, DetectorConfig, Watch, worsening, severity_of, alert_with, alert_for, check_metric,
  send_alert, compared, against, check_engine_model, alert_capacity, stored, first_baseline,
}

module _ {F : Type 0} ⦃f : Float64 F⦄ where
  -- The deviation reaches one of the thresholds.
  abbrev pub reaches : DetectorConfig F → F → Bool
  reaches c pct =
      if f.le c.critical_threshold_pct pct then true else f.le c.warning_threshold_pct pct

  abbrev pub deviation : F → F → F
  deviation base current = f.div (f.sub current base) base

  -- The percentage by which the value got worse: the throughput by a fall, the two latencies and
  -- the memory by a rise. No other metric gets worse.
  abbrev pub Worse : String → F → F → F → Type 0
  Worse metric base current pct =
      ((metric ≡ "tok_per_sec")
        × (f.lt (deviation base current) (f.decimal 0 0) ≡ true)
        × (pct ≡ f.mul (f.abs (deviation base current)) (f.decimal 100 0)))
      ⊎ (OneOf ("ttft_p50" ∷ "ttft_p99" ∷ "gpu_mem" ∷ []) metric
          × (f.lt (f.decimal 0 0) (deviation base current) ≡ true)
          × (pct ≡ f.mul (deviation base current) (f.decimal 100 0)))

  worsening-Worse :
      (metric : String) (base current pct : F)
      → worsening metric base current ≡ some pct
      → Worse metric base current pct
  unfolding worsening
  worsening-Worse metric base current pct h = elim (Bool-cases (metric == "tok_per_sec")) [
    | inl m ↦ inl (ground (arith, h, m, eq_iff metric "tok_per_sec"))
    | inr m ↦ inr (
        ground (
          arith,
          h,
          m,
          eq_iff metric "gpu_mem",
          eq_iff metric "ttft_p50",
          eq_iff metric "ttft_p99",
        ))
  ]

  Worse-worsening :
      (metric : String) (base current pct : F)
      → Worse metric base current pct
      → worsening metric base current ≡ some pct
  unfolding worsening
  Worse-worsening metric base current pct (inl (m, l, e)) = rw (m, l, e) refl
  Worse-worsening metric base current pct (inr (inl m, l, e)) = rw (sym m, l, e) refl
  Worse-worsening metric base current pct (inr (inr (inl m), l, e)) = rw (sym m, l, e) refl
  Worse-worsening metric base current pct (inr (inr (inr m), l, e)) = rw (sym m, l, e) refl

  -- What an alert, or none, says of the two values.
  abbrev pub Tells :
      DetectorConfig F → ℕ → String → String → String → F → F → Option (DriftAlert F) → Type 0
  Tells c now engine model metric base current none =
      (f.eq base (f.decimal 0 0) ≡ true)
      ⊎ ((pct : F) → Worse metric base current pct → reaches c pct ≡ false)
  Tells c now engine model metric base current (some a) =
      (f.eq base (f.decimal 0 0) ≡ false)
      × Worse metric base current a.deviation_pct
      × (reaches c a.deviation_pct ≡ true)
      × (a.severity
          ≡ (if f.le c.critical_threshold_pct a.deviation_pct then "critical" else "warning"))
      × (a.engine ≡ engine)
      × (a.model ≡ model)
      × (a.metric ≡ metric)
      × (a.baseline_value ≡ base)
      × (a.current_value ≡ current)
      × (a.detected_at ≡ now)

  alert_for-Tells :
      (c : DetectorConfig F) (now : ℕ) (engine model metric : String) (base current : F)
      (o : Option F)
      → f.eq base zero_float ≡ false
      → worsening metric base current ≡ o
      → Tells c now engine model metric base current
          (alert_for c now engine model metric base current o)
  unfolding alert_for severity_of alert_with
  alert_for-Tells c now engine model metric base current none z e =
      inr (λ pct w. absurd (ground (arith, e, Worse-worsening metric base current pct w)))
  alert_for-Tells c now engine model metric base current (some pct) z e =
      let worse = worsening-Worse metric base current pct e in
      elim (Bool-cases (f.le c.critical_threshold_pct pct)) [
        | inl h ↦ rw h (z, worse, rw h refl, rw h refl, refl, refl, refl, refl, refl, refl)
        | inr h ↦ rw h (elim (Bool-cases (f.le c.warning_threshold_pct pct)) [
          | inl k ↦ rw k (z, worse, rw (h, k) refl, rw h refl, refl, refl, refl, refl, refl, refl)
          | inr k ↦ rw k (
              inr (λ p w.
                let same : p ≡ pct = ground (arith, e, Worse-worsening metric base current p w) in
                rw same (rw (h, k) refl)))
        ])
      ]

  -- A metric alerts exactly when the baseline is not zero and the value got worse by a threshold
  -- at least: the throughput by a fall, the two latencies and the memory by a rise, in per cent of
  -- the baseline. The alert carries the pair, the metric, both values, the time and the deviation,
  -- and is critical exactly when that reaches the critical threshold.
  pub check_metric-Tells :
      (c : DetectorConfig F) (now : ℕ) (engine model metric : String) (base current : F)
      → Tells c now engine model metric base current
          (check_metric c now engine model metric base current)
  unfolding check_metric
  check_metric-Tells c now engine model metric base current =
      elim (Bool-cases (f.eq base zero_float)) [
        | inl h ↦ rw h (inl h)
        | inr h ↦ rw h (
            alert_for-Tells c now engine model metric base current (worsening metric base current) h
              refl)
      ]

  -- The channel after a check: what waited still does, first, and it holds no more than its
  -- capacity.
  abbrev pub Grown : List (DriftAlert F) → List (DriftAlert F) → Type 0
  Grown before after =
      ((new : List (DriftAlert F)) × (after ≡ before ++ new)) × (length after ≤ alert_capacity)

  Grown-refl : (alerts : List (DriftAlert F)) → length alerts ≤ alert_capacity → Grown alerts alerts
  Grown-refl alerts le = (([], sym (append-nil alerts)), le)

  send_alert-Grown :
      (o : Option (DriftAlert F)) (before alerts : List (DriftAlert F))
      → Grown before alerts
      → Grown before (send_alert o alerts)
  unfolding send_alert
  send_alert-Grown none before alerts g = g
  send_alert-Grown (some a) before alerts ((new, e), le) =
      elim (Bool-cases (ltb (length alerts) alert_capacity)) [
        | inl h ↦ rw h (
          (new ++ a ∷ [], rw e (append_assoc before new (a ∷ []))),
          ground (arith, h, length-append alerts (a ∷ [])),
        )
        | inr h ↦ rw h ((new, e), le)
      ]

  compared-Grown :
      (c : DetectorConfig F) (now : ℕ) (engine model : String) (base : Baseline F)
      (o : Option (Baseline F)) (alerts : List (DriftAlert F))
      → length alerts ≤ alert_capacity
      → Grown alerts (compared c now engine model base o alerts)
  unfolding compared
  compared-Grown c now engine model base none alerts le = Grown-refl alerts le
  compared-Grown c now engine model base (some current) alerts le =
      send_alert-Grown
        (check_metric c now engine model "gpu_mem" (f.of_int base.gpu_mem_mb)
          (f.of_int current.gpu_mem_mb))
        alerts _
        (send_alert-Grown
          (check_metric c now engine model "tok_per_sec" base.tok_per_sec current.tok_per_sec)
          alerts _
          (send_alert-Grown
            (check_metric c now engine model "ttft_p99" base.ttft_p99_ms current.ttft_p99_ms) alerts
            _
            (send_alert-Grown
              (check_metric c now engine model "ttft_p50" base.ttft_p50_ms current.ttft_p50_ms)
              alerts alerts (Grown-refl alerts le))))

  first_baseline-alerts :
      (fault : Option String) (o : Option (Baseline F)) (w : Watch F)
      → (first_baseline fault o w).1.alerts ≡ w.alerts
  unfolding first_baseline stored set_baseline
  first_baseline-alerts fault none w = refl
  first_baseline-alerts none (some b) w = refl
  first_baseline-alerts (some e) (some b) w = refl

  against-Grown :
      (c : DetectorConfig F) (fault : Option String) (now : ℕ) (engine model : String)
      (results : List (Measurement F)) (r : Result (Option (Baseline F))) (w : Watch F)
      → length w.alerts ≤ alert_capacity
      → Grown w.alerts (against c fault now engine model results r w).1.alerts
  unfolding against
  against-Grown c fault now engine model results (err e) w le = Grown-refl w.alerts le
  against-Grown c fault now engine model results (ok none) w le =
      rw (first_baseline-alerts fault (compute_from_results now engine model results) w)
        (Grown-refl w.alerts le)
  against-Grown c fault now engine model results (ok (some base)) w le =
      compared-Grown c now engine model base (compute_from_results now engine model results)
        w.alerts le

  -- A check never takes an alert from the channel or reorders what waits there, and the channel
  -- never holds more than its capacity.
  pub check_engine_model-Grown :
      (c : DetectorConfig F) (read write : Option String) (now : ℕ) (engine model : String)
      (r : Result (List (Measurement F))) (w : Watch F)
      → length w.alerts ≤ alert_capacity
      → Grown w.alerts (check_engine_model c read write now engine model r w).1.alerts
  unfolding check_engine_model
  check_engine_model-Grown c read write now engine model (err e) w le = Grown-refl w.alerts le
  check_engine_model-Grown c read write now engine model (ok results) w le =
      elim (Bool-cases (ltb_ℤ (pos (length results)) c.min_samples)) [
        | inl h ↦ rw h (Grown-refl w.alerts le)
        | inr h ↦ rw h (
            against-Grown c write now engine model results
              (get_baseline read engine model w.baselines) w le)
      ]
