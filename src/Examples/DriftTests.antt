-- ===== src/Examples/DriftTests.antt =====
-- The theorems on the detector at concrete inputs.
use inferbolt.Base.{[], ◌∷◌}
use inferbolt.Base.Int.{pos}
use inferbolt.Base.Float64.{Micros, micros, micros_float}
use inferbolt.Drift.Baseline.{Baseline}
use inferbolt.Drift.Detector.{DetectorConfig, Watch, check_metric}
use inferbolt.Drift.Alerts.{Tells, check_metric-Tells}

abbrev limits : DetectorConfig Micros
limits = record {
  warning_threshold_pct = micros (pos 10000000);
  critical_threshold_pct = micros (pos 25000000);
  min_samples = pos 5;
}

abbrev base : Baseline Micros
base = record {
  engine = "vllm";
  model = "m";
  ttft_p50_ms = micros (pos 500000);
  ttft_p99_ms = micros (pos 2000000);
  tok_per_sec = micros (pos 5000000);
  gpu_mem_mb = pos 100;
  sample_count = 5;
  set_at = 1;
}

check_metric-Tells_example :
    Tells limits 3 "vllm" "m" "tok_per_sec"
      (micros (pos 1000000))
      (micros (pos 500000))
      (check_metric limits 3 "vllm" "m" "tok_per_sec" (micros (pos 1000000)) (micros (pos 500000)))
check_metric-Tells_example =
    check_metric-Tells limits 3 "vllm" "m" "tok_per_sec" (micros (pos 1000000))
      (micros (pos 500000))

abbrev watch : Watch Micros
watch = record { baselines = base ∷ []; alerts = [] }
