-- ===== src/Metrics/Store.antt =====
-- internal/metrics/timescale.go: the table of measurements. A statement that the database refuses,
-- or a configuration that does not marshal or unmarshal, is the argument `fault`, the text of its
-- error; the table then stays as it was. The table has no column for the run.
use inferbolt.Base.{
  ℕ, String, Bool, false, ◌&&◌, Option, none, some, List, [], ◌∷◌, ◌++◌, ◌==◌, ltb, leb, concat,
  keep, map, if◌then◌else◌,
}
use inferbolt.Base.Maps.{Dict, get}
use inferbolt.Base.Results.{Result, ok, err}
use inferbolt.Jobs.Types.{Job, Measurement}

pub record BenchRow (F : Type 0) : Type 0 where
  pub ts : ℕ
  pub result : Measurement F

module _ {F : Type 0} where
  abbrev pub bench_row : ℕ → Measurement F → BenchRow F
  bench_row now r = record { ts = now; result = record r { run_id = "" } }

  unfoldable pub write_bench_result :
      Option String → ℕ → Measurement F → List (BenchRow F) → Option String × List (BenchRow F)
  write_bench_result (some fault) now r rows = (some (concat "write bench result: " fault), rows)
  write_bench_result none now r rows = (none, rows ++ bench_row now r ∷ [])

  -- The statements of a batch are one transaction, and `NOW()` is its time.
  unfoldable pub write_bench_result_batch :
      Option String
      → ℕ
      → List (Measurement F)
      → List (BenchRow F)
      → Option String × List (BenchRow F)
  write_bench_result_batch (some fault) now rs rows =
      (some (concat "batch exec bench result: " fault), rows)
  write_bench_result_batch none now rs rows = (none, rows ++ map (bench_row now) rs)

  -- `ORDER BY ts ASC`; rows of the same time keep their order.
  unfoldable pub insert_oldest : BenchRow F → List (BenchRow F) → List (BenchRow F)
  insert_oldest r [] = r ∷ []
  insert_oldest r (x ∷ rest) =
      let later = insert_oldest r rest in if leb r.ts x.ts then r ∷ x ∷ rest else x ∷ later

  unfoldable pub oldest_first : List (BenchRow F) → List (BenchRow F)
  unfolding insert_oldest
  oldest_first [] = []
  oldest_first (r ∷ rest) = insert_oldest r (oldest_first rest)

  -- What `scanResults` makes of the rows.
  abbrev pub results_of : List (BenchRow F) → List (Measurement F)
  results_of rows = map (λ r. r.result) (oldest_first rows)

  abbrev pub of_job : String → BenchRow F → Bool
  of_job job_id r = r.result.job_id == job_id

  unfoldable pub query_by_job :
      Option String → String → List (BenchRow F) → Result (List (Measurement F))
  query_by_job (some fault) job_id rows = err (concat "query by job: " fault)
  query_by_job none job_id rows = ok (results_of (keep (of_job job_id) rows))

  abbrev pub measured : String → String → ℕ → BenchRow F → Bool
  measured engine model since r =
      (r.result.engine == engine) && ((r.result.model == model) && ltb since r.ts)

  -- `JOIN public.jobs j ON j.id = b.job_id` and `j.tenant_id = $4`
  abbrev pub has_tenant : String → Option (Job F) → Bool
  has_tenant tenant none = false
  has_tenant tenant (some j) = j.tenant_id == tenant

  abbrev pub of_tenant : String → Dict (Job F) → BenchRow F → Bool
  of_tenant tenant jobs r = has_tenant tenant (get jobs r.result.job_id)

  unfoldable pub query_by_tenant_engine_and_model :
      Option String
      → String
      → String
      → String
      → ℕ
      → Dict (Job F)
      → List (BenchRow F)
      → Result (List (Measurement F))
  query_by_tenant_engine_and_model (some fault) tenant engine model since jobs rows =
      err (concat "query by tenant/engine/model: " fault)
  query_by_tenant_engine_and_model none tenant engine model since jobs rows =
      ok (results_of (keep (λ r. measured engine model since r && of_tenant tenant jobs r) rows))

  unfoldable pub query_by_engine_and_model :
      Option String → String → String → ℕ → List (BenchRow F) → Result (List (Measurement F))
  query_by_engine_and_model (some fault) engine model since rows =
      err (concat "query by engine/model: " fault)
  query_by_engine_and_model none engine model since rows =
      ok (results_of (keep (measured engine model since) rows))
