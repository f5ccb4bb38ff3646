-- ===== src/Metrics/Queries.antt =====
-- Whose measurements a query shows.
use inferbolt.Base.{
  ℕ, String, Bool, true, ◌&&◌, ◌≡◌, refl, ap, ◌∙◌, inl, inr, Option, none, some, List, [], ◌∷◌,
  ◌++◌, keep, map, arith, eq_iff, All, Bool-cases, ◌==◌, if◌then◌else◌, ◌≤◌,
}
use inferbolt.Base.Lists.{All-keep, map-append}
use inferbolt.Base.Maps.{Dict, get}
use inferbolt.Base.Results.{ok}
use inferbolt.Jobs.Types.{Job, Measurement}
use inferbolt.Metrics.Store.{
  BenchRow, bench_row, insert_oldest, oldest_first, results_of, query_by_job, of_job, measured,
  of_tenant, has_tenant, query_by_tenant_engine_and_model, write_bench_result_batch,
}

module _ {F : Type 0} where
  insert_oldest-All :
      (P : BenchRow F → Type 0) (r : BenchRow F) (l : List (BenchRow F))
      → P r
      → All P l
      → All P (insert_oldest r l)
  unfolding insert_oldest
  insert_oldest-All P r [] p h = (p, tt)
  insert_oldest-All P r (x ∷ l) p h = ground (arith, insert_oldest-All P r l p h.1)

  oldest_first-All :
      (P : BenchRow F → Type 0) (l : List (BenchRow F)) → All P l → All P (oldest_first l)
  unfolding oldest_first
  oldest_first-All P [] h = tt
  oldest_first-All P (r ∷ l) h =
      insert_oldest-All P r (oldest_first l) h.0 (oldest_first-All P l h.1)

  All-results :
      (P : Measurement F → Type 0) (l : List (BenchRow F))
      → All (λ r. P r.result) l
      → All P (map (λ r. r.result) l)
  All-results P [] h = tt
  All-results P (r ∷ l) h = (h.0, All-results P l h.1)

  -- Each test of a row.
  abbrev pub Owned : String → Dict (Job F) → Measurement F → Type 0
  Owned tenant jobs m = (j : Job F) × (get jobs m.job_id ≡ some j) × (j.tenant_id ≡ tenant)

  of_tenant-Owned :
      (tenant : String) (o : Option (Job F))
      → has_tenant tenant o ≡ true
      → (j : Job F) × (o ≡ some j) × (j.tenant_id ≡ tenant)
  of_tenant-Owned tenant none h = cc
  of_tenant-Owned tenant (some j) h = (j, refl, (eq_iff j.tenant_id tenant).0 h)

  -- The last of the rows that are not younger comes last.
  insert_oldest-last :
      (r x : BenchRow F) (l : List (BenchRow F))
      → r.ts ≤ x.ts
      → insert_oldest r (l ++ x ∷ []) ≡ insert_oldest r l ++ x ∷ []
  unfolding insert_oldest
  insert_oldest-last r x [] le = ground arith
  insert_oldest-last r x (y ∷ l) le = ground (arith, insert_oldest-last r x l le)

  oldest_first-last :
      (l : List (BenchRow F)) (x : BenchRow F)
      → All (λ r. r.ts ≤ x.ts) l
      → oldest_first (l ++ x ∷ []) ≡ oldest_first l ++ x ∷ []
  unfolding oldest_first insert_oldest
  oldest_first-last [] x h = refl
  oldest_first-last (r ∷ l) x h =
      ap (insert_oldest r) (oldest_first-last l x h.1) ∙ insert_oldest-last r x (oldest_first l) h.0

  keep_again :
      (p q : BenchRow F → Bool) (rows : List (BenchRow F))
      → keep (λ r. p r && q r) (keep q rows) ≡ keep (λ r. p r && q r) rows
  unfolding keep
  keep_again p q [] = refl
  keep_again p q (r ∷ rows) = elim (Bool-cases (q r)) [
    | inl h ↦ ground (arith, h, keep_again p q rows)
    | inr h ↦ ground (arith, h, keep_again p q rows)
  ]

  shown :
      (tenant engine model : String) (since : ℕ) (jobs : Dict (Job F)) (r : BenchRow F)
      → (measured engine model since r && of_tenant tenant jobs r) ≡ true
      → (r.result.engine ≡ engine) × (r.result.model ≡ model) × Owned tenant jobs r.result
  shown tenant engine model since jobs r h = (
    ground (arith, eq_iff r.result.engine engine),
    ground (arith, eq_iff r.result.model model),
    of_tenant-Owned tenant (get jobs r.result.job_id) (ground (arith, h)),
  )

  -- What a tenant's query shows is measurements of the engine and the model, of the tenant's own
  -- jobs; a table with rows of other tenants' jobs besides shows the same.
  pub query_by_tenant-Owned :
      (tenant engine model : String) (since : ℕ) (jobs : Dict (Job F)) (rows : List (BenchRow F))
      → (ms : List (Measurement F)) × (query_by_tenant_engine_and_model none tenant engine model
            since jobs rows
          ≡ ok ms)
        × (query_by_tenant_engine_and_model none tenant engine model since jobs
              (keep (of_tenant tenant jobs) rows)
            ≡ ok ms)
        × All (λ m. (m.engine ≡ engine) × (m.model ≡ model) × Owned tenant jobs m) ms
  unfolding query_by_tenant_engine_and_model
  query_by_tenant-Owned tenant engine model since jobs rows = (
    results_of (keep (λ r. measured engine model since r && of_tenant tenant jobs r) rows),
    refl,
    ap (λ l. ok (results_of l))
        (keep_again (measured engine model since) (of_tenant tenant jobs) rows),
    All-results _ _ (
        oldest_first-All _ _ (All-keep _ _ rows (λ r t. shown tenant engine model since jobs r t))),
  )

  keep-last :
      (p : BenchRow F → Bool) (xs : List (BenchRow F)) (x : BenchRow F)
      → keep p (xs ++ x ∷ []) ≡ (if p x then keep p xs ++ x ∷ [] else keep p xs)
  unfolding keep
  keep-last p [] x = ground arith
  keep-last p (y ∷ xs) x = ground (arith, keep-last p xs x)

  keep-All :
      (P : BenchRow F → Type 0) (p : BenchRow F → Bool) (xs : List (BenchRow F))
      → All P xs
      → All P (keep p xs)
  unfolding keep
  keep-All P p [] h = tt
  keep-All P p (x ∷ xs) h = ground (arith, keep-All P p xs h.1)

  results_of-last :
      (l : List (BenchRow F)) (x : BenchRow F)
      → All (λ r. r.ts ≤ x.ts) l
      → results_of (l ++ x ∷ []) ≡ results_of l ++ x.result ∷ []
  results_of-last l x h =
      ap (map (λ r. r.result)) (oldest_first-last l x h)
      ∙ map-append (λ r. r.result) (oldest_first l) (x ∷ [])

  -- A measurement that is written after the others is the last that the query of its job shows,
  -- behind what the query showed before; the queries of other jobs show what they did.
  pub query_by_job-write_bench_result_batch :
      (now : ℕ) (r : Measurement F) (rows : List (BenchRow F)) (id : String)
      → All (λ x. x.ts ≤ now) rows
      → (ms : List (Measurement F)) × (query_by_job none id rows ≡ ok ms)
        × (query_by_job none id (write_bench_result_batch none now (r ∷ []) rows).1
            ≡ ok (if r.job_id == id then ms ++ record r { run_id = "" } ∷ [] else ms))
  unfolding query_by_job write_bench_result_batch
  query_by_job-write_bench_result_batch now r rows id h = (
    results_of (keep (of_job id) rows),
    refl,
    elim (Bool-cases (r.job_id == id)) [
      | inl e ↦ rw (keep-last (of_job id) rows (bench_row now r)) (
          rw e (
            ap ok (
              results_of-last (keep (of_job id) rows) (bench_row now r)
                (keep-All _ (of_job id) rows h))))
      | inr e ↦ rw (keep-last (of_job id) rows (bench_row now r)) (rw e refl)
    ],
  )
