-- ===== src/Jobs/Rows.antt =====
-- What a tenant sees of the tables of internal/config/store.go.
use inferbolt.Base.{
  ℕ, suc, ◌+◌, ◌≤◌, String, ◌≡◌, ◌≢◌, ◌↔◌, refl, ◌⊎◌, inl, inr, true, Option, none, some, List, [],
  ◌∷◌, ◌++◌, arith, eq_iff, ==_self, ==_ne, All, All-map, length, ltb, Bool-cases, ◌∙◌,
}
use inferbolt.Base.Lists.{
  drop, length-take_le, take-append-drop, drop-drop, All-take, All-drop, All-keep,
}
use inferbolt.Base.Maps.{get, get-put, values}
use inferbolt.Base.Results.{ok, ok-injective}
use inferbolt.Jobs.State.{text}
use inferbolt.Jobs.Types.{Job}
use inferbolt.Jobs.Store.{
  Db, save_job, get_job, listed, newest_first, insert_newest, matching, list_jobs, count_jobs,
}

module _ {F : Type 0} where
  -- A tenant reads a job exactly when the job is there and is its own; a job of another tenant
  -- reads as one that does not exist.
  pub get_job_iff :
      (id tenant : String) (db : Db F) (j : Job F)
      → ((get_job none id tenant db ≡ ok j) ↔ ((get db.jobs id ≡ some j) × (j.tenant_id ≡ tenant)))
        × (get db.jobs id ≡ some j
            → j.tenant_id ≢ tenant
            → get_job none id tenant db ≡ get_job none id tenant (record db { jobs = [] }))
  unfolding get_job get
  get_job_iff id tenant db j = (
    (λ h. go (get db.jobs id) refl h, λ h. ground (arith, eq_iff j.tenant_id tenant)),
    λ at foreign. ground (arith, eq_iff j.tenant_id tenant),
  )
    where
      go :
          (o : Option (Job F))
          → get db.jobs id ≡ o
          → get_job none id tenant db ≡ ok j
          → (get db.jobs id ≡ some j) × (j.tenant_id ≡ tenant)
      go none e h = ground arith
      go (some i) e h = ground (arith, eq_iff i.tenant_id tenant)

  -- A job that was saved under a new id reads back as it was saved, and no other job changes.
  get_job-save_job :
      (job : Job F) (db : Db F) (k tenant : String)
      → get db.jobs job.job_id ≡ none
      → ((save_job none job db).0 ≡ none)
        × (get_job none job.job_id job.tenant_id (save_job none job db).1 ≡ ok job)
        × (job.job_id ≢ k
            → get_job none k tenant (save_job none job db).1 ≡ get_job none k tenant db)
  unfolding save_job get_job
  get_job-save_job job db k tenant new = (
    rw new,
    rw new (rw (get-put, ==_self job.job_id) (rw (==_self job.tenant_id))),
    λ ne. rw new (rw (get-put, ==_ne job.job_id k ne)),
  )

  -- A saved id cannot be saved again.
  save_job_twice :
      (job old : Job F) (db : Db F)
      → get db.jobs job.job_id ≡ some old
      → (save_job none job db).1 ≡ db
  unfolding save_job
  save_job_twice job old db at = rw at

  abbrev pub Seen : String → String → Job F → Type 0
  Seen tenant state j = (j.tenant_id ≡ tenant) × ((state ≡ "") ⊎ (text j.state ≡ state))

  listed-Seen :
      (tenant state : String) (j : Job F) → listed tenant state j ≡ true → Seen tenant state j
  listed-Seen tenant state j h =
      ground (arith, eq_iff j.tenant_id tenant, eq_iff state "", eq_iff (text j.state) state)

  insert_newest-All :
      (P : Job F → Type 0) (j : Job F) (l : List (Job F))
      → P j
      → All P l
      → All P (insert_newest j l)
  unfolding insert_newest
  insert_newest-All P j [] p h = (p, tt)
  insert_newest-All P j (i ∷ l) p h = ground (arith, insert_newest-All P j l p h.1)

  newest_first-All : (P : Job F → Type 0) (l : List (Job F)) → All P l → All P (newest_first l)
  unfolding newest_first
  newest_first-All P [] h = tt
  newest_first-All P (j ∷ l) h =
      insert_newest-All P j (newest_first l) h.0 (newest_first-All P l h.1)

  length-insert_newest :
      (j : Job F) (l : List (Job F)) → length (insert_newest j l) ≡ suc (length l)
  unfolding insert_newest
  length-insert_newest j [] = refl
  length-insert_newest j (i ∷ l) = ground (arith, length-insert_newest j l)

  length-newest_first : (l : List (Job F)) → length (newest_first l) ≡ length l
  unfolding newest_first
  length-newest_first [] = refl
  length-newest_first (j ∷ l) =
      omega (arith, length-insert_newest j (newest_first l), length-newest_first l)

  -- Newer jobs stand before older ones.
  abbrev pub Newest : List (Job F) → Type 0
  Newest [] = Unit
  Newest (j ∷ l) = All (λ i. i.created_at ≤ j.created_at) l × Newest l

  insert_newest-Newest : (j : Job F) (l : List (Job F)) → Newest l → Newest (insert_newest j l)
  unfolding insert_newest
  insert_newest-Newest j [] n = (tt, tt)
  insert_newest-Newest j (i ∷ l) n = elim (Bool-cases (ltb j.created_at i.created_at)) [
    | inl older ↦ rw older (
      insert_newest-All (λ k. k.created_at ≤ i.created_at) j l (ground arith) n.0,
      insert_newest-Newest j l n.1,
    )
    | inr newer ↦ rw newer (
      (
        ground arith,
        All-map (λ k. k.created_at ≤ i.created_at) (λ k. k.created_at ≤ j.created_at)
            (λ k h. ground arith) l n.0,
      ),
      n,
    )
  ]

  newest_first-Newest : (l : List (Job F)) → Newest (newest_first l)
  unfolding newest_first
  newest_first-Newest [] = tt
  newest_first-Newest (j ∷ l) = insert_newest-Newest j (newest_first l) (newest_first-Newest l)

  -- A page holds only jobs of the tenant in the wanted state, at most `limit` of them; two
  -- neighbouring pages are one page of twice the size; all pages together hold as many jobs as
  -- `count_jobs` says, newest first.
  pub list_jobs_pages :
      (tenant state : String) (m n offset : ℕ) (db : Db F) (page next both : List (Job F))
      (total : ℕ)
      → list_jobs none tenant state m offset db ≡ ok page
      → list_jobs none tenant state n (offset + m) db ≡ ok next
      → list_jobs none tenant state (m + n) offset db ≡ ok both
      → count_jobs none tenant state db ≡ ok total
      → All (Seen tenant state) page
        × (length page ≤ m)
        × (page ++ next ≡ both)
        × (length (matching tenant state db) ≡ total)
        × Newest (matching tenant state db)
  unfolding list_jobs count_jobs
  list_jobs_pages tenant state m n offset db page next both total p q r t = (
    rw (← ok-injective p) (
        All-take (Seen tenant state) m (drop offset rows)
          (All-drop (Seen tenant state) offset rows seen)),
    rw (← ok-injective p) (length-take_le m (drop offset rows)),
    rw (← ok-injective p, ← ok-injective q, ← ok-injective r, ← drop-drop m offset rows)
        (take-append-drop m n (drop offset rows)),
    unfold matching in length-newest_first _ ∙ ok-injective t,
    unfold matching in newest_first-Newest _,
  )
    where
      rows : List (Job F)
      rows = matching tenant state db

      seen : All (Seen tenant state) rows
      seen =
          unfold matching in
          newest_first-All (Seen tenant state) _ (
            All-keep (Seen tenant state) (listed tenant state) (values db.jobs)
              (listed-Seen tenant state))
