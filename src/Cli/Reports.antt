-- ===== src/Cli/Reports.antt =====
-- What a command reports of a job that it waits for.
use inferbolt.Base.{String, true, false, ◌≡◌, refl, ap, ◌∙◌, some, List, [], ◌∷◌, ◌++◌, concat, All}
use inferbolt.Base.Results.{Result, ok, err}
use inferbolt.Jobs.State.{completed, failed, cancelled, is_terminal}
use inferbolt.Jobs.Types.{Job, Measurement}
use inferbolt.Cli.PollJob.{
  PollTurn, context_done, ticked, poll_job, fetched, reported, poll_and_report,
}

module _ {F : Type 0} where
  -- A tick before the deadline whose read fails or shows a job that goes on.
  abbrev pub Waiting : PollTurn F → Type 0
  Waiting (context_done cause) = ⊥
  Waiting (ticked late (err e)) = late ≡ false
  Waiting (ticked late (ok job)) = (late ≡ false) × (is_terminal job.state ≡ false)

  poll_job-append :
      (early rest : List (PollTurn F))
      → All Waiting early
      → poll_job (early ++ rest) ≡ poll_job rest
  unfolding poll_job
  poll_job-append [] rest h = refl
  poll_job-append (context_done cause ∷ early) rest h = absurd h.0
  poll_job-append (ticked late (err e) ∷ early) rest h = rw (h.0) (poll_job-append early rest h.1)
  poll_job-append (ticked late (ok job) ∷ early) rest h =
      rw (h.0.0, h.0.1) (poll_job-append early rest h.1)

  -- The first job that is read in a terminal state ends the wait, however many reads failed or
  -- showed it going on: a failed job is reported with its error, and a completed one with its
  -- results. A cancelled job is reported like a completed one.
  pub poll_and_report_lem :
      (results : Result (List (Measurement F))) (early behind : List (PollTurn F)) (job : Job F)
      → All Waiting early
      → (job.state ≡ failed
          → poll_and_report results (early ++ ticked false (ok job) ∷ behind)
            ≡ some (err (concat "benchmark failed: " job.error_msg)))
        × (job.state ≡ completed
            → poll_and_report results (early ++ ticked false (ok job) ∷ behind)
              ≡ some (fetched results))
        × (job.state ≡ cancelled
            → poll_and_report results (early ++ ticked false (ok job) ∷ behind)
              ≡ some (fetched results))
        × ((cause : String)
            → poll_and_report results (early ++ context_done cause ∷ behind) ≡ some (err cause))
        × (poll_and_report results (early ++ ticked true (ok job) ∷ behind)
            ≡ some (err "job polling timed out after 60 minutes"))
  unfolding poll_and_report reported poll_job is_terminal
  poll_and_report_lem results early behind job h = (
    λ s. ap (reported results) (poll_job-append early _ h) ∙ rw s refl,
    λ s. ap (reported results) (poll_job-append early _ h) ∙ rw s refl,
    λ s. ap (reported results) (poll_job-append early _ h) ∙ rw s refl,
    λ cause. ap (reported results) (poll_job-append early _ h),
    ap (reported results) (poll_job-append early _ h),
  )
