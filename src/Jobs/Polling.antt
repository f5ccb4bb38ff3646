-- ===== src/Jobs/Polling.antt =====
-- The poll loop of internal/jobs/worker.go ends at the first event that decides it.
use inferbolt.Base.{
  String, ◌≡◌, ◌≢◌, refl, none, some, List, [], ◌∷◌, ◌++◌, concat, All, arith, eq_iff,
}
use inferbolt.Base.Results.{ok, err}
use inferbolt.Jobs.Worker.{PollEvent, cancelled_context, deadline, tick, poll_for_results}

-- An event after which the loop goes on: an error of the status request, or a status that is
-- neither of the two final ones.
abbrev Undecided : PollEvent → Type 0
Undecided (cancelled_context cause) = ⊥
Undecided deadline = ⊥
Undecided (tick (err e)) = Unit
Undecided (tick (ok (status, message))) = (status ≢ "completed") × (status ≢ "failed")

poll-append :
    (id run : String) (pre rest : List PollEvent)
    → All Undecided pre
    → poll_for_results id run (pre ++ rest) ≡ poll_for_results id run rest
unfolding poll_for_results
poll-append id run [] rest u = refl
poll-append id run (cancelled_context cause ∷ pre) rest u = absurd u.0
poll-append id run (deadline ∷ pre) rest u = absurd u.0
poll-append id run (tick (err e) ∷ pre) rest u = poll-append id run pre rest u.1
poll-append id run (tick (ok (s, m)) ∷ pre) rest u =
    ground (arith, eq_iff s "completed", eq_iff s "failed", poll-append id run pre rest u.1)

-- After any number of undecided events, a status "completed" ends the loop without an error, a
-- status "failed" with the worker's message, the deadline with a timeout, and a cancelled context
-- with its cause, whatever the events behind are.
pub poll_decides :
    (id run m cause : String) (pre rest : List PollEvent)
    → All Undecided pre
    → (poll_for_results id run (pre ++ tick (ok ("completed", m)) ∷ rest) ≡ some none)
      × (poll_for_results id run (pre ++ tick (ok ("failed", m)) ∷ rest)
          ≡ some (some (concat "worker reported failure for run=" (concat run (concat ": " m)))))
      × (poll_for_results id run (pre ++ deadline ∷ rest)
          ≡ some (some (concat "poll timeout (45m) for job=" (concat id (concat " run=" run)))))
      × (poll_for_results id run (pre ++ cancelled_context cause ∷ rest) ≡ some (some cause))
unfolding poll_for_results
poll_decides id run m cause pre rest u = (
  poll-append id run pre _ u,
  poll-append id run pre _ u,
  poll-append id run pre _ u,
  poll-append id run pre _ u,
)

-- The loop polls on only while no event has decided it: with the deadline among the events, it
-- ends.
poll_goes_on :
    (id run : String) (events : List PollEvent)
    → poll_for_results id run events ≡ none
    → All Undecided events
unfolding poll_for_results
poll_goes_on id run [] h = tt
poll_goes_on id run (cancelled_context cause ∷ rest) h = cc
poll_goes_on id run (deadline ∷ rest) h = cc
poll_goes_on id run (tick (err e) ∷ rest) h = (tt, poll_goes_on id run rest h)
poll_goes_on id run (tick (ok (s, m)) ∷ rest) h = (
  ground (arith, eq_iff s "completed", eq_iff s "failed"),
  poll_goes_on id run rest (ground arith),
)
