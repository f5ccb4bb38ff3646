-- ===== src/Jobs/Lifecycle.antt =====
-- What the transition table of internal/jobs/state.go allows.
use inferbolt.Base.{ℕ, suc, ◌+◌, ◌≤◌, ◌<◌, ◌≡◌, refl, ◌↔◌, true, false, arith}
use inferbolt.Jobs.State.{
  JobState, pending, running, collecting, analyzing, completed, failed, cancelled, valid_transition,
  is_terminal,
}

-- The diagram, drawn by hand.
pub data Edge : JobState → JobState → Type 0 where
  start : Edge pending running
  collect : Edge running collecting
  analyze : Edge collecting analyzing
  finish : Edge analyzing completed
  crash_running : Edge running failed
  crash_collecting : Edge collecting failed
  crash_analyzing : Edge analyzing failed
  stop : Edge running cancelled

ruleset edges =
    (start, collect, analyze, finish, crash_running, crash_collecting, crash_analyzing, stop)

Edge-valid : {a b : JobState} → Edge a b → valid_transition a b ≡ true
unfolding valid_transition
Edge-valid start = refl
Edge-valid collect = refl
Edge-valid analyze = refl
Edge-valid finish = refl
Edge-valid crash_running = refl
Edge-valid crash_collecting = refl
Edge-valid crash_analyzing = refl
Edge-valid stop = refl

valid-Edge : (a b : JobState) → valid_transition a b ≡ true → Edge a b
unfolding valid_transition
valid-Edge pending running h = start
valid-Edge running collecting h = collect
valid-Edge running failed h = crash_running
valid-Edge running cancelled h = stop
valid-Edge collecting analyzing h = analyze
valid-Edge collecting failed h = crash_collecting
valid-Edge analyzing completed h = finish
valid-Edge analyzing failed h = crash_analyzing
valid-Edge _ _ h = cc

-- The code allows a change of state exactly when the diagram has that edge.
pub valid_transition_iff : (a b : JobState) → (valid_transition a b ≡ true) ↔ Edge a b
valid_transition_iff a b = (valid-Edge a b, Edge-valid)

-- A job is finished exactly when no state may follow its own.
is_terminal_iff :
    (s : JobState) → (is_terminal s ≡ true) ↔ ((t : JobState) → valid_transition s t ≡ false)
unfolding is_terminal valid_transition
is_terminal_iff pending = (λ h. cc, λ h. absurd (cc (h running)))
is_terminal_iff running = (λ h. cc, λ h. absurd (cc (h failed)))
is_terminal_iff collecting = (λ h. cc, λ h. absurd (cc (h failed)))
is_terminal_iff analyzing = (λ h. cc, λ h. absurd (cc (h failed)))
is_terminal_iff _ = (λ h t. refl, λ h. refl)

-- A sequence of allowed changes.
pub data Run : JobState → JobState → Type 0 where
  here : {a : JobState} → Run a a
  then : {a b c : JobState} → valid_transition a b ≡ true → Run b c → Run a c

abbrev pub steps : {a b : JobState} → Run a b → ℕ
steps here = 0
steps (then e r) = suc (steps r)

-- How many changes are left at most.
abbrev left : JobState → ℕ
left pending = 4
left running = 3
left collecting = 2
left analyzing = 1
left _ = 0

left-Edge : {a b : JobState} → Edge a b → left b < left a
left-Edge start = omega arith
left-Edge collect = omega arith
left-Edge analyze = omega arith
left-Edge finish = omega arith
left-Edge crash_running = omega arith
left-Edge crash_collecting = omega arith
left-Edge crash_analyzing = omega arith
left-Edge stop = omega arith

steps-le-left : {a b : JobState} (r : Run a b) → steps r + left b ≤ left a
steps-le-left here = omega arith
steps-le-left (then {a = a} {b = b} e r) =
    omega (arith, left-Edge (valid-Edge a b e), steps-le-left r)

left-le : (a : JobState) → left a ≤ 4
left-le pending = omega arith
left-le _ = omega arith

-- Whatever allowed changes a job goes through, there are at most four of them.
steps-le : {a b : JobState} (r : Run a b) → steps r ≤ 4
steps-le {a} r = omega (arith, steps-le-left r, left-le a)

-- From every state that is not finished a job can still fail or be completed.
Run-completed : (s : JobState) → is_terminal s ≡ false → Run s completed × Run s failed
unfolding is_terminal
Run-completed pending h = (
  then (Edge-valid start)
      (then (Edge-valid collect) (then (Edge-valid analyze) (then (Edge-valid finish) here))),
  then (Edge-valid start) (then (Edge-valid crash_running) here),
)
Run-completed running h = (
  then (Edge-valid collect) (then (Edge-valid analyze) (then (Edge-valid finish) here)),
  then (Edge-valid crash_running) here,
)
Run-completed collecting h = (
  then (Edge-valid analyze) (then (Edge-valid finish) here),
  then (Edge-valid crash_collecting) here,
)
Run-completed analyzing h = (then (Edge-valid finish) here, then (Edge-valid crash_analyzing) here)
Run-completed _ h = absurd (cc h)
