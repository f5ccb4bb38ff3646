-- ===== src/Cli/Stack.antt =====
-- cmd/inferbolt/main.go: `ensureStack`, which starts a worker where none is idle, and its wait.
use mathlib.Core.Option.{some-injective}
use inferbolt.Base.{
  String, Bool, true, false, not, ◌&&◌, Option, none, some, List, [], ◌∷◌, ◌≡◌, refl, ◌⊎◌, inl, inr,
  ap, ◌++◌, arith, Bool-cases, Option-cases, subst, concat, if◌then◌else◌,
}
use inferbolt.Base.Results.{Result, ok, err}
use inferbolt.Workers.Registry.{WorkerEntry, fits}

-- `HasIdleWorker`, over the list that the orchestrator answers.
unfoldable pub any_idle : List WorkerEntry → String → Bool
any_idle [] gpu_profile = false
any_idle (w ∷ list) gpu_profile =
    let rest = any_idle list gpu_profile in if fits gpu_profile w then true else rest

unfoldable pub has_idle_worker : Result (List WorkerEntry) → String → Result Bool
unfolding any_idle
has_idle_worker (err e) gpu_profile = err e
has_idle_worker (ok list) gpu_profile = ok (any_idle list gpu_profile)

-- One turn of `waitForIdleWorker`.
pub record IdleLook : Type 0 where
  pub list : Result (List WorkerEntry)
  pub expired : Bool
  pub cancelled : Option String

abbrev pub found_idle : Result Bool → Bool
found_idle (err e) = false
found_idle (ok b) = b

abbrev pub idle_waited : Option String → Option (Option String) → Option (Option String)
idle_waited (some cause) rest = some (some cause)
idle_waited none rest = rest

abbrev pub not_registered : String
not_registered = "worker did not register with the orchestrator"

unfoldable pub wait_for_idle_worker : String → List IdleLook → Option (Option String)
unfolding has_idle_worker
wait_for_idle_worker gpu_profile [] = none
wait_for_idle_worker gpu_profile (look ∷ looks) =
    let rest = wait_for_idle_worker gpu_profile looks in
    if found_idle (has_idle_worker look.list gpu_profile)
    then some none
    else if look.expired
    then some (some not_registered)
    else idle_waited look.cancelled rest

-- The error, whether a worker that was started here is running, and whether the cleanup that is
-- returned stops it.
pub record Stack : Type 0 where
  pub error : Option String
  pub running : Bool
  pub stops : Bool

pub record StackInputs : Type 0 where
  pub config_error : Option String
  pub gpu_profile : String
  pub list : Result (List WorkerEntry)
  pub spawn_error : Option String
  pub keep_worker : Bool
  pub looks : List IdleLook

abbrev pub without_worker : Option String → Stack
without_worker e = record { error = e; running = false; stops = false }

-- The cleanup stops the worker, or nothing where it is to be kept.
unfoldable pub awaited : Bool → Option (Option String) → Option Stack
awaited keep none = none
awaited keep (some (some e)) = some (record { error = some e; running = keep; stops = false })
awaited keep (some none) = some (record { error = none; running = true; stops = not keep })

unfoldable pub spawned : StackInputs → Option String → Option Stack
unfolding awaited wait_for_idle_worker
spawned w (some e) = some (without_worker (some e))
spawned w none = awaited w.keep_worker (wait_for_idle_worker w.gpu_profile w.looks)

unfoldable pub looked_for : StackInputs → Result Bool → Option Stack
unfolding spawned
looked_for w (err e) = some (without_worker (some (concat "checking worker availability: " e)))
looked_for w (ok true) = some (without_worker none)
looked_for w (ok false) = spawned w w.spawn_error

unfoldable pub ensured : StackInputs → Option String → Option Stack
unfolding looked_for has_idle_worker
ensured w (some e) = some (without_worker (some e))
ensured w none = looked_for w (has_idle_worker w.list w.gpu_profile)

unfoldable pub ensure_stack : StackInputs → Option Stack
unfolding ensured
ensure_stack w = ensured w w.config_error

-- The worker that is running when the command has ended: after an error there is no cleanup to
-- call, and otherwise it is called.
abbrev pub left_running : Stack → Bool
left_running s = s.running && not s.stops

-- A look at which a worker was idle, in its place.
abbrev pub Seen : String → List IdleLook → Type 0
Seen gpu_profile looks =
    (early : List IdleLook) × (look : IdleLook) × (behind : List IdleLook) × (looks
      ≡ early ++ look ∷ behind)
    × (has_idle_worker look.list gpu_profile ≡ ok true)

found_idle-true : (r : Result Bool) → found_idle r ≡ true → r ≡ ok true
found_idle-true (err e) h = cc
found_idle-true (ok b) h = ap ok h

idle_waited-none :
    (c : Option String) (rest : Option (Option String))
    → idle_waited c rest ≡ some none
    → rest ≡ some none
idle_waited-none none rest h = h
idle_waited-none (some e) rest h = cc

wait_for_idle_worker-Seen :
    (gpu_profile : String) (looks : List IdleLook)
    → wait_for_idle_worker gpu_profile looks ≡ some none
    → Seen gpu_profile looks
unfolding wait_for_idle_worker
wait_for_idle_worker-Seen gpu_profile [] h = cc
wait_for_idle_worker-Seen gpu_profile (look ∷ looks) h =
    elim (Bool-cases (found_idle (has_idle_worker look.list gpu_profile))) [
      | inl k ↦ ([], look, looks, refl, found_idle-true _ k)
      | inr k ↦ elim (Bool-cases look.expired) [
        | inl e ↦ absurd (timed_out (rw (k, e) at h))
        | inr e ↦
            let (early, found, behind, there, idle) =
              wait_for_idle_worker-Seen gpu_profile looks
                (idle_waited-none look.cancelled _ (rw (k, e) at h)) in
            (look ∷ early, found, behind, ap (λ l. look ∷ l) there, idle)
      ]
    ]
  where
    timed_out : some (some not_registered) ≡ some none → ⊥
    timed_out t = cc

-- What a stack that was ensured tells of its inputs.
abbrev pub Ensured : StackInputs → Stack → Type 0
Ensured w s =
    (left_running s ≡ true
      → (w.keep_worker ≡ true)
        × (has_idle_worker w.list w.gpu_profile ≡ ok false)
        × (w.spawn_error ≡ none))
    × (s.error ≡ none
        → (has_idle_worker w.list w.gpu_profile ≡ ok true) ⊎ Seen w.gpu_profile w.looks)

awaited-Ensured :
    (w : StackInputs) (answer : Option (Option String)) (s : Stack)
    → wait_for_idle_worker w.gpu_profile w.looks ≡ answer
    → has_idle_worker w.list w.gpu_profile ≡ ok false
    → w.spawn_error ≡ none
    → awaited w.keep_worker answer ≡ some s
    → Ensured w s
unfolding awaited
awaited-Ensured w none s e f n h = cc
awaited-Ensured w (some none) s e f n h =
    subst (Ensured w) (some-injective _ _ h)
      (λ left. (ground arith, f, n), λ k. inr (wait_for_idle_worker-Seen w.gpu_profile w.looks e))
awaited-Ensured w (some (some x)) s e f n h =
    subst (Ensured w) (some-injective _ _ h) (λ left. (ground arith, f, n), λ k. cc)

none_started : (w : StackInputs) (e : String) → Ensured w (without_worker (some e))
none_started w e = (λ left. cc, λ k. cc)

looked_for-Ensured :
    (w : StackInputs) (r : Result Bool) (s : Stack)
    → has_idle_worker w.list w.gpu_profile ≡ r
    → looked_for w r ≡ some s
    → Ensured w s
unfolding looked_for spawned
looked_for-Ensured w (err e) s f h =
    subst (Ensured w) (some-injective _ _ h)
      (none_started w (concat "checking worker availability: " e))
looked_for-Ensured w (ok true) s f h =
    subst (Ensured w) (some-injective _ _ h) (λ left. cc, λ k. inl f)
looked_for-Ensured w (ok false) s f h = elim (Option-cases w.spawn_error) [
  | inl n ↦ awaited-Ensured w _ s refl f n (rw n at h)
  | inr (e, n) ↦
      let failed : some (without_worker (some e)) ≡ some s = rw n at h in
      subst (Ensured w) (some-injective _ _ failed) (none_started w e)
]

-- A worker that the command started is left running only where it is to be kept, also after an
-- error; and the command goes on without an error only when a worker of the profile was seen idle,
-- in the first list or at one of the looks.
pub ensure_stack-Ensured :
    (w : StackInputs) (s : Stack)
    → ensure_stack w ≡ some s
    → (left_running s ≡ true
        → (w.keep_worker ≡ true)
          × (has_idle_worker w.list w.gpu_profile ≡ ok false)
          × (w.spawn_error ≡ none))
      × (s.error ≡ none
          → (has_idle_worker w.list w.gpu_profile ≡ ok true) ⊎ Seen w.gpu_profile w.looks)
unfolding ensure_stack ensured
ensure_stack-Ensured w s h = elim (Option-cases w.config_error) [
  | inl n ↦ looked_for-Ensured w _ s refl (rw n at h)
  | inr (e, n) ↦
      let failed : some (without_worker (some e)) ≡ some s = rw n at h in
      subst (Ensured w) (some-injective _ _ failed) (none_started w e)
]
