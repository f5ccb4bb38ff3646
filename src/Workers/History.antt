-- ===== src/Workers/History.antt =====
-- What holds of the registry after any sequence of calls, from any goroutine: a call holds the
-- mutex, so calls are steps of one sequence.
use inferbolt.Base.{ℕ, ◌+◌, ◌≤◌, String, ◌≡◌, refl, List, [], ◌∷◌, arith}
use inferbolt.Base.Maps.{
  Distinct, Every, Every-put, Every-update, Every-update_all, put-Distinct, update-Distinct,
  update_all-Distinct,
}
use inferbolt.Workers.Registry.{
  WorkerEntry, WorkerRegistry, register, heartbeat, mark_busy, mark_idle, evict_stale, beat, evict,
}

pub data Call : Type 0 where
  registers : WorkerEntry → Call
  beats : String → Call
  marks_busy : String → String → Call
  marks_idle : String → Call
  evicts : ℕ → Call

-- One call at the time `now`.
pub call : ℕ → Call → WorkerRegistry → WorkerRegistry
call now (registers entry) r = register now entry r
call now (beats id) r = heartbeat now id r
call now (marks_busy id job) r = mark_busy id job r
call now (marks_idle id) r = mark_idle id r
call now (evicts timeout) r = evict_stale now timeout r

-- Each call comes with the time that passed since the one before it.
pub calls : ℕ → List (ℕ × Call) → WorkerRegistry → WorkerRegistry
calls now [] r = r
calls now ((gap, c) ∷ rest) r = calls (now + gap) rest (call (now + gap) c r)

abbrev pub clock : ℕ → List (ℕ × Call) → ℕ
clock now [] = now
clock now ((gap, c) ∷ rest) = clock (now + gap) rest

-- An entry stands under its own ID, and was not seen in the future.
abbrev Tidy : ℕ → String → WorkerEntry → Type 0
Tidy now k w = (w.worker_id ≡ k) × (w.last_seen ≤ now)

pub record IsSound (now : ℕ) (r : WorkerRegistry) : Type 0 where
  pub distinct : Distinct r.workers
  pub tidy : Every (Tidy now) r.workers

later : (t gap : ℕ) (r : WorkerRegistry) → IsSound t r → Every (Tidy (t + gap)) r.workers
later t gap r s k w at = let (own, seen) = s.tidy k w at in (own, omega arith)

call-IsSound :
    (t gap : ℕ) (c : Call) (r : WorkerRegistry)
    → IsSound t r
    → IsSound (t + gap) (call (t + gap) c r)
unfolding call register heartbeat mark_busy mark_idle evict_stale beat evict
call-IsSound t gap (registers e) r s = record {
  distinct = put-Distinct r.workers e.worker_id _ s.distinct;
  tidy = Every-put (Tidy (t + gap)) r.workers e.worker_id _ (refl, omega arith) (later t gap r s);
}
call-IsSound t gap (beats id) r s = record {
  distinct = update-Distinct r.workers id _ s.distinct;
  tidy =
      Every-update (Tidy (t + gap)) r.workers id _ (λ j v p. (p.0, omega arith)) (later t gap r s);
}
call-IsSound t gap (marks_busy id job) r s = record {
  distinct = update-Distinct r.workers id _ s.distinct;
  tidy = Every-update (Tidy (t + gap)) r.workers id _ (λ j v p. p) (later t gap r s);
}
call-IsSound t gap (marks_idle id) r s = record {
  distinct = update-Distinct r.workers id _ s.distinct;
  tidy = Every-update (Tidy (t + gap)) r.workers id _ (λ j v p. p) (later t gap r s);
}
call-IsSound t gap (evicts timeout) r s = record {
  distinct = update_all-Distinct r.workers _ s.distinct;
  tidy = Every-update_all (Tidy (t + gap)) r.workers _ (λ j v p. ground arith) (later t gap r s);
}

-- After any sequence of calls no worker stands twice in the registry, each stands under its own ID,
-- and none has been seen later than the clock.
pub calls-IsSound :
    (now : ℕ) (cs : List (ℕ × Call)) (r : WorkerRegistry)
    → IsSound now r
    → IsSound (clock now cs) (calls now cs r)
unfolding calls
calls-IsSound now [] r s = s
calls-IsSound now ((gap, c) ∷ rest) r s =
    calls-IsSound (now + gap) rest (call (now + gap) c r) (call-IsSound now gap c r s)
