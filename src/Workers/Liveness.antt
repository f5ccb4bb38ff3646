-- ===== src/Workers/Liveness.antt =====
-- How heartbeats, eviction and dispatch act on one worker.
use inferbolt.Base.{ℕ, ◌+◌, ◌≤◌, ◌<◌, String, ◌≡◌, some, arith, ==_self}
use inferbolt.Base.Maps.{get, get-update, get-update_all}
use inferbolt.Workers.Registry.{
  WorkerEntry, WorkerRegistry, idle, offline, heartbeat, mark_busy, evict_stale, beat, evict,
  eviction_tick, eviction_timeout,
}

-- A tick of the eviction takes a worker offline exactly when its last sign of life is more than
-- 30 seconds old, and leaves every other entry as it was.
pub eviction_tick_exact :
    (r : WorkerRegistry) (now : ℕ) (id : String) (w : WorkerEntry)
    → get r.workers id ≡ some w
    → (w.last_seen + 30000000000 < now
        → get (eviction_tick now r).workers id ≡ some (record w { status = offline }))
      × (now ≤ w.last_seen + 30000000000 → get (eviction_tick now r).workers id ≡ some w)
unfolding eviction_tick evict_stale evict
eviction_tick_exact r now id w at = (
  λ late. rw (get-update_all r.workers id (evict now eviction_timeout)) (ground arith),
  λ early. rw (get-update_all r.workers id (evict now eviction_timeout)) (ground arith),
)

-- A worker that is busy when the eviction takes it offline comes back idle with its next
-- heartbeat, though the job that it runs is still recorded.
pub heartbeat_forgets_busy :
    (r : WorkerRegistry) (t now : ℕ) (id job : String) (w : WorkerEntry)
    → get r.workers id ≡ some w
    → w.last_seen + 30000000000 < t
    → get (heartbeat now id (eviction_tick t (mark_busy id job r))).workers id
      ≡ some (record w { status = idle; last_seen = now; current_job_id = job })
unfolding heartbeat eviction_tick evict_stale evict mark_busy beat
heartbeat_forgets_busy r t now id job w at late =
    simp (get-update, get-update_all, ==_self) (rw at (ground arith))
