-- ===== src/Workers/Registry.antt =====
-- internal/workers/registry.go. Every method holds the mutex for its whole body, so it is one step
-- from state to state. Times are nanoseconds, and `time.Now()` is an argument.
use inferbolt.Base.{
  ℕ, ◌+◌, String, Bool, true, false, ◌&&◌, Option, none, some, [], ◌∷◌, ◌==◌, ltb, if◌then◌else◌,
  length,
}
use inferbolt.Base.Maps.{Dict, put, update, update_all}

pub data WorkerStatus : Type 0 where
  idle busy offline : WorkerStatus

abbrev pub is_idle : WorkerStatus → Bool
is_idle idle = true
is_idle _ = false

abbrev is_offline : WorkerStatus → Bool
is_offline offline = true
is_offline _ = false

pub record WorkerEntry : Type 0 where
  pub worker_id : String
  pub url : String
  pub gpu_type : String
  pub status : WorkerStatus
  pub last_seen : ℕ
  pub current_job_id : String

-- `map[string]*WorkerEntry`. `ID`, `URL` and `GPUType` are never written through the pointer.
pub record WorkerRegistry : Type 0 where
  pub workers : Dict WorkerEntry

abbrev pub new_worker_registry : WorkerRegistry
new_worker_registry = record { workers = [] }

unfoldable pub register : ℕ → WorkerEntry → WorkerRegistry → WorkerRegistry
register now entry r = record {
  workers = put r.workers entry.worker_id (record entry { status = idle; last_seen = now });
}

unfoldable pub beat : ℕ → WorkerEntry → WorkerEntry
beat now w = record w { last_seen = now; status = if is_offline w.status then idle else w.status }

unfoldable pub heartbeat : ℕ → String → WorkerRegistry → WorkerRegistry
heartbeat now worker_id r = record { workers = update r.workers worker_id (beat now) }

abbrev occupy : String → WorkerEntry → WorkerEntry
occupy job_id w = record w { status = busy; current_job_id = job_id }

unfoldable pub mark_busy : String → String → WorkerRegistry → WorkerRegistry
mark_busy worker_id job_id r = record { workers = update r.workers worker_id (occupy job_id) }

abbrev pub free : WorkerEntry → WorkerEntry
free w = record w { status = idle; current_job_id = "" }

unfoldable pub mark_idle : String → WorkerRegistry → WorkerRegistry
mark_idle worker_id r = record { workers = update r.workers worker_id free }

-- The test of the two loops.
abbrev pub fits : String → WorkerEntry → Bool
fits gpu_profile w = is_idle w.status && (w.gpu_type == gpu_profile)

-- `for _, w := range r.workers`, over the entries in the order of this visit; `none` is
-- `ErrNoAvailableWorker`.
unfoldable pub select_worker : Dict WorkerEntry → String → Option WorkerEntry
select_worker [] gpu_profile = none
select_worker ((k, w) ∷ order) gpu_profile =
    if fits gpu_profile w then some w else select_worker order gpu_profile

unfoldable pub has_idle : Dict WorkerEntry → String → Bool
has_idle [] gpu_profile = false
has_idle ((k, w) ∷ order) gpu_profile =
    if fits gpu_profile w then true else has_idle order gpu_profile

-- `LastSeen.Before(time.Now().Add(-timeout))`
abbrev is_stale : ℕ → ℕ → WorkerEntry → Bool
is_stale now timeout w = ltb (w.last_seen + timeout) now

unfoldable pub evict : ℕ → ℕ → WorkerEntry → WorkerEntry
evict now timeout w = if is_stale now timeout w then record w { status = offline } else w

unfoldable pub evict_stale : ℕ → ℕ → WorkerRegistry → WorkerRegistry
evict_stale now timeout r = record { workers = update_all r.workers (evict now timeout) }

unfoldable pub count : WorkerRegistry → ℕ
count r = length r.workers

-- The tick of `StartHeartbeatEviction`.
abbrev pub eviction_timeout : ℕ
eviction_timeout = 30000000000

unfoldable pub eviction_tick : ℕ → WorkerRegistry → WorkerRegistry
eviction_tick now r = evict_stale now eviction_timeout r
