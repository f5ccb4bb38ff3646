-- ===== src/Examples/WorkerTests.antt =====
-- The theorems on the registry at concrete inputs.
use inferbolt.Base.{ℕ, String, ◌≡◌, refl, List, [], ◌∷◌, arith, eq_iff}
use inferbolt.Base.Texts.{apart}
use inferbolt.Base.Order.{less}
use inferbolt.Base.Maps.{Dict, get, Visits}
use inferbolt.Workers.Registry.{WorkerEntry, WorkerRegistry, new_worker_registry}
use inferbolt.Workers.Listing.{list}
use inferbolt.Workers.Sorted.{find, IsSorted, list_lem}
use inferbolt.Workers.History.{
  Call, registers, beats, marks_busy, evicts, calls, clock, IsSound, calls-IsSound,
}
use inferbolt.Examples.Data.{worker, registry}

visits : Visits registry.workers registry.workers
unfolding get
visits = record { once = (refl, tt); same = λ k. refl }

abbrev history : List (ℕ × Call)
history = (1, registers worker) ∷ (5, marks_busy "w1" "j1") ∷ (2, beats "w1") ∷ (9, evicts 3) ∷ []

calls-IsSound_example : IsSound (clock 0 history) (calls 0 history new_worker_registry)
unfolding get
calls-IsSound_example =
    calls-IsSound 0 history new_worker_registry (record { distinct = tt; tidy = λ k w h. cc })

abbrev other_worker : WorkerEntry
other_worker = record worker { worker_id = "w2"; last_seen = 8 }

abbrev pair : WorkerRegistry
pair = record { workers = ("w2", other_worker) ∷ ("w1", worker) ∷ [] }

abbrev turned : Dict WorkerEntry
turned = ("w1", worker) ∷ ("w2", other_worker) ∷ []

pair-Visits : Visits pair.workers pair.workers
unfolding get
pair-Visits = record { once = (refl, (refl, tt)); same = λ k. refl }

turned-Visits : Visits turned pair.workers
unfolding get
turned-Visits = record {
  once = (refl, (refl, tt));
  same = λ k. ground (arith, eq_iff "w1" k, eq_iff "w2" k, apart "w1" "w2" refl);
}

pair-IsSound : IsSound 9 pair
unfolding get
pair-IsSound = record {
  distinct = (refl, (refl, tt));
  tidy = λ k w h. ground (arith, h, eq_iff "w1" k, eq_iff "w2" k);
}

list_lem_example :
    (list pair.workers ≡ list turned)
    × IsSorted (list pair.workers)
    × ((id : String) → find id (list pair.workers) ≡ get pair.workers id)
list_lem_example = list_lem 9 pair pair.workers turned pair-IsSound pair-Visits turned-Visits

list-turned : list turned ≡ worker ∷ other_worker ∷ []
unfolding list less
list-turned = refl
