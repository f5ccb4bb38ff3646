-- ===== src/Workers/Listing.antt =====
-- internal/workers/registry.go: List, which copies the entries and sorts them by their IDs. IDs are
-- compared by their characters, which for UTF-8 is Go's order by bytes.
use inferbolt.Base.{Bool, List, [], ◌∷◌, if◌then◌else◌}
use inferbolt.Base.Order.{less}
use inferbolt.Base.Maps.{Dict}
use inferbolt.Workers.Registry.{WorkerEntry}

-- The `less` of the sort.
abbrev pub has_less_id : WorkerEntry → WorkerEntry → Bool
has_less_id v w = less v.worker_id w.worker_id

unfoldable pub insert_id : WorkerEntry → List WorkerEntry → List WorkerEntry
insert_id w [] = w ∷ []
insert_id w (v ∷ rest) =
    let later = insert_id w rest in if has_less_id v w then v ∷ later else w ∷ v ∷ rest

-- Over the entries in the order of this visit. An ID stands once, so there are no ties, and how
-- the sort treats them does not show.
unfoldable pub list : Dict WorkerEntry → List WorkerEntry
unfolding insert_id
list [] = []
list ((k, w) ∷ order) = insert_id w (list order)
