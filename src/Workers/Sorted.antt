-- ===== src/Workers/Sorted.antt =====
-- internal/workers/registry.go: what List answers with, however Go visits the map.
use inferbolt.Base.{
  ℕ, String, ◌≡◌, ◌≢◌, refl, sym, subst, true, Option, none, some, List, [], ◌∷◌, ◌∙◌, ap, ◌==◌,
  Bool-cases, inl, inr, arith, eq_iff, if◌then◌else◌,
}
use inferbolt.Base.Order.{less, less_irrefl, less_trans, less_connected}
use inferbolt.Base.Maps.{Dict, get, Distinct, Every, Visits}
use inferbolt.Workers.Registry.{WorkerEntry, WorkerRegistry}
use inferbolt.Workers.History.{IsSound}
use inferbolt.Workers.Listing.{has_less_id, insert_id, list}

-- The entry with an ID.
unfoldable pub find : String → List WorkerEntry → Option WorkerEntry
find k [] = none
find k (w ∷ l) = if w.worker_id == k then some w else find k l

-- All IDs of the list are greater.
abbrev Below : String → List WorkerEntry → Type 0
Below k [] = Unit
Below k (w ∷ l) = (less k w.worker_id ≡ true) × Below k l

abbrev pub IsSorted : List WorkerEntry → Type 0
IsSorted [] = Unit
IsSorted (w ∷ l) = Below w.worker_id l × IsSorted l

find-Below : (k : String) (l : List WorkerEntry) → Below k l → find k l ≡ none
unfolding find
find-Below k [] b = refl
find-Below k (w ∷ l) b =
    ground (arith, eq_iff w.worker_id k, less_irrefl k, find-Below k l b.1, b.0)

Below-trans : (j k : String) (l : List WorkerEntry) → less j k ≡ true → Below k l → Below j l
Below-trans j k [] h b = tt
Below-trans j k (w ∷ l) h b = (less_trans j k w.worker_id h b.0, Below-trans j k l h b.1)

insert_id-Below :
    (k : String) (w : WorkerEntry) (l : List WorkerEntry)
    → less k w.worker_id ≡ true
    → Below k l
    → Below k (insert_id w l)
unfolding insert_id
insert_id-Below k w [] h b = (h, tt)
insert_id-Below k w (v ∷ l) h b = elim (Bool-cases (has_less_id v w)) [
  | inl e ↦ rw e (b.0, insert_id-Below k w l h b.1)
  | inr e ↦ rw e (h, b)
]

insert_id-IsSorted :
    (w : WorkerEntry) (l : List WorkerEntry)
    → find w.worker_id l ≡ none
    → IsSorted l
    → IsSorted (insert_id w l)
unfolding insert_id find
insert_id-IsSorted w [] f s = (tt, tt)
insert_id-IsSorted w (v ∷ l) f s = elim (Bool-cases (has_less_id v w)) [
  | inl e ↦ rw e (insert_id-Below v.worker_id w l e s.0, insert_id-IsSorted w l (ground arith) s.1)
  | inr e ↦
      let wv : less w.worker_id v.worker_id ≡ true =
        ground (arith, eq_iff v.worker_id w.worker_id, less_connected v.worker_id w.worker_id) in
      rw e ((wv, Below-trans _ _ l wv s.0), s)
]

find-insert_id :
    (k : String) (w : WorkerEntry) (l : List WorkerEntry)
    → find k (insert_id w l) ≡ (if w.worker_id == k then some w else find k l)
unfolding insert_id find
find-insert_id k w [] = refl
find-insert_id k w (v ∷ l) =
    ground (arith, eq_iff w.worker_id k, eq_iff v.worker_id k, less_irrefl k, find-insert_id k w l)

-- Where the first ID of one list is less than that of the other, it is found in the one alone.
found_first :
    (w v : WorkerEntry) (l m : List WorkerEntry)
    → Below v.worker_id m
    → less w.worker_id v.worker_id ≡ true
    → find w.worker_id (w ∷ l) ≢ find w.worker_id (v ∷ m)
unfolding find
found_first w v l m b e h = ground (
  arith,
  h,
  eq_iff w.worker_id w.worker_id,
  find-Below w.worker_id (v ∷ m) (e, Below-trans w.worker_id v.worker_id m e b),
)

rest_alike :
    (w v : WorkerEntry) (l m : List WorkerEntry)
    → Below w.worker_id l
    → Below v.worker_id m
    → w.worker_id ≡ v.worker_id
    → ((k : String) → find k (w ∷ l) ≡ find k (v ∷ m))
    → (k : String) → find k l ≡ find k m
unfolding find
rest_alike w v l m b c e h k = elim (Bool-cases (w.worker_id == k)) [
  | inl i ↦
      let at : w.worker_id ≡ k = (eq_iff w.worker_id k).0 i in
      find-Below k l (subst (λ x. Below x l) at b)
      ∙ sym (find-Below k m (subst (λ x. Below x m) (sym e ∙ at) c))
  | inr o ↦ ground (arith, h k, eq_iff w.worker_id k, eq_iff v.worker_id k)
]

-- A sorted list is told by what is found in it.
found_alike :
    (l m : List WorkerEntry)
    → IsSorted l
    → IsSorted m
    → ((k : String) → find k l ≡ find k m)
    → l ≡ m
unfolding find
found_alike [] [] s r h = refl
found_alike [] (v ∷ m) s r h = ground (arith, h v.worker_id, eq_iff v.worker_id v.worker_id)
found_alike (w ∷ l) [] s r h = ground (arith, h w.worker_id, eq_iff w.worker_id w.worker_id)
found_alike (w ∷ l) (v ∷ m) s r h = elim (Bool-cases (less w.worker_id v.worker_id)) [
  | inl e ↦ absurd (found_first w v l m r.0 e (h w.worker_id))
  | inr e ↦ elim (Bool-cases (less v.worker_id w.worker_id)) [
    | inl d ↦ absurd (found_first v w m l s.0 d (sym (h v.worker_id)))
    | inr d ↦
        let same : w.worker_id ≡ v.worker_id = less_connected w.worker_id v.worker_id e d in
        let head : w ≡ v =
          ground (
            arith,
            h w.worker_id,
            eq_iff w.worker_id w.worker_id,
            eq_iff v.worker_id w.worker_id,
          ) in
        ap (λ x. x ∷ l) head
        ∙ ap (λ x. v ∷ x) (found_alike l m s.1 r.1 (rest_alike w v l m s.0 r.0 same h))
  ]
]

-- Each entry stands under its own ID.
abbrev Own : Dict WorkerEntry → Type 0
Own order = Every (λ j w. w.worker_id ≡ j) order

rest-Own :
    (j : String) (w : WorkerEntry) (order : Dict WorkerEntry)
    → Distinct ((j, w) ∷ order)
    → Own ((j, w) ∷ order)
    → Own order
unfolding get
rest-Own j w order d own k v at = own k v (ground (arith, d.0, eq_iff j k))

first-Own :
    (j : String) (w : WorkerEntry) (order : Dict WorkerEntry)
    → Own ((j, w) ∷ order)
    → w.worker_id ≡ j
unfolding get
first-Own j w order own = own j w (ground (arith, eq_iff j j))

find-list :
    (k : String) (order : Dict WorkerEntry)
    → Distinct order
    → Own order
    → find k (list order) ≡ get order k
unfolding find list get
find-list k [] d own = refl
find-list k ((j, w) ∷ order) d own =
    find-insert_id k w (list order)
    ∙ (let rest = find-list k order d.1 (rest-Own j w order d own) in
        ground (arith, rest, first-Own j w order own))

list-IsSorted : (order : Dict WorkerEntry) → Distinct order → Own order → IsSorted (list order)
unfolding list get
list-IsSorted [] d own = tt
list-IsSorted ((j, w) ∷ order) d own =
    insert_id-IsSorted w (list order)
      (find-list w.worker_id order d.1 (rest-Own j w order d own)
        ∙ ap (get order) (first-Own j w order own)
        ∙ d.0)
      (list-IsSorted order d.1 (rest-Own j w order d own))

visit-Own :
    (r : WorkerRegistry) (order : Dict WorkerEntry)
    → Own r.workers
    → Visits order r.workers
    → Own order
visit-Own r order own v k w at = own k w (sym (v.same k) ∙ at)

-- In whatever order Go visits the map, List answers with the same workers in the same order: by
-- increasing IDs, and an ID is listed with the entry that the registry holds for it, or not at all.
-- The registry is one that calls have led to.
pub list_lem :
    (now : ℕ) (r : WorkerRegistry) (order again : Dict WorkerEntry)
    → IsSound now r
    → Visits order r.workers
    → Visits again r.workers
    → (list order ≡ list again)
      × IsSorted (list order)
      × ((id : String) → find id (list order) ≡ get r.workers id)
list_lem now r order again sound v w =
    let registered : Own r.workers = λ k e at. (sound.tidy k e at).0 in
    let own = visit-Own r order registered v in
    let own_too = visit-Own r again registered w in
    let sorted = list-IsSorted order v.once own in
    let sorted_too = list-IsSorted again w.once own_too in
    let found : (k : String) → find k (list order) ≡ get r.workers k =
      λ k. find-list k order v.once own ∙ v.same k in
    let found_too : (k : String) → find k (list again) ≡ get r.workers k =
      λ k. find-list k again w.once own_too ∙ w.same k in
    (found_alike _ _ sorted sorted_too (λ k. found k ∙ sym (found_too k)), sorted, found)
