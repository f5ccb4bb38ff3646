-- ===== src/Workers/Selection.antt =====
-- Which worker a job gets, whatever the order in which Go visits the map.
use inferbolt.Base.{
  String, ◌≡◌, refl, true, Option, none, some, [], ◌∷◌, arith, eq_iff, sym, ◌∙◌, Bool-cases, inl,
  inr, is_some,
}
use inferbolt.Base.Maps.{Dict, get, Distinct, Visits}
use inferbolt.Workers.Registry.{WorkerEntry, WorkerRegistry, idle, fits, select_worker, has_idle}

-- A worker that can take a job of this profile.
pub record IsFree (gpu_profile : String) (w : WorkerEntry) : Type 0 where
  pub is_idle : w.status ≡ idle
  pub matches : w.gpu_type ≡ gpu_profile

fits-IsFree : (gpu : String) (w : WorkerEntry) → fits gpu w ≡ true → IsFree gpu w
fits-IsFree gpu w h = ground (arith, eq_iff w.gpu_type gpu)

IsFree-fits : (gpu : String) (w : WorkerEntry) → IsFree gpu w → fits gpu w ≡ true
IsFree-fits gpu w h = ground (arith, eq_iff w.gpu_type gpu)

select-some :
    (order : Dict WorkerEntry) (gpu : String) (w : WorkerEntry)
    → Distinct order
    → select_worker order gpu ≡ some w
    → (id : String) × (get order id ≡ some w) × IsFree gpu w
unfolding select_worker get
select-some [] gpu w d h = cc
select-some ((k, v) ∷ order) gpu w d h = elim (Bool-cases (fits gpu v)) [
  | inl hit ↦ (k, ground (arith, eq_iff k k), ground (arith, fits-IsFree gpu v))
  | inr miss ↦
      let (id, at, free) = select-some order gpu w d.1 (rw miss at h) in
      (id, ground (arith, eq_iff k id), free)
]

select-none :
    (order : Dict WorkerEntry) (gpu id : String) (w : WorkerEntry)
    → select_worker order gpu ≡ none
    → get order id ≡ some w
    → ¬ IsFree gpu w
unfolding select_worker get
select-none [] gpu id w h at free = cc
select-none ((k, v) ∷ order) gpu id w h at free =
    ground (arith, IsFree-fits gpu w, select-none order gpu id w)

-- In whatever order the map is visited, the worker that is selected is registered, idle and of the
-- wanted GPU type; and if none is selected, no registered worker is idle and of that type.
pub select_worker_lem :
    (r : WorkerRegistry) (order : Dict WorkerEntry) (gpu : String)
    → Visits order r.workers
    → ((w : WorkerEntry)
        → select_worker order gpu ≡ some w
        → (id : String) × (get r.workers id ≡ some w) × IsFree gpu w)
      × (select_worker order gpu ≡ none
          → (id : String) (w : WorkerEntry) → get r.workers id ≡ some w
          → ¬ IsFree gpu w)
select_worker_lem r order gpu v = (
  λ w h. let (id, at, free) = select-some order gpu w v.once h in (id, sym (v.same id) ∙ at, free),
  λ h id w at. select-none order gpu id w h (v.same id ∙ at),
)

has_idle-select :
    (order : Dict WorkerEntry) (gpu : String)
    → has_idle order gpu ≡ is_some (select_worker order gpu)
unfolding has_idle select_worker
has_idle-select [] gpu = refl
has_idle-select ((k, w) ∷ order) gpu = ground (arith, has_idle-select order gpu)

-- The two loops may visit the map in different orders: `has_idle` still says whether a worker would
-- be selected.
pub has_idle-select_worker :
    (r : WorkerRegistry) (order other : Dict WorkerEntry) (gpu : String)
    → Visits order r.workers
    → Visits other r.workers
    → has_idle order gpu ≡ is_some (select_worker other gpu)
has_idle-select_worker r order other gpu v u =
    rw (has_idle-select order gpu)
      (go (select_worker order gpu) (select_worker other gpu) refl refl)
  where
    go :
        (a b : Option WorkerEntry)
        → select_worker order gpu ≡ a
        → select_worker other gpu ≡ b
        → is_some a ≡ is_some b
    go none none p q = refl
    go (some w) (some x) p q = refl
    go none (some x) p q =
        let (id, at, free) = (select_worker_lem r other gpu u).0 x q in
        absurd ((select_worker_lem r order gpu v).1 p id x at free)
    go (some w) none p q =
        let (id, at, free) = (select_worker_lem r order gpu v).0 w p in
        absurd ((select_worker_lem r other gpu u).1 q id w at free)
