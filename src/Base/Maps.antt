-- ===== src/Base/Maps.antt =====
-- Go's `map[string]V` as an association list.
use Prim.Native.String.{String}
use mathlib.Core.Path.{◌≡◌, refl, ap, subst, subst₂}
use mathlib.Core.Logic.{inl, inr}
use mathlib.Core.Option
use mathlib.Core.Option.{Option, none, some, some-injective}
use mathlib.Core.List.{List, [], ◌∷◌}
use native.Mathlib.Omega.{arith}
use text.Mathlib.Text.{◌==◌}
use text.Mathlib.TextEquality.{eq_iff}
use inferbolt.Base.Tests.{if◌then◌else◌, Bool-cases}

abbrev pub Dict : Type 0 → Type 0
Dict V = List (String × V)

module _ {V : Type 0} where
  unfoldable pub get : Dict V → String → Option V
  get [] k = none
  get ((j, v) ∷ d) k = if j == k then some v else get d k

  unfoldable pub put : Dict V → String → V → Dict V
  put [] k v = (k, v) ∷ []
  put ((j, w) ∷ d) k v = if j == k then (j, v) ∷ d else (j, w) ∷ put d k v

  -- A write through the pointer that the map holds; a missing key is left alone.
  unfoldable pub update : Dict V → String → (V → V) → Dict V
  update [] k f = []
  update ((j, w) ∷ d) k f = if j == k then (j, f w) ∷ d else (j, w) ∷ update d k f

  -- A write to every entry.
  unfoldable pub update_all : Dict V → (V → V) → Dict V
  update_all [] f = []
  update_all ((j, w) ∷ d) f = (j, f w) ∷ update_all d f

  abbrev pub values : Dict V → List V
  values [] = []
  values ((k, v) ∷ d) = v ∷ values d

  pub get-put :
      (d : Dict V) (k j : String) (v : V) → get (put d k v) j ≡ (if k == j then some v else get d j)
  unfolding get put
  get-put [] k j v = refl
  get-put ((i, w) ∷ d) k j v = ground (arith, eq_iff k j, eq_iff i k, eq_iff i j, get-put d k j v)

  pub get-update :
      (d : Dict V) (k j : String) (f : V → V)
      → get (update d k f) j ≡ (if k == j then Option.map f (get d j) else get d j)
  unfolding get update
  get-update [] k j f = ground arith
  get-update ((i, w) ∷ d) k j f =
      ground (arith, eq_iff k j, eq_iff i k, eq_iff i j, get-update d k j f)

  pub get-update_all :
      (d : Dict V) (j : String) (f : V → V) → get (update_all d f) j ≡ Option.map f (get d j)
  unfolding get update_all
  get-update_all [] j f = refl
  get-update_all ((i, w) ∷ d) j f = ground (arith, get-update_all d j f)

  -- No key stands twice.
  abbrev pub Distinct : Dict V → Type 0
  Distinct [] = Unit
  Distinct ((k, v) ∷ d) = (get d k ≡ none) × Distinct d

  pub put-Distinct : (d : Dict V) (k : String) (v : V) → Distinct d → Distinct (put d k v)
  unfolding put get
  put-Distinct [] k v h = (refl, tt)
  put-Distinct ((j, w) ∷ d) k v h =
      ground (arith, eq_iff j k, eq_iff k j, get-put d k j v, put-Distinct d k v h.1)

  pub update-Distinct : (d : Dict V) (k : String) (f : V → V) → Distinct d → Distinct (update d k f)
  unfolding update get
  update-Distinct [] k f h = tt
  update-Distinct ((j, w) ∷ d) k f h = ground (arith, get-update d k j f, update-Distinct d k f h.1)

  pub update_all-Distinct : (d : Dict V) (f : V → V) → Distinct d → Distinct (update_all d f)
  unfolding update_all get
  update_all-Distinct [] f h = tt
  update_all-Distinct ((j, w) ∷ d) f h =
      ground (arith, get-update_all d j f, update_all-Distinct d f h.1)

  -- A predicate of every entry and its key, and how writes keep it.
  abbrev pub Every : (String → V → Type 0) → Dict V → Type 0
  Every P d = (k : String) (v : V) → get d k ≡ some v → P k v

  map-some :
      (f : V → V) (o : Option V) (w : V)
      → Option.map f o ≡ some w
      → (v : V) × (o ≡ some v) × (f v ≡ w)
  map-some f none w h = cc
  map-some f (some v) w h = (v, refl, ground arith)

  pub Every-put :
      (P : String → V → Type 0) (d : Dict V) (k : String) (v : V)
      → P k v
      → Every P d
      → Every P (put d k v)
  Every-put P d k v p h j w at = elim (Bool-cases (k == j)) [
    | inl same ↦
        let e : v ≡ w = ground (arith, get-put d k j v) in subst₂ P ((eq_iff k j).0 same) e p
    | inr other ↦ h j w (rw (get-put, other) at at)
  ]

  pub Every-update_all :
      (P : String → V → Type 0) (d : Dict V) (f : V → V)
      → ((j : String) (v : V) → P j v → P j (f v))
      → Every P d
      → Every P (update_all d f)
  Every-update_all P d f keep h j w at =
      let (v, was, now) = map-some f (get d j) w (rw get-update_all at at) in
      subst (P j) now (keep j v (h j v was))

  pub Every-update :
      (P : String → V → Type 0) (d : Dict V) (k : String) (f : V → V)
      → ((j : String) (v : V) → P j v → P j (f v))
      → Every P d
      → Every P (update d k f)
  Every-update P d k f keep h j w at = elim (Bool-cases (k == j)) [
    | inl same ↦
        let (v, was, now) = map-some f (get d j) w (rw (get-update, same) at at) in
        subst (P j) now (keep j v (h j v was))
    | inr other ↦ h j w (rw (get-update, other) at at)
  ]

  -- What a `range` over the map visits: each key once, with its value, in an order of its own.
  pub record Visits (order : Dict V) (d : Dict V) : Type 0 where
    pub once : Distinct order
    pub same : (k : String) → get order k ≡ get d k

  -- A write that leaves the value it finds leaves the map.
  pub update-same :
      (d : Dict V) (k : String) (v : V) (f : V → V) → get d k ≡ some v → f v ≡ v → update d k f ≡ d
  unfolding get update
  update-same [] k v f h e = refl
  update-same ((j, w) ∷ d) k v f h e = elim (Bool-cases (j == k)) [
    | inl m ↦
        let q : some w ≡ some v = rw m at h in
        rw m (ap (λ x. (j, x) ∷ d) (fixed (some-injective _ _ q)))
    | inr m ↦ rw m (ap (λ r. (j, w) ∷ r) (update-same d k v f (rw m at h) e))
  ]
    where
      fixed : w ≡ v → f w ≡ w
      fixed q = rw q e
