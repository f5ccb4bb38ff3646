-- ===== src/Auth/Access.antt =====
-- Who a verified token speaks for.
use mathlib.Core.Option.{none-ne-some, some-injective}
use inferbolt.Base.{
  ℕ, ◌+◌, ◌≤◌, ◌<◌, String, ◌≡◌, refl, ap, subst, false, ◌||◌, Option, none, some, List, [], ◌∷◌,
  ◌==◌, ltb, ◌⊎◌, inl, inr, arith, Bool-cases, contains,
}
use inferbolt.Base.Maps.{get, Every, Every-put}
use inferbolt.Auth.Keys.{
  Claims, TokenError, Parsed, valid, too_old, bad, Cache, cache_ttl, live, parsed, looked_up,
  verify, any_scope, has_scope, scope_admin_all,
}
use inferbolt.Auth.Middleware.{require_scope}

module _ (hash : String → String) (parse : ℕ → String → Parsed) where
  -- The claims are what the JWT library answered about the token, less than five minutes ago.
  abbrev Confirmed : ℕ → String → Claims → Type 0
  Confirmed now token c =
      (at : ℕ) × (parse at token ≡ valid c)
      × (at ≤ now)
      × (now < at + cache_ttl)
      × ((c.tenant_id == "") ≡ false)

  -- An entry of the cache stands for a token that was verified.
  abbrev FromToken : ℕ → String → Claims × ℕ → Type 0
  FromToken now key e =
      (token : String) × (at : ℕ) × (hash token ≡ key)
      × (parse at token ≡ valid e.0)
      × (at ≤ now)
      × (e.1 ≡ at + cache_ttl)
      × ((e.0.tenant_id == "") ≡ false)

  abbrev pub Genuine : ℕ → Cache → Type 0
  Genuine now cache = Every (FromToken now) cache

  abbrev pub Authentic : ℕ → String → TokenError ⊎ Claims → Type 0
  Authentic now token (inl e) = Unit
  Authentic now token (inr c) = Confirmed now token c

  parsed_lem :
      (now : ℕ) (token : String) (p : Parsed) (cache : Cache)
      → parse now token ≡ p
      → Genuine now cache
      → Authentic now token (parsed now (hash token) p cache).0
        × Genuine now (parsed now (hash token) p cache).1
  unfolding parsed
  parsed_lem now token too_old cache e g = (tt, g)
  parsed_lem now token bad cache e g = (tt, g)
  parsed_lem now token (valid c) cache e g = elim (Bool-cases (c.tenant_id == "")) [
    | inl h ↦ rw h (tt, g)
    | inr h ↦ rw h (
      (now, e, omega arith, omega arith, h),
      Every-put (FromToken now) cache (hash token) (c, now + cache_ttl)
          (token, now, refl, e, omega arith, refl, h) g,
    )
  ]

  live-lem :
      (now : ℕ) (o : Option (Claims × ℕ)) (c : Claims)
      → live now o ≡ some c
      → (until : ℕ) × (o ≡ some (c, until)) × (now < until)
  unfolding live
  live-lem now none c h = absurd (none-ne-some c h)
  live-lem now (some (d, until)) c h = elim (Bool-cases (ltb now until)) [
    | inl e ↦ (until, ap (λ x. some (x, until)) (some-injective _ _ (rw e at h)), ground (arith, e))
    | inr e ↦ absurd (none-ne-some c (rw e at h))
  ]

  -- With a hash that tells tokens apart, verifying a token never answers with the claims of
  -- another, nor with claims that the JWT library did not confirm within the last five minutes,
  -- nor with no tenant; and the cache keeps to that.
  pub verify_lem :
      ((s t : String) → hash s ≡ hash t → s ≡ t)
      → (now : ℕ) (token : String) (cache : Cache) → Genuine now cache
      → Authentic now token (verify hash parse now token cache).0
        × Genuine now (verify hash parse now token cache).1
  unfolding verify looked_up
  verify_lem inj now token cache g = elim (Bool-cases (token == "")) [
    | inl h ↦ rw h (tt, g)
    | inr h ↦ rw h (go (live now (get cache (hash token))) refl)
  ]
    where
      go :
          (o : Option Claims)
          → live now (get cache (hash token)) ≡ o
          → Authentic now token (looked_up hash parse now token o cache).0
            × Genuine now (looked_up hash parse now token o cache).1
      go none e = parsed_lem now token (parse now token) cache refl g
      go (some c) e =
          let (until, found, fresh) = live-lem now _ c e in
          let (other, at, same, confirmed, before, ends, owned) = g (hash token) (c, until) found in
          (
            (
              at,
              subst (λ t. parse at t ≡ valid c) (inj other token same) confirmed,
              before,
              ground (arith, fresh, ends),
              owned,
            ),
            g,
          )

any_scope_lem :
    (scopes : List String) (required : String)
    → any_scope scopes required ≡ (contains scopes scope_admin_all || contains scopes required)
unfolding any_scope
any_scope_lem [] required = refl
any_scope_lem (s ∷ scopes) required = ground (arith, any_scope_lem scopes required)

-- A route that requires a scope lets a request on exactly when its claims hold that scope or
-- `admin:all`.
pub require_scope_lem :
    (scope : String) (c : Claims)
    → require_scope scope (some c) ≡ (contains c.scopes scope_admin_all || contains c.scopes scope)
unfolding require_scope has_scope
require_scope_lem scope c = any_scope_lem c.scopes scope
