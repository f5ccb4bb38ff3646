-- ===== src/Auth/Keys.antt =====
-- internal/auth/apikey.go: verifying a token. SHA-256 in hexadecimal and the JWT library are the
-- parameters `hash` and `parse`, what the library answers about a token at a time. The cache is the
-- entries it holds with the time they are dropped; it may have dropped any of them before.
use inferbolt.Base.{
  ℕ, ◌+◌, String, Bool, false, ◌||◌, Option, none, some, List, [], ◌∷◌, ◌==◌, ltb, ◌⊎◌, inl, inr,
  if◌then◌else◌,
}
use inferbolt.Base.Maps.{Dict, get, put}

abbrev pub scope_jobs_write : String
scope_jobs_write = "jobs:write"

abbrev pub scope_jobs_read : String
scope_jobs_read = "jobs:read"

abbrev pub scope_admin_all : String
scope_admin_all = "admin:all"

pub record Claims : Type 0 where
  pub tenant_id : String
  pub scopes : List String

pub data TokenError : Type 0 where
  expired invalid missing : TokenError

-- What `jwt.ParseWithClaims` answers: the claims of a token with a valid HMAC signature that has
-- not expired, or why not.
pub data Parsed : Type 0 where
  valid : Claims → Parsed
  too_old : Parsed
  bad : Parsed

abbrev pub Cache : Type 0
Cache = Dict (Claims × ℕ)

-- Five minutes, in nanoseconds.
abbrev pub cache_ttl : ℕ
cache_ttl = 300000000000

-- An entry whose time has not come.
unfoldable pub live : ℕ → Option (Claims × ℕ) → Option Claims
live now none = none
live now (some (c, until)) = if ltb now until then some c else none

unfoldable pub parsed : ℕ → String → Parsed → Cache → (TokenError ⊎ Claims) × Cache
parsed now key too_old cache = (inl expired, cache)
parsed now key bad cache = (inl invalid, cache)
parsed now key (valid c) cache =
    if c.tenant_id == "" then (inl invalid, cache) else (inr c, put cache key (c, now + cache_ttl))

module _ (hash : String → String) (parse : ℕ → String → Parsed) where
  unfoldable pub looked_up : ℕ → String → Option Claims → Cache → (TokenError ⊎ Claims) × Cache
  unfolding parsed
  looked_up now token (some c) cache = (inr c, cache)
  looked_up now token none cache = parsed now (hash token) (parse now token) cache

  unfoldable pub verify : ℕ → String → Cache → (TokenError ⊎ Claims) × Cache
  unfolding looked_up live
  verify now token cache =
      if token == ""
      then (inl missing, cache)
      else looked_up now token (live now (get cache (hash token))) cache

unfoldable pub any_scope : List String → String → Bool
any_scope [] required = false
any_scope (s ∷ scopes) required =
    (s == scope_admin_all || s == required) || any_scope scopes required

unfoldable pub has_scope : Claims → String → Bool
unfolding any_scope
has_scope c required = any_scope c.scopes required
