-- ===== src/Auth/Middleware.antt =====
-- internal/auth/middleware.go and cors.go: what each middleware does before the handler behind
-- it. A request is what they read of it; the answer is a refusal, or the request goes on.
use text.Mathlib.Text.{starts_with}
use Prim.Native.String.{slice, len}
use inferbolt.Base.{
  ℕ, suc, ◌+◌, ◌*◌, ◌/◌, ◌-◌, String, Bool, false, ◌||◌, ◌&&◌, not, Option, none, some, List, ◌==◌,
  leb, ◌⊎◌, inl, inr, concat, contains, if◌then◌else◌,
}
use inferbolt.Base.Texts.{decimal_text}
use inferbolt.Base.Maps.{Dict, get, put}
use inferbolt.Auth.Keys.{
  Claims, TokenError, expired, invalid, missing, Parsed, Cache, verify, has_scope,
}

-- The status and the message of a refusal.
pub record Refusal : Type 0 where
  pub status : ℕ
  pub message : String

abbrev bearer : String
bearer = "Bearer "

abbrev trim_bearer : String → String
trim_bearer header = slice header (len bearer) (len header)

token_refusal : TokenError → Refusal
token_refusal expired = record { status = 401; message = "token expired" }
token_refusal invalid = record { status = 401; message = "invalid token" }
token_refusal missing = record { status = 401; message = "invalid token" }

unfoldable pub judged : (TokenError ⊎ Claims) × Cache → (Refusal ⊎ Claims) × Cache
unfolding token_refusal
judged (inl e, cache) = (inl (token_refusal e), cache)
judged (inr c, cache) = (inr c, cache)

-- `AuthMiddleware`: the claims, with their tenant, that the request's context then carries.
unfoldable authenticate :
    (String → String) → (ℕ → String → Parsed) → ℕ → String → Cache → (Refusal ⊎ Claims) × Cache
unfolding judged
authenticate hash parse now header cache =
    if not (starts_with header bearer)
    then (inl (record { status = 401; message = "missing authorization header" }), cache)
    else judged (verify hash parse now (trim_bearer header) cache)

-- `RequireScope`, on the claims of the context: `true` goes on, `false` is 403.
unfoldable pub require_scope : String → Option Claims → Bool
require_scope scope none = false
require_scope scope (some c) = has_scope c scope

-- `RateLimitMiddleware`: the counts of the requests let through, by tenant and minute.
abbrev pub Buckets : Type 0
Buckets = Dict ℕ

unfoldable pub bucket_key : String → ℕ → String
unfolding decimal_text
bucket_key tenant seconds = concat "rl:" (concat tenant (concat ":" (decimal_text (seconds / 60))))

-- `LoadOrStore` of a fresh entry.
unfoldable pub count_in : Option ℕ → ℕ
count_in none = 0
count_in (some n) = n

pub data RateAnswer : Type 0 where
  unlimited : RateAnswer
  too_many : ℕ → ℕ → RateAnswer
  remaining : ℕ → ℕ → RateAnswer

unfoldable pub rate_limit : ℕ → Option String → Buckets → RateAnswer × Buckets
unfolding count_in bucket_key
rate_limit seconds none b = (unlimited, b)
rate_limit seconds (some tenant) b =
    let key : String = bucket_key tenant seconds in
    let current : ℕ = count_in (get b key) in
    let next_minute : ℕ = (seconds / 60 + 1) * 60 in
    if leb 100 current
    then (too_many next_minute (next_minute - seconds), put b key current)
    else (remaining (100 - suc current) next_minute, put b key (suc current))

-- `CORSMiddleware`, for origins that the program's set holds in lower case. `lower` is
-- `strings.ToLower`.
pub data CorsAnswer : Type 0 where
  forbidden : CorsAnswer
  plain_next : CorsAnswer
  preflight : String → CorsAnswer
  exposed_next : String → CorsAnswer

unfoldable pub cors : (String → String) → List String → String → String → CorsAnswer
cors lower allowed method origin =
    if origin == "" || not (contains allowed (lower origin))
    then (if (method == "OPTIONS") && not (origin == "") then forbidden else plain_next)
    else if method == "OPTIONS"
    then preflight origin
    else exposed_next origin

-- `RequestIDMiddleware`; `fresh` is the id it makes.
abbrev request_id : String → String → String
request_id fresh header = if header == "" then fresh else header
