-- ===== src/Examples/AuthTests.antt =====
-- The theorems on the middleware at concrete inputs.
use inferbolt.Base.{ℕ, String, ◌≡◌, [], ◌∷◌, ◌==◌, leb, if◌then◌else◌, ltb}
use inferbolt.Base.Maps.{get}
use inferbolt.Auth.Keys.{Claims, Parsed, valid, too_old, bad, verify, scope_jobs_read}
use inferbolt.Auth.Access.{Authentic, Genuine, verify_lem}
use inferbolt.Auth.Rates.{Requests, sent, let_through, rate_limit_exact}

abbrev claims : Claims
claims = record { tenant_id = "acme"; scopes = scope_jobs_read ∷ [] }

abbrev hash : String → String
hash s = s

abbrev parse : ℕ → String → Parsed
parse now token = if token == "good" then (if ltb now 100 then valid claims else too_old) else bad

verify_lem_example :
    Authentic hash parse 7 "good" (verify hash parse 7 "good" []).0
    × Genuine hash parse 7 (verify hash parse 7 "good" []).1
unfolding get
verify_lem_example = verify_lem hash parse (λ s t e. e) 7 "good" [] (λ k v h. cc)

abbrev requests : Requests
requests = ("acme", 60) ∷ ("other", 61) ∷ ("acme", 62) ∷ ("acme", 125) ∷ []

rate_limit_exact_example :
    let_through "acme" 1 requests []
    ≡ (if leb (sent "acme" 1 requests) 100 then sent "acme" 1 requests else 100)
rate_limit_exact_example = rate_limit_exact "acme" 1 requests
