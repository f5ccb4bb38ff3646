-- ===== src/Examples/GatewayTests.antt =====
-- The theorems on the handlers at concrete inputs.
use Prim.Native.Char.{nul}
use Prim.Native.String as Text
use inferbolt.Base.{
  ℕ, List, Bool, ◌⊎◌, Bool-cases, inl, inr, ap, sym, ◌∙◌, ◌<◌, ◌≤◌, eq_iff, eqb, ltb, ◌*◌, ◌&&◌,
  arith,
}
use inferbolt.Base.Texts.{apart}
use inferbolt.Base.Spaces.{trim_space}
use inferbolt.Auth.Keys.{Claims, Parsed, valid, too_old, bad, expired, Cache, verify}
use inferbolt.Gateway.ApiKeys.{
  CreateApiKeyRequest, KeyInputs, issue, create_api_key, api_key_error, row_of_key,
}
use inferbolt.Gateway.Issued.{IsJwt, create_api_key_lem}
use inferbolt.Gateway.DevKey.{DevInputs, DevState, dev_row, bootstrap_dev_key}
use inferbolt.Gateway.Restarts.{bootstrap_dev_key_again}
use inferbolt.Base.{
  String, ◌≡◌, ◌≢◌, refl, true, false, Option, none, some, [], ◌∷◌, ◌==◌, if◌then◌else◌,
}
use inferbolt.Base.Int.{ℤ, pos, ◌≤ℤ◌}
use inferbolt.Base.Float64.{Micros, micros_float}
use inferbolt.Base.Maps.{get}
use inferbolt.Base.Results.{Result, ok, err, ok-injective}
use inferbolt.Jobs.State.{cancelled, is_terminal}
use inferbolt.Agent.Budget.{default_budget, validate}
use inferbolt.Gateway.Handlers.{CreateJobRequest, respond, create_job, cancel_job}
use inferbolt.Gateway.Campaigns.{
  CreateCampaignRequest, campaign_budget, with_duration, limited, validated,
}
use inferbolt.Gateway.Requests.{
  Affordable, Passes, Taken, campaign_budget_lem, cancel_job_lem, create_job_lem,
}
use inferbolt.Examples.Data.{workload, config, job, db}

abbrev campaign : CreateCampaignRequest
campaign = record {
  goal = "fast";
  model = "m";
  gpu_profile = "A100";
  engines = "vllm" ∷ [];
  workload = workload;
  planner_model = "";
  max_trials = pos 0;
  max_duration = "1h";
}

abbrev parse : String → Option ℤ
parse s = if s == "1h" then some (pos 3600000000000) else none

campaign_budget_lem_example :
    Affordable (record default_budget { max_duration = pos 3600000000000 })
unfolding campaign_budget with_duration limited validated validate
campaign_budget_lem_example =
    campaign_budget_lem parse campaign (record default_budget { max_duration = pos 3600000000000 })
      refl

cancel_job_lem_example :
    (job.tenant_id ≢ "acme"
      → cancel_job none none 9 "j1" "acme" db ≡ (respond 404 "job not found", db))
    × (job.tenant_id ≡ "acme"
        → is_terminal job.state ≡ true
        → cancel_job none none 9 "j1" "acme" db ≡ (respond 409 "job already in terminal state", db))
    × (job.tenant_id ≡ "acme"
        → is_terminal job.state ≡ false
        → ((cancel_job none none 9 "j1" "acme" db).0 ≡ respond 200 "")
          × (get (cancel_job none none 9 "j1" "acme" db).1.jobs "j1"
              ≡ some (record job { state = cancelled; updated_at = 9; error_msg = "" })))
unfolding get
cancel_job_lem_example = cancel_job_lem 9 "j1" "acme" db job refl

abbrev request : CreateJobRequest Micros
request = record {
  model = "m";
  engines = [];
  workload = workload;
  engine_config = config;
  gpu_profile = "A100";
  auto_route = true;
}

create_job_lem_example :
    (Passes request
      × Taken none none
          (some "queue down")
          "j2"
          "acme"
          9
          request
          db
          (create_job none (some "queue down") "j2" "acme" 9 (ok request) db))
    ⊎ ((¬ Passes request)
        × ((create_job none (some "queue down") "j2" "acme" 9 (ok request) db).0.status ≡ 400)
        × ((create_job none (some "queue down") "j2" "acme" 9 (ok request) db).1 ≡ db))
unfolding get
create_job_lem_example = create_job_lem none (some "queue down") "j2" "acme" 9 request db

-- A library that signs for one scope and one expiry.
abbrev expiry : ℕ
expiry = 86400

abbrev sign_for : String → ℕ → List String → Result String
sign_for tenant exp [] = err "no scope"
sign_for tenant exp (s ∷ []) =
    if (s == "jobs:read") && eqb exp expiry then ok (Text.◌∷◌ nul tenant) else err "unknown"
sign_for tenant exp (s ∷ r ∷ rest) = err "too many"

abbrev sign : Claims → ℕ → Result String
sign c exp = sign_for c.tenant_id exp c.scopes

abbrev parse_token : ℕ → String → Parsed
parse_token t Text.[] = bad
parse_token t (Text.◌∷◌ c tenant) =
    if ltb t (expiry * 1000000000)
    then valid (record { tenant_id = tenant; scopes = "jobs:read" ∷ [] })
    else too_old

abbrev key_inputs : KeyInputs
key_inputs = record { issued_at = 5; stored_at = 6; has_pool = true; fault = none }

abbrev key_request : CreateApiKeyRequest
key_request = record { tenant_id = "acme"; scopes = "jobs:read" ∷ []; expiry_days = pos 1 }

abbrev dev_inputs : DevInputs
dev_inputs = record {
  token_file = "dev-token";
  count_fault = none;
  valid_fault = none;
  issued_at = 5;
  stored_at = 6;
  insert_fault = none;
  mkdir_fault = none;
  write_fault = none;
}

abbrev dev_again : DevInputs
dev_again = record dev_inputs { issued_at = 100 }

abbrev fresh_start : DevState
fresh_start = record { rows = []; file = none }

abbrev sign_dev : Claims → ℕ → Result String
sign_dev c exp = ok "token"

bootstrap_dev_key_again_example :
    ((bootstrap_dev_key (λ s. s) sign_dev dev_inputs fresh_start).0 ≡ none)
    × ((bootstrap_dev_key (λ s. s) sign_dev dev_inputs fresh_start).1.rows
        ≡ dev_row (λ s. s) sign_dev dev_inputs "token" ∷ [])
    × ((bootstrap_dev_key (λ s. s) sign_dev dev_inputs fresh_start).1.file ≡ some "token\n")
    × (bootstrap_dev_key
          (λ s. s)
          sign_dev
          dev_again
          (bootstrap_dev_key (λ s. s) sign_dev dev_inputs fresh_start).1
        ≡ (none, (bootstrap_dev_key (λ s. s) sign_dev dev_inputs fresh_start).1))
unfolding issue trim_space
bootstrap_dev_key_again_example =
    bootstrap_dev_key_again (λ s. s) sign_dev dev_inputs dev_again fresh_start "token"
      (apart "dev-token" "" refl) refl refl refl (apart "token" "" refl) refl refl refl refl refl
      (omega arith)

-- The first character tells a token from the empty text.
abbrev is_cons : Text.String → Bool
is_cons Text.[] = false
is_cons (Text.◌∷◌ c s) = true

not_signed : (token : String) → err "unknown" ≡ ok token → ⊥
not_signed token h = cc

token_read :
    (t : ℕ) (tenant : String)
    → (t < 86400 * 1000000000
        → parse_token t (Text.◌∷◌ nul tenant)
          ≡ valid (record { tenant_id = tenant; scopes = "jobs:read" ∷ [] }))
      × (86400 * 1000000000 ≤ t → parse_token t (Text.◌∷◌ nul tenant) ≡ too_old)
token_read t tenant = (λ early. ground arith, λ late. ground arith)

signed_as :
    (tenant : String) (exp : ℕ) (scopes : List String) (token : String)
    → sign_for tenant exp scopes ≡ ok token
    → (exp ≡ expiry) × (scopes ≡ "jobs:read" ∷ []) × (token ≡ Text.◌∷◌ nul tenant)
signed_as tenant exp [] token h = cc
signed_as tenant exp (s ∷ r ∷ rest) token h = cc
signed_as tenant exp (s ∷ []) token h = elim (Bool-cases ((s == "jobs:read") && eqb exp expiry)) [
  | inl k ↦ (
    ground (arith, k),
    ap (λ x. x ∷ []) ((eq_iff s "jobs:read").0 (ground (arith, k))),
    sym (ok-injective (rw k at h)),
  )
  | inr k ↦ absurd (not_signed token (rw k at h))
]

sign-IsJwt : IsJwt sign parse_token
sign-IsJwt = record {
  nonempty = λ c exp token h e.
      let (when, scopes, text) = signed_as c.tenant_id exp c.scopes token h in
      let not_empty : true ≡ false = ap is_cons (sym text ∙ e) in cc;
  before = λ c exp t token h early.
      let (when, scopes, text) = signed_as c.tenant_id exp c.scopes token h in
      ap (parse_token t) text
      ∙ (token_read t c.tenant_id).0 (ground (arith, when, early))
      ∙ ap (λ (l : List String). valid (record { tenant_id = c.tenant_id; scopes = l }))
          (sym scopes);
  after = λ c exp t token h late.
      let (when, scopes, text) = signed_as c.tenant_id exp c.scopes token h in
      ap (parse_token t) text ∙ (token_read t c.tenant_id).1 (ground (arith, when, late));
}

create_api_key_lem_example :
    (key_request.tenant_id ≢ "")
    × (pos 1 ≤ℤ key_request.expiry_days)
    × (key_request.expiry_days ≤ℤ pos 365)
    × (key_inputs.has_pool ≡ true
        → (create_api_key (λ s. s) sign key_inputs (ok key_request) []).1
          ≡ row_of_key (λ s. s) sign key_inputs key_request (Text.◌∷◌ nul "acme") ∷ [])
    × ((t : ℕ) (cache : Cache)
        → get cache (Text.◌∷◌ nul "acme") ≡ none
        → (t < 86400 * 1000000000
            → (verify (λ s. s) parse_token t (Text.◌∷◌ nul "acme") cache).0
              ≡ inr (record { tenant_id = "acme"; scopes = "jobs:read" ∷ [] }))
          × (86400 * 1000000000 ≤ t
              → (verify (λ s. s) parse_token t (Text.◌∷◌ nul "acme") cache).0 ≡ inl expired))
unfolding create_api_key api_key_error
create_api_key_lem_example =
    create_api_key_lem (λ s. s) sign parse_token key_inputs key_request [] (Text.◌∷◌ nul "acme")
      sign-IsJwt refl
