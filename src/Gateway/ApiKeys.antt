-- ===== src/Gateway/ApiKeys.antt =====
-- internal/gateway/handlers.go: `CreateAPIKey`, with `Issue` of internal/auth/apikey.go. SHA-256 in
-- hexadecimal is the parameter `hash`, and the JWT library's signing `sign`: a token for claims and
-- an expiry in whole seconds, as a numeric date has it, or an error. Times are nanoseconds.
use inferbolt.Base.{
  ℕ, ◌+◌, ◌*◌, ◌/◌, String, Bool, ◌||◌, Option, none, some, List, [], ◌∷◌, ◌++◌, ◌==◌, eqb, length,
  if◌then◌else◌, ◌⊎◌, inl, inr,
}
use inferbolt.Base.Int.{ℤ, pos, pos_part, ltb_ℤ}
use inferbolt.Base.Results.{Result, ok, err}
use inferbolt.Auth.Keys.{Claims}
use inferbolt.Gateway.Handlers.{Response, respond, when, or_else}

-- A row of `api_keys`.
pub record ApiKeyRow : Type 0 where
  pub tenant_id : String
  pub key_hash : String
  pub scopes : List String
  pub expires_at : ℕ
  pub revoked_at : Option ℕ

pub record CreateApiKeyRequest : Type 0 where
  pub tenant_id : String
  pub scopes : List String
  pub expiry_days : ℤ

unfoldable pub api_key_error : CreateApiKeyRequest → Option String
api_key_error req = or_else (when (req.tenant_id == "") "tenant_id is required") (
    or_else (when (eqb (length req.scopes) 0) "scopes must not be empty") (
      when (ltb_ℤ req.expiry_days (pos 1) || ltb_ℤ (pos 365) req.expiry_days)
        "expiry_days must be between 1 and 365"))

-- `time.Duration(req.ExpiryDays) * 24 * time.Hour`, of a number of days from 1 to 365.
abbrev pub expiry_of : CreateApiKeyRequest → ℕ
expiry_of req = pos_part req.expiry_days * 86400000000000

abbrev pub second : ℕ
second = 1000000000

-- The clock when the token is issued and when the row is made, and what the database answers;
-- without a database nothing is stored.
pub record KeyInputs : Type 0 where
  pub issued_at : ℕ
  pub stored_at : ℕ
  pub has_pool : Bool
  pub fault : Option String

module _ (hash : String → String) (sign : Claims → ℕ → Result String) where
  -- `Issue`
  unfoldable pub issue : ℕ → String → List String → ℕ → Result String
  issue now tenant scopes expiry =
      sign (record { tenant_id = tenant; scopes = scopes }) ((now + expiry) / second)

  abbrev pub row_of_key : KeyInputs → CreateApiKeyRequest → String → ApiKeyRow
  row_of_key w req token = record {
    tenant_id = req.tenant_id;
    key_hash = hash token;
    scopes = req.scopes;
    expires_at = w.stored_at + expiry_of req;
    revoked_at = none;
  }

  abbrev pub persisted :
      Option String → ApiKeyRow → String → List ApiKeyRow → (Response ⊎ String) × List ApiKeyRow
  persisted (some e) row token rows = (inl (respond 500 "failed to persist api key"), rows)
  persisted none row token rows = (inr token, rows ++ row ∷ [])

  unfoldable pub issued :
      KeyInputs
      → CreateApiKeyRequest
      → Result String
      → List ApiKeyRow
      → (Response ⊎ String) × List ApiKeyRow
  issued w req (err e) rows = (inl (respond 500 "failed to issue token"), rows)
  issued w req (ok token) rows =
      if w.has_pool
      then persisted w.fault (row_of_key w req token) token rows
      else (inr token, rows)

  unfoldable pub key_checked :
      KeyInputs
      → CreateApiKeyRequest
      → Option String
      → List ApiKeyRow
      → (Response ⊎ String) × List ApiKeyRow
  unfolding issued issue
  key_checked w req (some e) rows = (inl (respond 400 e), rows)
  key_checked w req none rows =
      issued w req (issue w.issued_at req.tenant_id req.scopes (expiry_of req)) rows

  -- The token, or the error.
  unfoldable pub create_api_key :
      KeyInputs → Result CreateApiKeyRequest → List ApiKeyRow → (Response ⊎ String) × List ApiKeyRow
  unfolding key_checked
  create_api_key w (err e) rows = (inl (respond 400 e), rows)
  create_api_key w (ok req) rows = key_checked w req (api_key_error req) rows
