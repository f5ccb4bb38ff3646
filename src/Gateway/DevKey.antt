-- ===== src/Gateway/DevKey.antt =====
-- cmd/gateway/main.go: the key for development that the gateway makes when it starts. `hash` and
-- `sign` are those of Gateway/ApiKeys.
use inferbolt.Base.{
  ℕ, ◌+◌, String, Bool, false, not, ◌&&◌, ◌||◌, Option, none, some, List, [], ◌∷◌, ◌++◌, ◌==◌,
  is_some, ltb, concat, if◌then◌else◌,
}
use inferbolt.Base.Results.{Result, ok, err}
use inferbolt.Base.Spaces.{trim_space}
use inferbolt.Auth.Keys.{Claims}
use inferbolt.Gateway.ApiKeys.{ApiKeyRow, issue}

-- The clock when the token is issued and when the row is made, and what the database and the file
-- system answer.
pub record DevInputs : Type 0 where
  pub token_file : String
  pub count_fault : Option String
  pub valid_fault : Option String
  pub issued_at : ℕ
  pub stored_at : ℕ
  pub insert_fault : Option String
  pub mkdir_fault : Option String
  pub write_fault : Option String

-- The rows, and what the token file holds where it can be read. A file that is not written is as it
-- was.
pub record DevState : Type 0 where
  pub rows : List ApiKeyRow
  pub file : Option String

abbrev pub dev_scopes : List String
dev_scopes = "jobs:write" ∷ "jobs:read" ∷ "metrics:read" ∷ "configs:write" ∷ "admin:all" ∷ []

-- 30 days.
abbrev pub dev_expiry : ℕ
dev_expiry = 2592000000000000

unfoldable pub any_row : (ApiKeyRow → Bool) → List ApiKeyRow → Bool
any_row test [] = false
any_row test (row ∷ rows) = test row || any_row test rows

abbrev pub is_dev : ApiKeyRow → Bool
is_dev row = row.tenant_id == "dev"

abbrev pub is_live : String → ℕ → ApiKeyRow → Bool
is_live key_hash now row =
    is_dev row
    && ((row.key_hash == key_hash) && (not (is_some row.revoked_at) && ltb now row.expires_at))

abbrev pub counted : Option String → Bool → Bool
counted (some e) b = false
counted none b = b

module _ (hash : String → String) (sign : Claims → ℕ → Result String) where
  unfoldable pub dev_key_still_valid : DevInputs → String → List ApiKeyRow → Bool
  unfolding any_row
  dev_key_still_valid w token rows =
      counted w.valid_fault (any_row (is_live (hash token) w.issued_at) rows)

  -- The token in the file can be used again.
  abbrev pub reusable : DevInputs → List ApiKeyRow → Option String → Bool
  reusable w rows none = false
  reusable w rows (some contents) =
      not (trim_space contents == "") && dev_key_still_valid w (trim_space contents) rows

  abbrev pub dev_row : DevInputs → String → ApiKeyRow
  dev_row w token = record {
    tenant_id = "dev";
    key_hash = hash token;
    scopes = "admin:all" ∷ [];
    expires_at = w.stored_at + dev_expiry;
    revoked_at = none;
  }

  abbrev pub file_written : Option String → Option String → String → Option String → Option String
  file_written (some e) write token file = file
  file_written none (some e) token file = file
  file_written none none token file = some (concat token "\n")

  abbrev pub key_inserted : DevInputs → Option String → String → DevState → Option String × DevState
  key_inserted w (some e) token st = (some (concat "persist dev key: " e), st)
  key_inserted w none token st = (
    none,
    record {
      rows = st.rows ++ dev_row w token ∷ [];
      file =
          if w.token_file == ""
          then st.file
          else file_written w.mkdir_fault w.write_fault token st.file;
    },
  )

  abbrev pub key_made : DevInputs → Result String → DevState → Option String × DevState
  key_made w (err e) st = (some (concat "issue dev key: " e), st)
  key_made w (ok token) st = key_inserted w w.insert_fault token st

  unfoldable pub made : DevInputs → DevState → Option String × DevState
  unfolding issue
  made w st = key_made w (issue hash sign w.issued_at "dev" dev_scopes dev_expiry) st

  unfoldable pub without_file : DevInputs → Option String → DevState → Option String × DevState
  unfolding made any_row
  without_file w (some e) st = (some (concat "check existing dev keys: " e), st)
  without_file w none st = if any_row is_dev st.rows then (none, st) else made w st

  unfoldable pub bootstrap_dev_key : DevInputs → DevState → Option String × DevState
  unfolding without_file made dev_key_still_valid
  bootstrap_dev_key w st =
      if w.token_file == ""
      then without_file w w.count_fault st
      else if reusable w st.rows st.file
      then (none, st)
      else made w st
