-- ===== src/Gateway/Restarts.antt =====
-- The key for development over the starts of the gateway.
use inferbolt.Base.{
  ℕ, ◌+◌, ◌<◌, String, Bool, true, false, ◌≡◌, ◌≢◌, refl, sym, ap, ◌∙◌, none, some, List, [], ◌∷◌,
  ◌++◌, ==_self, ==_ne, arith, concat,
}
use inferbolt.Base.Tests.{lt→ltb}
use inferbolt.Base.Results.{Result, ok}
use inferbolt.Base.Spaces.{trim_space}
use inferbolt.Auth.Keys.{Claims}
use inferbolt.Gateway.ApiKeys.{ApiKeyRow, issue}
use inferbolt.Gateway.DevKey.{
  DevInputs, DevState, dev_scopes, dev_expiry, any_row, is_live, dev_row, reusable, made,
  dev_key_still_valid, bootstrap_dev_key,
}

module _ (hash : String → String) (sign : Claims → ℕ → Result String) where
  any_row-last :
      (test : ApiKeyRow → Bool) (rows : List ApiKeyRow) (row : ApiKeyRow)
      → test row ≡ true
      → any_row test (rows ++ row ∷ []) ≡ true
  unfolding any_row
  any_row-last test [] row h = ground arith
  any_row-last test (x ∷ rows) row h = ground (arith, any_row-last test rows row h)

  dev_row-is_live :
      (w : DevInputs) (token : String) (now : ℕ)
      → now < w.stored_at + dev_expiry
      → is_live (hash token) now (dev_row hash sign w token) ≡ true
  dev_row-is_live w token now h =
      rw (==_self (hash token), lt→ltb now (w.stored_at + dev_expiry) h) refl

  -- The key that a start of the gateway makes and writes to the token file is the one that every
  -- later start finds there until it expires: then nothing is made and nothing is written. The
  -- token that the JWT library signs has no white space around it.
  pub bootstrap_dev_key_again :
      (w again : DevInputs) (st : DevState) (token : String)
      → w.token_file ≢ ""
      → again.token_file ≡ w.token_file
      → reusable hash sign w st.rows st.file ≡ false
      → issue hash sign w.issued_at "dev" dev_scopes dev_expiry ≡ ok token
      → token ≢ ""
      → trim_space (concat token "\n") ≡ token
      → w.insert_fault ≡ none
      → w.mkdir_fault ≡ none
      → w.write_fault ≡ none
      → again.valid_fault ≡ none
      → again.issued_at < w.stored_at + dev_expiry
      → ((bootstrap_dev_key hash sign w st).0 ≡ none)
        × ((bootstrap_dev_key hash sign w st).1.rows ≡ st.rows ++ dev_row hash sign w token ∷ [])
        × ((bootstrap_dev_key hash sign w st).1.file ≡ some (concat token "\n"))
        × (bootstrap_dev_key hash sign again (bootstrap_dev_key hash sign w st).1
            ≡ (none, (bootstrap_dev_key hash sign w st).1))
  unfolding bootstrap_dev_key made dev_key_still_valid
  bootstrap_dev_key_again w again st token file same stale signed some_token trimmed insert mkdir
        write valid early =
      let next : DevState = record {
        rows = st.rows ++ dev_row hash sign w token ∷ [];
        file = some (concat token "\n");
      } in
      let first : bootstrap_dev_key hash sign w st ≡ (none, next) =
        rw (==_ne w.token_file "" file, stale, signed, insert)
          (rw (==_ne w.token_file "" file, mkdir, write) refl) in
      let found : reusable hash sign again next.rows next.file ≡ true =
        rw
          (
            trimmed,
            ==_ne token "" some_token,
            valid,
            any_row-last (is_live (hash token) again.issued_at) st.rows (dev_row hash sign w token)
                (dev_row-is_live w token again.issued_at early),
          )
          refl in
      let second : bootstrap_dev_key hash sign again next ≡ (none, next) =
        rw (==_ne again.token_file "" (λ e. file (sym same ∙ e)), found) refl in
      (
        ap (λ r. r.0) first,
        ap (λ r. r.1.rows) first,
        ap (λ r. r.1.file) first,
        ap (λ r. bootstrap_dev_key hash sign again r.1) first
            ∙ second
            ∙ sym (ap (λ r. (none, r.1)) first),
      )
