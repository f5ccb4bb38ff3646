-- ===== src/Gateway/Issued.antt =====
-- A key that the handler issues, as authentication reads it.
use mathlib.Core.Sum.{inr-injective, inl-ne-inr}
use inferbolt.Base.{
  ℕ, ◌+◌, ◌*◌, ◌/◌, ◌≤◌, ◌<◌, String, true, ◌≡◌, ◌≢◌, refl, ap, ◌∙◌, inl, inr, Option, none, some,
  List, [], ◌∷◌, ◌++◌, ==_ne, arith, eq_iff, Bool-cases, Option-cases,
}
use inferbolt.Base.Int.{pos, ◌≤ℤ◌}
use inferbolt.Base.Maps.{get}
use inferbolt.Base.Results.{Result, ok, err}
use inferbolt.Auth.Keys.{
  Claims, expired, Parsed, valid, too_old, Cache, live, verify, looked_up, parsed,
}
use inferbolt.Gateway.ApiKeys.{
  ApiKeyRow, CreateApiKeyRequest, api_key_error, expiry_of, issue, KeyInputs, row_of_key, persisted,
  issued, key_checked, create_api_key,
}

-- What the JWT library documents: a token that it has signed is not empty, is valid with the claims
-- it was signed for before its expiry, and has expired from then on.
pub record IsJwt (sign : Claims → ℕ → Result String) (parse : ℕ → String → Parsed) : Type 0 where
  pub nonempty : (c : Claims) (exp : ℕ) (token : String) → sign c exp ≡ ok token → token ≢ ""
  pub before :
      (c : Claims) (exp t : ℕ) (token : String)
      → sign c exp ≡ ok token
      → t < exp * 1000000000
      → parse t token ≡ valid c
  pub after :
      (c : Claims) (exp t : ℕ) (token : String)
      → sign c exp ≡ ok token
      → exp * 1000000000 ≤ t
      → parse t token ≡ too_old

-- A token that the cache does not hold is what the library says.
verified :
    (hash : String → String) (parse : ℕ → String → Parsed) (t : ℕ) (token : String) (cache : Cache)
    → token ≢ ""
    → get cache (hash token) ≡ none
    → verify hash parse t token cache ≡ parsed t (hash token) (parse t token) cache
unfolding verify looked_up live
verified hash parse t token cache some_token fresh = rw (==_ne token "" some_token, fresh) refl

parsed-valid :
    (t : ℕ) (key : String) (c : Claims) (cache : Cache)
    → c.tenant_id ≢ ""
    → (parsed t key (valid c) cache).0 ≡ inr c
unfolding parsed
parsed-valid t key c cache h = rw (==_ne c.tenant_id "" h) refl

parsed-too_old :
    (t : ℕ) (key : String) (cache : Cache) → (parsed t key too_old cache).0 ≡ inl expired
unfolding parsed
parsed-too_old t key cache = refl

accepted :
    (req : CreateApiKeyRequest)
    → api_key_error req ≡ none
    → (req.tenant_id ≢ "") × (pos 1 ≤ℤ req.expiry_days) × (req.expiry_days ≤ℤ pos 365)
unfolding api_key_error
accepted req h = (ground (arith, eq_iff req.tenant_id ""), ground arith, ground arith)

module _ (hash : String → String) (sign : Claims → ℕ → Result String)
    (parse : ℕ → String → Parsed) where
  persisted_lem :
      (fault : Option String) (row : ApiKeyRow) (t token : String) (rows : List ApiKeyRow)
      → (persisted hash sign fault row t rows).0 ≡ inr token
      → (t ≡ token) × ((persisted hash sign fault row t rows).1 ≡ rows ++ row ∷ [])
  persisted_lem (some e) row t token rows h = absurd (inl-ne-inr h)
  persisted_lem none row t token rows h = (inr-injective _ _ h, refl)

  issued_lem :
      (w : KeyInputs) (req : CreateApiKeyRequest) (answer : Result String) (token : String)
      (rows : List ApiKeyRow)
      → (issued hash sign w req answer rows).0 ≡ inr token
      → (answer ≡ ok token)
        × (w.has_pool ≡ true
            → (issued hash sign w req answer rows).1
              ≡ rows ++ row_of_key hash sign w req token ∷ [])
  unfolding issued
  issued_lem w req (err e) token rows h = absurd (inl-ne-inr h)
  issued_lem w req (ok t) token rows h = elim (Bool-cases w.has_pool) [
    | inl pool ↦
        let (same, stored) =
          persisted_lem w.fault (row_of_key hash sign w req t) t token rows (rw pool at h) in
        (
          ap ok same,
          λ k. rw pool (stored ∙ ap (λ x. rows ++ row_of_key hash sign w req x ∷ []) same),
        )
    | inr no_pool ↦
        (ap ok (inr-injective _ _ (rw no_pool at h)), λ k. absurd (ground (arith, k, no_pool)))
  ]

  -- A key that the handler answers was asked for with a tenant, and for 1 to 365 days; its token is
  -- accepted with the tenant and the scopes of the request until it expires, and refused as
  -- expired from then on, where the cache holds no entry for it: its row, which is stored where
  -- there is a database, is not looked at. The JWT library is one that does as documented.
  pub create_api_key_lem :
      (w : KeyInputs) (req : CreateApiKeyRequest) (rows : List ApiKeyRow) (token : String)
      → IsJwt sign parse
      → (create_api_key hash sign w (ok req) rows).0 ≡ inr token
      → (req.tenant_id ≢ "")
        × (pos 1 ≤ℤ req.expiry_days)
        × (req.expiry_days ≤ℤ pos 365)
        × (w.has_pool ≡ true
            → (create_api_key hash sign w (ok req) rows).1
              ≡ rows ++ row_of_key hash sign w req token ∷ [])
        × ((t : ℕ) (cache : Cache)
            → get cache (hash token) ≡ none
            → (t < (w.issued_at + expiry_of req) / 1000000000 * 1000000000
                → (verify hash parse t token cache).0
                  ≡ inr (record { tenant_id = req.tenant_id; scopes = req.scopes }))
              × ((w.issued_at + expiry_of req) / 1000000000 * 1000000000 ≤ t
                  → (verify hash parse t token cache).0 ≡ inl expired))
  unfolding create_api_key key_checked issue
  create_api_key_lem w req rows token jwt h = elim (Option-cases (api_key_error req)) [
    | inl fine ↦
        let (answer, stored) =
          issued_lem w req (issue hash sign w.issued_at req.tenant_id req.scopes (expiry_of req))
            token rows (rw fine at h) in
        let (tenant, least, most) = accepted req fine in
        (
          tenant,
          least,
          most,
          λ pool. rw fine (stored pool),
          λ t cache fresh. (
            λ early.
                ap (λ r. r.0)
                  (verified hash parse t token cache (jwt.nonempty _ _ token answer) fresh
                    ∙ ap (λ p. parsed t (hash token) p cache) (jwt.before _ _ t token answer early))
                ∙ parsed-valid t (hash token) _ cache tenant,
            λ late.
                ap (λ r. r.0)
                  (verified hash parse t token cache (jwt.nonempty _ _ token answer) fresh
                    ∙ ap (λ p. parsed t (hash token) p cache) (jwt.after _ _ t token answer late))
                ∙ parsed-too_old t (hash token) cache,
          ),
        )
    | inr (e, refused) ↦ absurd (inl-ne-inr (rw refused at h))
  ]
