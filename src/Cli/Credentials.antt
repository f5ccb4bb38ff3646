-- ===== src/Cli/Credentials.antt =====
-- When a command gets a credential of its own accord, and which.
use mathlib.Core.Option.{some-injective, none-ne-some}
use inferbolt.Base.{
  String, true, false, ◌≡◌, refl, sym, ap, ◌∙◌, Option, none, some, List, [], ◌∷◌, ◌++◌, ◌⊎◌, inl,
  inr, All, Bool-cases,
}
use inferbolt.Base.Results.{Result, ok, err, ok-injective}
use inferbolt.Base.Spaces.{trim_space}
use inferbolt.Cli.Bootstrap.{
  Config, LoadError, api_key_not_configured, not_loaded, load, given, is_local_server_url,
  TokenLook, wait_for_dev_token, ensure_server_healthy, Resolved, BootInputs, new_config,
  with_token, resolved, resolve_or_bootstrap_config, apply_flag_overrides, once_healthy,
  saved_config,
}

-- A look at a token file that is there and blank, before the deadline.
abbrev pub Blank : TokenLook → Type 0
Blank look =
    (contents : String) × (look.file ≡ ok contents)
    × (trim_space contents ≡ "")
    × (look.expired ≡ false)
    × (look.cancelled ≡ none)

Blank-wait_for_dev_token :
    (looks rest : List TokenLook)
    → All Blank looks
    → wait_for_dev_token (looks ++ rest) ≡ wait_for_dev_token rest
unfolding wait_for_dev_token
Blank-wait_for_dev_token [] rest h = refl
Blank-wait_for_dev_token (look ∷ looks) rest ((contents, file, blank, early, going), h) =
    rw (file, blank, early, going) (Blank-wait_for_dev_token looks rest h)

not_configured : (c : Config) → c.api_key ≡ "" → load (ok c) ≡ inl api_key_not_configured
unfolding load
not_configured c key = rw key refl

wait_for_dev_token_lem :
    (early behind : List TokenLook) (last : TokenLook) (contents : String)
    → All Blank early
    → last.file ≡ ok contents
    → trim_space contents ≡ ""
    → last.expired ≡ true
    → wait_for_dev_token (early ++ last ∷ behind) ≡ some (ok "")
unfolding wait_for_dev_token
wait_for_dev_token_lem early behind last contents blank file b late =
    Blank-wait_for_dev_token early (last ∷ behind) blank ∙ rw (file, b, late) refl

once_healthy-ok :
    (o : Option (Option String)) (next : Option (Result Resolved)) (r : Resolved)
    → once_healthy o next ≡ some (ok r)
    → next ≡ some (ok r)
once_healthy-ok none next r h = cc
once_healthy-ok (some none) next r h = h
once_healthy-ok (some (some e)) next r h = cc

refused : (e : String) (r : Resolved) → some (err e) ≡ some (ok r) → ⊥
refused e r h = cc

saved_config-same :
    (e : Option String) (c saved : Config)
    → (saved_config e c).saved ≡ some saved
    → saved ≡ (saved_config e c).config
saved_config-same none c saved h = sym (some-injective _ _ h)
saved_config-same (some e) c saved h = cc

with_token-same :
    (w : BootInputs) (server : String) (t : Option (Result String)) (r : Resolved) (saved : Config)
    → with_token w server t ≡ some (ok r)
    → r.saved ≡ some saved
    → saved ≡ r.config
unfolding with_token
with_token-same w server none r saved h s = cc
with_token-same w server (some (err e)) r saved h s = cc
with_token-same w server (some (ok token)) r saved h s =
    let c = apply_flag_overrides w.flags (new_config server token) in
    let same : saved_config w.save_error c ≡ r = ok-injective (some-injective _ _ h) in
    saved_config-same w.save_error c saved (ap (λ x. x.saved) same ∙ s) ∙ ap (λ x. x.config) same

-- A token file that is there but still blank at the deadline is no error: where no key is
-- configured and the local gateway is up, the command goes on with the empty key, or with that of
-- the flag, and saves it.
pub resolve_or_bootstrap_config-Blank :
    (w : BootInputs) (c : Config) (early behind : List TokenLook) (last : TokenLook)
    (contents : String)
    → w.read ≡ ok c
    → c.api_key ≡ ""
    → is_local_server_url w.hostname (given w.flags.server "http://localhost:8080") ≡ true
    → ensure_server_healthy w.services ≡ some none
    → w.save_error ≡ none
    → w.looks ≡ early ++ last ∷ behind
    → All Blank early
    → last.file ≡ ok contents
    → trim_space contents ≡ ""
    → last.expired ≡ true
    → (r : Resolved) × (resolve_or_bootstrap_config w ≡ some (ok r))
      × (r.config.api_key ≡ given w.flags.api_key "")
      × (r.saved ≡ some r.config)
unfolding resolve_or_bootstrap_config resolved load with_token apply_flag_overrides
resolve_or_bootstrap_config-Blank w c early behind last contents read key local up save looks blank
      file b late =
    let config =
      apply_flag_overrides w.flags (new_config (given w.flags.server "http://localhost:8080") "") in
    (
      record { config = config; saved = some config },
      ap (resolved w) (ap load read ∙ not_configured c key)
          ∙ rw
              (
                local,
                up,
                ap wait_for_dev_token looks
                    ∙ wait_for_dev_token_lem early behind last contents blank file b late,
                save,
              )
              refl,
      refl,
      refl,
    )

-- A credential is saved only where none is configured and the server that the flag names, or the
-- default one, is local; it is then the configuration that the command runs with.
pub resolve_or_bootstrap_config-saved :
    (w : BootInputs) (r : Resolved) (saved : Config)
    → resolve_or_bootstrap_config w ≡ some (ok r)
    → r.saved ≡ some saved
    → (load w.read ≡ inl api_key_not_configured)
      × (is_local_server_url w.hostname (given w.flags.server "http://localhost:8080") ≡ true)
      × (saved ≡ r.config)
unfolding resolve_or_bootstrap_config resolved
resolve_or_bootstrap_config-saved w r saved h s = go (load w.read) h
  where
    go :
        (l : LoadError ⊎ Config)
        → resolved w l ≡ some (ok r)
        → (l ≡ inl api_key_not_configured)
          × (is_local_server_url w.hostname (given w.flags.server "http://localhost:8080") ≡ true)
          × (saved ≡ r.config)
    go (inl (not_loaded e)) k = cc
    go (inr c) k = absurd (
        none-ne-some saved (
          ap (λ (x : Resolved). x.saved)
            (ok-injective
              (some-injective _ _ (once_healthy-ok (ensure_server_healthy w.services) _ r k)))
          ∙ s))
    go (inl api_key_not_configured) k =
        elim (Bool-cases
          (is_local_server_url w.hostname (given w.flags.server "http://localhost:8080"))) [
            | inl local ↦
                let next = once_healthy-ok (ensure_server_healthy w.services) _ r (rw local at k) in
                (
                  refl,
                  local,
                  with_token-same w (given w.flags.server "http://localhost:8080")
                      (wait_for_dev_token w.looks) r saved next s,
                )
            | inr remote ↦ absurd (refused _ r (rw remote at k))
          ]
