-- ===== src/Router/Choice.antt =====
-- Which worker internal/router/engine_selector.go chooses.
use text.Mathlib.TextLemmas.{append_cancel_left}
use inferbolt.Base.{
  String, ◌≡◌, ◌≢◌, refl, true, false, Option, none, some, List, [], ◌∷◌, eq_iff, arith, concat,
  All, ◌⊎◌, ap, ◌∙◌, sym,
}
use inferbolt.Base.Results.{ok, err}
use inferbolt.Router.EngineSelector.{
  SelectionRequest, SelectionResult, ExtendedWorkerEntry, cache_key, find_recommended,
  find_fallback, select, CacheWrite, selection_ttl,
}
use inferbolt.Workers.Registry.{idle}

-- An idle worker of the wanted GPU type.
abbrev pub Available : String → ExtendedWorkerEntry → Type 0
Available gpu w = (w.entry.status ≡ idle) × (w.entry.gpu_type ≡ gpu)

abbrev pub Member : ExtendedWorkerEntry → List ExtendedWorkerEntry → Type 0
Member w [] = ⊥
Member w (x ∷ xs) = (x ≡ w) ⊎ Member w xs

find_recommended_lem :
    (engine gpu : String) (ws : List ExtendedWorkerEntry)
    → ((w : ExtendedWorkerEntry)
        → find_recommended engine gpu ws ≡ some w
        → Member w ws × Available gpu w × (w.engine ≡ engine))
      × (find_recommended engine gpu ws ≡ none → All (λ w. Available gpu w → w.engine ≢ engine) ws)
unfolding find_recommended
find_recommended_lem engine gpu [] = (λ w h. cc, λ h. tt)
find_recommended_lem engine gpu (x ∷ ws) = (
  λ w h. ground (
    arith,
    eq_iff x.engine engine,
    eq_iff x.entry.gpu_type gpu,
    (find_recommended_lem engine gpu ws).0 w,
  ),
  λ h. (
    λ free same. ground (arith, eq_iff x.engine engine, eq_iff x.entry.gpu_type gpu),
    (find_recommended_lem engine gpu ws).1
        (ground (arith, eq_iff x.engine engine, eq_iff x.entry.gpu_type gpu)),
  ),
)

find_fallback_lem :
    (gpu : String) (ws : List ExtendedWorkerEntry)
    → ((w : ExtendedWorkerEntry) → find_fallback gpu ws ≡ some w → Member w ws × Available gpu w)
      × (find_fallback gpu ws ≡ none → All (λ w. ¬ Available gpu w) ws)
unfolding find_fallback
find_fallback_lem gpu [] = (λ w h. cc, λ h. tt)
find_fallback_lem gpu (x ∷ ws) = (
  λ w h. ground (arith, eq_iff x.entry.gpu_type gpu, (find_fallback_lem gpu ws).0 w),
  λ h. (
    λ free. ground (arith, eq_iff x.entry.gpu_type gpu),
    (find_fallback_lem gpu ws).1 (ground (arith, eq_iff x.entry.gpu_type gpu)),
  ),
)

module _ {F : Type 0} (req : SelectionRequest F) (ws : List ExtendedWorkerEntry)
    (answers : String → Option SelectionResult) where
  abbrev engine : String
  engine = req.classification.recommended_engine

  abbrev gpu : String
  gpu = req.gpu_profile

  -- With nothing in the cache under the key of the request: a result names an idle worker of the
  -- list with the wanted GPU type, it is marked as a fallback only where the request allows one
  -- and no idle worker of that type runs the recommended engine, and else runs that engine.
  pub select_fresh :
      (r : SelectionResult)
      → answers (cache_key req.tenant_id req.gpu_profile) ≡ none
      → (select req ws answers).0 ≡ ok r
      → (w : ExtendedWorkerEntry) × Member w ws
        × Available gpu w
        × (r.worker_id ≡ w.entry.worker_id)
        × (r.engine ≡ w.engine)
        × (r.used_fallback ≡ false → r.engine ≡ engine)
        × (r.used_fallback ≡ true
            → (req.fallback_allowed ≡ true) × All (λ v. Available gpu v → v.engine ≢ engine) ws)
  unfolding select
  select_fresh r c h = first (find_recommended engine gpu ws) refl (find_fallback gpu ws) refl
    where
      first :
          (o : Option ExtendedWorkerEntry)
          → find_recommended engine gpu ws ≡ o
          → (p : Option ExtendedWorkerEntry) → find_fallback gpu ws ≡ p
          → (w : ExtendedWorkerEntry) × Member w ws
            × Available gpu w
            × (r.worker_id ≡ w.entry.worker_id)
            × (r.engine ≡ w.engine)
            × (r.used_fallback ≡ false → r.engine ≡ engine)
            × (r.used_fallback ≡ true
                → (req.fallback_allowed ≡ true) × All (λ v. Available gpu v → v.engine ≢ engine) ws)
      first (some w) e p q =
          let (m, free, runs) = (find_recommended_lem engine gpu ws).0 w e in
          (w, m, free, ground arith, ground arith, λ _. ground arith, λ back. absurd (ground arith))
      first none e (some w) q =
          let (m, free) = (find_fallback_lem gpu ws).0 w q in
          (
            w,
            m,
            free,
            ground arith,
            ground arith,
            λ none_used. absurd (ground arith),
            λ back. (ground arith, (find_recommended_lem engine gpu ws).1 e),
          )
      first none e none q = absurd (ground arith)

  -- With nothing in the cache under the key of the request, the call fails only when no idle
  -- worker of the wanted GPU type runs the recommended engine, and none at all is idle if a
  -- fallback is allowed; it then caches nothing.
  pub select_fails :
      (e : String)
      → answers (cache_key req.tenant_id req.gpu_profile) ≡ none
      → (select req ws answers).0 ≡ err e
      → All (λ v. Available gpu v → v.engine ≢ engine) ws
        × (req.fallback_allowed ≡ true → All (λ v. ¬ Available gpu v) ws)
        × ((select req ws answers).1 ≡ none)
  unfolding select
  select_fails e c h = (
    (find_recommended_lem engine gpu ws).1 (ground arith),
    λ allowed. (find_fallback_lem gpu ws).1 (ground arith),
    ground arith,
  )

module _ {F : Type 0} where
  -- The tenant and the profile of a request, as the key joins them.
  abbrev pub joined : SelectionRequest F → String
  joined req = concat req.tenant_id (concat ":" req.gpu_profile)

  key_told :
      (a b : SelectionRequest F)
      → cache_key a.tenant_id a.gpu_profile ≡ cache_key b.tenant_id b.gpu_profile
      → joined a ≡ joined b
  unfolding cache_key
  key_told a b e = append_cancel_left "sel:" (joined a) (joined b) e

  key_alike :
      (a b : SelectionRequest F)
      → joined a ≡ joined b
      → cache_key a.tenant_id a.gpu_profile ≡ cache_key b.tenant_id b.gpu_profile
  unfolding cache_key
  key_alike a b e = ap (concat "sel:") e

  select_writes :
      (req : SelectionRequest F) (ws : List ExtendedWorkerEntry)
      (answers : String → Option SelectionResult) (r : SelectionResult) (wr : CacheWrite)
      → select req ws answers ≡ (ok r, some wr)
      → (wr.key ≡ cache_key req.tenant_id req.gpu_profile)
        × (wr.value ≡ r)
        × (wr.ttl ≡ selection_ttl)
  unfolding select
  select_writes req ws answers r wr h = (ground arith, ground arith, ground arith)

  -- A selection that writes to the cache writes its result, for 30 seconds. While the cache then
  -- answers with that and with nothing else, a request whose tenant and profile, joined with a
  -- colon, make the same text gets the same result, whatever engine is recommended to it and
  -- whichever workers are idle then: so does any request of the same tenant and profile, and one of
  -- another tenant where only the side of a colon differs. Every other request is answered as with
  -- an empty cache.
  pub select_reuses :
      (first later : SelectionRequest F) (ws ws' : List ExtendedWorkerEntry)
      (before after : String → Option SelectionResult) (r : SelectionResult) (wr : CacheWrite)
      → select first ws before ≡ (ok r, some wr)
      → after wr.key ≡ some wr.value
      → ((key : String) → key ≢ wr.key → after key ≡ none)
      → (wr.ttl ≡ 30000000000)
        × (joined later ≡ joined first → select later ws' after ≡ (ok r, none))
        × (joined later ≢ joined first → select later ws' after ≡ select later ws' (λ key. none))
  unfolding select
  select_reuses first later ws ws' before after r wr h hit miss =
      let (key, value, ttl) = select_writes first ws before r wr h in
      (
        ttl,
        λ same. rw (key_alike later first same ∙ sym key, hit, value) refl,
        λ differs.
            rw
              (miss (cache_key later.tenant_id later.gpu_profile)
                (λ e. differs (key_told later first (e ∙ key))))
              refl,
      )
