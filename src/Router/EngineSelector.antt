-- ===== src/Router/EngineSelector.antt =====
-- internal/router/engine_selector.go. What the cache (ristretto) answers to `Get` is an argument,
-- a function of the key, and `SetWithTTL` is the write that the call asks for, if any. A cached
-- value has the type that was stored. Durations are nanoseconds.
use inferbolt.Base.{
  ℕ, String, Bool, true, false, ◌&&◌, Option, none, some, List, [], ◌∷◌, ◌==◌, concat,
  if◌then◌else◌,
}
use inferbolt.Base.Results.{Result, ok, err}
use inferbolt.Router.Classifier.{ClassificationResult}
use inferbolt.Workers.Registry.{WorkerEntry, is_idle}

pub record SelectionRequest (F : Type 0) : Type 0 where
  pub classification : ClassificationResult F
  pub gpu_profile : String
  pub tenant_id : String
  pub fallback_allowed : Bool

pub record SelectionResult : Type 0 where
  pub engine : String
  pub worker_id : String
  pub worker_url : String
  pub used_fallback : Bool
  pub fallback_reason : String

pub record ExtendedWorkerEntry : Type 0 where
  pub entry : WorkerEntry
  pub engine : String

pub record CacheWrite : Type 0 where
  pub key : String
  pub value : SelectionResult
  pub ttl : ℕ

unfoldable pub cache_key : String → String → String
cache_key tenant_id gpu_profile = concat "sel:" (concat tenant_id (concat ":" gpu_profile))

abbrev pub selection_ttl : ℕ
selection_ttl = 30000000000

abbrev is_match : String → ExtendedWorkerEntry → Bool
is_match gpu_profile w = is_idle w.entry.status && (w.entry.gpu_type == gpu_profile)

-- The first loop.
unfoldable pub find_recommended :
    String → String → List ExtendedWorkerEntry → Option ExtendedWorkerEntry
find_recommended engine gpu_profile [] = none
find_recommended engine gpu_profile (w ∷ workers) =
    if is_idle w.entry.status && ((w.engine == engine) && (w.entry.gpu_type == gpu_profile))
    then some w
    else find_recommended engine gpu_profile workers

-- The second loop.
unfoldable pub find_fallback : String → List ExtendedWorkerEntry → Option ExtendedWorkerEntry
find_fallback gpu_profile [] = none
find_fallback gpu_profile (w ∷ workers) =
    if is_match gpu_profile w then some w else find_fallback gpu_profile workers

abbrev pub recommended_result : ExtendedWorkerEntry → SelectionResult
recommended_result w = record {
  engine = w.engine;
  worker_id = w.entry.worker_id;
  worker_url = w.entry.url;
  used_fallback = false;
  fallback_reason = "";
}

abbrev fallback_result : String → ExtendedWorkerEntry → SelectionResult
fallback_result engine w = record {
  engine = w.engine;
  worker_id = w.entry.worker_id;
  worker_url = w.entry.url;
  used_fallback = true;
  fallback_reason =
      concat "no idle "
        (concat engine (concat " workers available, using " (concat w.engine " instead")));
}

module _ {F : Type 0} where
  stored : SelectionRequest F → SelectionResult → Result SelectionResult × Option CacheWrite
  stored req result = (
    ok result,
    some (record {
      key = cache_key req.tenant_id req.gpu_profile;
      value = result;
      ttl = selection_ttl;
    }),
  )

  fallen_back :
      SelectionRequest F → Option ExtendedWorkerEntry → Result SelectionResult × Option CacheWrite
  unfolding stored
  fallen_back req none = (err "no worker available", none)
  fallen_back req (some w) = stored req (fallback_result req.classification.recommended_engine w)

  fallback_attempt :
      SelectionRequest F → List ExtendedWorkerEntry → Result SelectionResult × Option CacheWrite
  unfolding fallen_back
  fallback_attempt req workers =
      if req.fallback_allowed
      then fallen_back req (find_fallback req.gpu_profile workers)
      else fallen_back req none

  first_attempt :
      SelectionRequest F
      → List ExtendedWorkerEntry
      → Option ExtendedWorkerEntry
      → Result SelectionResult × Option CacheWrite
  unfolding stored fallback_attempt
  first_attempt req workers (some w) = stored req (recommended_result w)
  first_attempt req workers none = fallback_attempt req workers

  looked_up :
      SelectionRequest F
      → List ExtendedWorkerEntry
      → Option SelectionResult
      → Result SelectionResult × Option CacheWrite
  unfolding first_attempt
  looked_up req workers (some cached) = (ok cached, none)
  looked_up req workers none =
      first_attempt req workers
        (find_recommended req.classification.recommended_engine req.gpu_profile workers)

  -- `answers` is what `Get` answers to each key.
  unfoldable pub select :
      SelectionRequest F
      → List ExtendedWorkerEntry
      → (String → Option SelectionResult)
      → Result SelectionResult × Option CacheWrite
  unfolding looked_up
  select req workers answers =
      looked_up req workers (answers (cache_key req.tenant_id req.gpu_profile))
