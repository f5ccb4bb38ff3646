-- ===== src/Gateway/Handlers.antt =====
-- internal/gateway/handlers.go: the handlers of jobs. A request is what was decoded from it, or the
-- text of the error; the tenant is the one that authentication put into the context. A response is
-- its status and its message, "" where the body is data. What the queue answers is an input.
use inferbolt.Base.{
  ℕ, String, Bool, false, ◌&&◌, not, Option, none, some, List, [], ◌∷◌, ◌==◌, eqb, ltb, length,
  if◌then◌else◌,
}
use inferbolt.Base.Int.{ℤ, pos, negsuc}
use inferbolt.Base.Float64.{Float64}
use inferbolt.Base.Results.{Result, ok, err}
use inferbolt.Jobs.State.{pending, cancelled, is_terminal}
use inferbolt.Jobs.Types.{WorkloadConfig, EngineConfig, Job}
use inferbolt.Jobs.Validate.{validate_engines, validate_workload, validate_engine_config}
use inferbolt.Jobs.Store.{Db, save_job, get_job, update_job_state}
use inferbolt.Router.Classifier.{ClassificationInput, classify}

pub record Response : Type 0 where
  pub status : ℕ
  pub message : String

abbrev pub respond : ℕ → String → Response
respond status message = record { status = status; message = message }

pub record CreateJobRequest (F : Type 0) : Type 0 where
  pub model : String
  pub engines : List String
  pub workload : WorkloadConfig
  pub engine_config : EngineConfig F
  pub gpu_profile : String
  pub auto_route : Bool

-- An early return.
abbrev pub when : Bool → String → Option String
when b message = if b then some message else none

abbrev pub or_else : Option String → Option String → Option String
or_else (some e) rest = some e
or_else none rest = rest

-- `parsed` is what `strconv.Atoi` answers to the text; no maximum is 0.
unfoldable pub query_int : String → Option ℤ → ℕ → ℕ → ℕ
query_int text none default_val max_val = default_val
query_int text (some (negsuc n)) default_val max_val = default_val
query_int text (some (pos n)) default_val max_val =
    if text == "" then default_val else if ltb 0 max_val && ltb max_val n then max_val else n

-- The first engine is replaced by the recommended one.
abbrev pub routed : String → List String → List String
routed recommended [] = recommended ∷ []
routed recommended (e ∷ engines) = recommended ∷ engines

module _ {F : Type 0} where
  unfoldable pub queue_answered : Option String → Db F → Response × Db F
  queue_answered (some e) db = (respond 500 "failed to enqueue job", db)
  queue_answered none db = (respond 202 "", db)

  unfoldable pub saved : Option String → Option String × Db F → Response × Db F
  unfolding queue_answered
  saved queue (some e, db) = (respond 500 "failed to save job", db)
  saved queue (none, db) = queue_answered queue db

  unfoldable pub cancel_written : Option String × Db F → Response × Db F
  cancel_written (some e, db) = (respond 500 "failed to cancel job", db)
  cancel_written (none, db) = (respond 200 "", db)

  unfoldable pub cancel_found : Option String → ℕ → String → Result (Job F) → Db F → Response × Db F
  unfolding cancel_written
  cancel_found fault now id (err e) db = (respond 404 "job not found", db)
  cancel_found fault now id (ok job) db =
      if is_terminal job.state
      then (respond 409 "job already in terminal state", db)
      else cancel_written (update_job_state fault now id cancelled "" db)

  -- The note to the orchestrator, sent behind the response, is not modelled.
  unfoldable pub cancel_job :
      Option String → Option String → ℕ → String → String → Db F → Response × Db F
  unfolding cancel_found
  cancel_job read write now id tenant db = cancel_found write now id (get_job read id tenant db) db

module _ {F : Type 0} ⦃f : Float64 F⦄ where
  unfoldable pub create_error : CreateJobRequest F → Option String
  create_error req = or_else (when (req.model == "") "model is required") (
      or_else
        (when (not req.auto_route && eqb (length req.engines) 0)
          "at least one engine is required (or set auto_route)")
        (or_else (validate_engines req.engines) (
          or_else (when (req.gpu_profile == "") "gpu_profile is required")
            (or_else (validate_workload req.workload) (validate_engine_config req.engine_config)))))

  -- Only three of the classifier's inputs are set.
  abbrev route_input : WorkloadConfig → ClassificationInput F
  route_input w = record {
    prompt_tokens = w.prompt_tokens;
    output_tokens = w.output_tokens;
    concurrency = w.concurrency;
    structured_output = false;
    tool_calls = false;
    shared_prefix_ratio = f.decimal 0 0;
  }

  engines_of : CreateJobRequest F → List String
  engines_of req =
      if req.auto_route
      then routed (classify (route_input req.workload)).recommended_engine req.engines
      else req.engines

  unfoldable pub job_of : String → String → ℕ → CreateJobRequest F → Job F
  unfolding engines_of
  job_of id tenant now req = record {
    job_id = id;
    tenant_id = tenant;
    model = req.model;
    engines = engines_of req;
    workload_config = req.workload;
    engine_config = req.engine_config;
    gpu_profile = req.gpu_profile;
    state = pending;
    created_at = now;
    updated_at = now;
    error_msg = "";
    run_id = "";
  }

  unfoldable pub checked :
      Option String
      → Option String
      → String
      → String
      → ℕ
      → CreateJobRequest F
      → Option String
      → Db F
      → Response × Db F
  unfolding saved
  checked store queue id tenant now req (some e) db = (respond 400 e, db)
  checked store queue id tenant now req none db =
      saved queue (save_job store (job_of id tenant now req) db)

  unfoldable pub create_job :
      Option String
      → Option String
      → String
      → String
      → ℕ
      → Result (CreateJobRequest F)
      → Db F
      → Response × Db F
  unfolding checked
  create_job store queue id tenant now (err e) db = (respond 400 e, db)
  create_job store queue id tenant now (ok req) db =
      checked store queue id tenant now req (create_error req) db
