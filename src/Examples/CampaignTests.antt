-- ===== src/Examples/CampaignTests.antt =====
-- The theorems on campaigns at concrete inputs.
use inferbolt.Base.{ℕ, ◌≡◌, refl, ◌⊎◌, false, none, List, [], ◌∷◌, if◌then◌else◌}
use inferbolt.Base.Int.{pos}
use inferbolt.Base.Lists.{take, drop}
use inferbolt.Base.Float64.{Micros, micros_float}
use inferbolt.Base.Maps.{get}
use inferbolt.Base.Results.{ok, err}
use inferbolt.Agent.Types.{Event, EventKind, plain, TrialSpec}
use inferbolt.Campaigns.Rows.{CampaignRow, pending, running, cancelled, same}
use inferbolt.Campaigns.Store.{Tables, mark_running, append_event, events, max_seq}
use inferbolt.Campaigns.Claims.{
  Statement, claims, cancels, completes, execute_all, StateIs, Cancelled, execute_all-Cancelled,
  claimed_once,
}
use inferbolt.Campaigns.Feed.{rows_of, Numbered, events_resume}
use inferbolt.Campaigns.Worker.{WorkInputs, ran_well, work}
use inferbolt.Campaigns.Runs.{Terminal, work_settles}
use inferbolt.Campaigns.Platform.{TrialInputs, ticked, run_benchmark}
use inferbolt.Campaigns.Trials.{OfEngine, Admits, Started, Refused, run_benchmark_lem}
use inferbolt.Jobs.State.{JobState}
use inferbolt.Agent.Budget.{default_budget}
use inferbolt.Examples.Data.{workload, config, measurement, job, empty_db}

abbrev pub row : CampaignRow Micros
row = record {
  campaign_id = "c1";
  tenant_id = "acme";
  goal = "fast";
  model = "m";
  gpu_profile = "A100";
  engines = "vllm" ∷ [];
  workload = workload;
  budget = default_budget;
  planner_model = "planner";
  state = pending;
  recommendation = none;
  trials = [];
  usage = none;
  error_msg = "";
  created_at = 1;
  updated_at = 1;
  started_at = none;
  completed_at = none;
}

abbrev tables : Tables Micros
tables = record { campaigns = ("c1", row) ∷ []; events = [] }

abbrev stopped : Tables Micros
stopped = record { campaigns = ("c1", record row { state = cancelled }) ∷ []; events = [] }

abbrev statements : List (Statement Micros)
statements = cancels 3 "c1" "acme" ∷ completes 4 "c1" none ∷ claims 5 "c1" ∷ []

execute_all-Cancelled_example : StateIs Cancelled "c1" (execute_all statements stopped)
unfolding get same
execute_all-Cancelled_example = execute_all-Cancelled "c1" statements stopped refl

claimed_once_example :
    (mark_running none 6 "c1" (execute_all statements (mark_running none 2 "c1" tables).1)).0
    ≡ ok false
unfolding mark_running get same
claimed_once_example = claimed_once 2 6 "c1" statements tables refl

abbrev pub event : Event Micros
event = record {
  kind = EventKind.warn;
  text = plain "hi";
  trial = none;
  result = none;
  elapsed = pos 7;
}

abbrev logged : Tables Micros
logged = (append_event none 2 "c1" event tables).1

events_resume_example :
    ((after limit : ℕ)
      → events none "c1" after limit logged
        ≡ ok (take limit (drop after (rows_of "c1" logged.events))))
    × Numbered "c1" 0 (append_event none 3 "c2" event logged).1.events
unfolding append_event max_seq
events_resume_example = events_resume 3 "c1" "c2" event logged (refl, tt)

abbrev inputs : WorkInputs Micros
inputs = record {
  load_fault = none;
  claim_fault = none;
  claimed_at = 2;
  factory_error = none;
  meanwhile = statements;
  run_end = ran_well;
  report = none;
  finish_fault = none;
  finished_at = 8;
}

work_settles_example :
    ((work inputs "c1" tables).0 ≡ none)
    × (if same pending pending
        then StateIs Terminal "c1" (work inputs "c1" tables).1
        else ((work inputs "c1" tables).1 ≡ tables))
unfolding get
work_settles_example = work_settles inputs "c1" tables row refl refl refl refl

abbrev spec : TrialSpec Micros
spec = record {
  model = "m";
  engine = "vllm";
  gpu_profile = "A100";
  workload = workload;
  engine_config = config;
}

abbrev trial_inputs : TrialInputs Micros
trial_inputs = record {
  campaign_state = ok running;
  job_id = "j9";
  now = 5;
  save_fault = none;
  enqueue_fault = none;
  wait = ticked (err "busy") ∷ ticked (ok (record job { state = JobState.completed })) ∷ [];
  results = ok (measurement ∷ []);
}

run_benchmark_lem_example :
    (Admits trial_inputs spec
      × Started none none "acme" trial_inputs spec empty_db
          (run_benchmark "acme" trial_inputs spec empty_db).1
      × OfEngine "vllm" (run_benchmark "acme" trial_inputs spec empty_db).0)
    ⊎ ((¬ Admits trial_inputs spec)
        × Refused (run_benchmark "acme" trial_inputs spec empty_db).0
        × ((run_benchmark "acme" trial_inputs spec empty_db).1 ≡ empty_db))
unfolding get
run_benchmark_lem_example = run_benchmark_lem "acme" trial_inputs spec empty_db
