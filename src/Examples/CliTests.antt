-- ===== src/Examples/CliTests.antt =====
-- The theorems on the command line at concrete inputs.
use inferbolt.Base.{
  ℕ, String, ◌≡◌, refl, inl, ◌⊎◌, true, false, none, some, List, [], ◌∷◌, ◌++◌, map, join, All,
}
use inferbolt.Base.Int.{pos}
use inferbolt.Base.Float64.{Micros, micros_float, Micros-IsOrdered}
use inferbolt.Base.Lists.{take, drop}
use inferbolt.Base.Maps.{get}
use inferbolt.Base.Results.{ok, err}
use inferbolt.Base.Spaces.{fields, trim_space}
use inferbolt.Jobs.State as JobState
use inferbolt.Jobs.State.{completed, failed, cancelled}
use inferbolt.Jobs.Types.{Measurement}
use inferbolt.Cli.PollJob.{PollTurn, context_done, ticked, poll_and_report}
use inferbolt.Cli.Reports.{poll_and_report_lem}
use inferbolt.Campaigns.Rows.{EventRow, CampaignState, is_terminal}
use inferbolt.Campaigns.Store.{Tables, get_campaign}
use inferbolt.Campaigns.Feed.{rows_of}
use inferbolt.Cli.Follow.{finished, follow_campaign, to_agent_event}
use inferbolt.Cli.Resume.{Poll, turn_of, follow_campaign-events, follow_campaign-terminal}
use inferbolt.Cli.Wrap.{indent_wrap, words_on, Fits, indent_wrap_lem}
use inferbolt.Cli.Bootstrap.{
  Config, api_key_not_configured, load, is_local_server_url, TokenLook, BootInputs, Resolved,
  ensure_server_healthy, resolve_or_bootstrap_config,
}
use inferbolt.Cli.Credentials.{resolve_or_bootstrap_config-Blank, resolve_or_bootstrap_config-saved}
use inferbolt.Cli.Stack.{
  StackInputs, Stack, left_running, has_idle_worker, Seen, ensure_stack, ensure_stack-Ensured,
}
use inferbolt.Cli.Table.{tok_per_s, green, best_idx, mark_of, recommended}
use inferbolt.Cli.Compare.{nth, recommended_lem}
use inferbolt.Examples.Data.{measurement, worker, job}
use inferbolt.Examples.CampaignTests.{row, event}

abbrev event_at : ℕ → EventRow Micros
event_at seq = record {
  campaign_id = "c1";
  seq = seq;
  kind = event.kind;
  text = event.text;
  trial = none;
  result = none;
  elapsed_ms = pos 0;
  created_at = 2;
}

abbrev whole : List (EventRow Micros)
whole = event_at 1 ∷ event_at 2 ∷ event_at 3 ∷ []

abbrev tables_with : CampaignState → List (EventRow Micros) → Tables Micros
tables_with state events = record {
  campaigns = ("c1", record row { state = state }) ∷ [];
  events = events;
}

abbrev poll_of : CampaignState → List (EventRow Micros) → Poll Micros
poll_of state events = record {
  read_fault = none;
  query_fault = none;
  at_read = tables_with state events;
  at_query = tables_with state events;
  done_at_error = false;
  done_at_wait = false;
}

abbrev status_line : ℕ → String
status_line n = "status"

abbrev early : Poll Micros
early = poll_of CampaignState.running (event_at 1 ∷ [])

abbrev late : Poll Micros
late = poll_of CampaignState.completed whole

follow_campaign-events_example :
    (n : ℕ) × ((follow_campaign (map (turn_of status_line "c1" "acme") (early ∷ late ∷ [])) 0).0
      ≡ map to_agent_event (take n (drop 0 (rows_of "c1" whole))))
follow_campaign-events_example =
    follow_campaign-events "c1" status_line "acme" whole (early ∷ late ∷ []) 0
      (refl, (refl, (refl, tt))) ((event_at 2 ∷ event_at 3 ∷ [], refl), (([], refl), tt))

follow_campaign-terminal_example :
    follow_campaign (map (turn_of status_line "c1" "acme") (late ∷ [])) 1
    ≡ (map to_agent_event (take 200 (drop 1 (rows_of "c1" whole))), some finished)
unfolding get_campaign get is_terminal
follow_campaign-terminal_example =
    follow_campaign-terminal "c1" status_line "acme" late [] 1
      (record row { state = CampaignState.completed }) (refl, (refl, (refl, tt))) refl refl refl
      refl

indent_wrap_lem_example :
    (lines : List (List String)) × (indent_wrap "two words"
      ≡ join "\n         " (map (join " ") lines))
    × (words_on lines ≡ fields "two words")
    × All Fits lines
indent_wrap_lem_example = indent_wrap_lem "two words"

abbrev blank_look : TokenLook
blank_look = record { file = ok "\n"; expired = false; cancelled = none }

abbrev last_look : TokenLook
last_look = record { file = ok " "; expired = true; cancelled = none }

abbrev unconfigured : Config
unconfigured = record {
  server_url = "https://inferbolt.example";
  api_key = "";
  tenant_id = "";
  output_fmt = "table";
}

abbrev boot : BootInputs
boot = record {
  read = ok unconfigured;
  flags = record { server = ""; api_key = ""; output = "" };
  hostname = λ url. some "localhost";
  services = record { up = true; compose_missing = none; compose_failed = none; looks = [] };
  looks = blank_look ∷ last_look ∷ [];
  save_error = none;
}

resolve_or_bootstrap_config-Blank_example :
    (r : Resolved) × (resolve_or_bootstrap_config boot ≡ some (ok r))
    × (r.config.api_key ≡ "")
    × (r.saved ≡ some r.config)
unfolding is_local_server_url ensure_server_healthy trim_space
resolve_or_bootstrap_config-Blank_example =
    resolve_or_bootstrap_config-Blank boot unconfigured (blank_look ∷ []) [] last_look " " refl refl
      refl refl refl refl (("\n", refl, refl, refl, refl), tt) refl refl refl

abbrev booted : Config
booted = record {
  server_url = "http://localhost:8080";
  api_key = "token";
  tenant_id = "";
  output_fmt = "table";
}

abbrev boot_with_token : BootInputs
boot_with_token = record boot {
  looks = record { file = ok "token\n"; expired = false; cancelled = none } ∷ [];
}

resolve_or_bootstrap_config-saved_example :
    (load boot_with_token.read ≡ inl api_key_not_configured)
    × (is_local_server_url boot_with_token.hostname "http://localhost:8080" ≡ true)
    × (booted ≡ booted)
unfolding resolve_or_bootstrap_config trim_space
resolve_or_bootstrap_config-saved_example =
    resolve_or_bootstrap_config-saved boot_with_token
      (record { config = booted; saved = some booted }) booted refl refl

abbrev stack_inputs : StackInputs
stack_inputs = record {
  config_error = none;
  gpu_profile = "H100";
  list = ok (worker ∷ []);
  spawn_error = none;
  keep_worker = false;
  looks = record { list = err "down"; expired = true; cancelled = none } ∷ [];
}

abbrev failed_stack : Stack
failed_stack = record {
  error = some "worker did not register with the orchestrator";
  running = false;
  stops = false;
}

ensure_stack-Ensured_example :
    (left_running failed_stack ≡ true
      → (stack_inputs.keep_worker ≡ true)
        × (has_idle_worker stack_inputs.list "H100" ≡ ok false)
        × (stack_inputs.spawn_error ≡ none))
    × (failed_stack.error ≡ none
        → (has_idle_worker stack_inputs.list "H100" ≡ ok true) ⊎ Seen "H100" stack_inputs.looks)
unfolding ensure_stack
ensure_stack-Ensured_example = ensure_stack-Ensured stack_inputs failed_stack refl

abbrev faster : Measurement Micros
faster = record measurement { tok_per_s = record { units = pos 9000000 } }

recommended_lem_example :
    (best : Measurement Micros) × (recommended (measurement ∷ faster ∷ []) ≡ some best)
    × (nth (measurement ∷ faster ∷ []) (best_idx tok_per_s (measurement ∷ faster ∷ [])) ≡ some best)
    × (mark_of
          (measurement ∷ faster ∷ [])
          (best_idx tok_per_s (measurement ∷ faster ∷ []))
          tok_per_s
        ≡ green)
    × All (λ x. micros_float.lt best.tok_per_s x.tok_per_s ≡ false) (measurement ∷ faster ∷ [])
recommended_lem_example = recommended_lem Micros-IsOrdered measurement (faster ∷ [])

abbrev going_on : List (PollTurn Micros)
going_on = ticked false (err "down") ∷ ticked false (ok job) ∷ []

poll_and_report_lem_example :
    (cancelled ≡ failed
      → poll_and_report
          (ok (measurement ∷ []))
          (going_on ++ ticked false (ok (record job { state = cancelled })) ∷ [])
        ≡ some (err "benchmark failed: "))
    × (cancelled ≡ completed
        → poll_and_report
            (ok (measurement ∷ []))
            (going_on ++ ticked false (ok (record job { state = cancelled })) ∷ [])
          ≡ some (ok (measurement ∷ [])))
    × (cancelled ≡ cancelled
        → poll_and_report
            (ok (measurement ∷ []))
            (going_on ++ ticked false (ok (record job { state = cancelled })) ∷ [])
          ≡ some (ok (measurement ∷ [])))
    × ((cause : String)
        → poll_and_report (ok (measurement ∷ [])) (going_on ++ context_done cause ∷ [])
          ≡ some (err cause))
    × (poll_and_report
          (ok (measurement ∷ []))
          (going_on ++ ticked true (ok (record job { state = cancelled })) ∷ [])
        ≡ some (err "job polling timed out after 60 minutes"))
unfolding JobState.is_terminal
poll_and_report_lem_example =
    poll_and_report_lem (ok (measurement ∷ [])) going_on [] (record job { state = cancelled })
      (refl, ((refl, refl), tt))
