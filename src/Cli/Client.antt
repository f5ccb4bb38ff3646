-- ===== src/Cli/Client.antt =====
-- internal/cli/client.go: what the client makes of the gateway's answers.
use inferbolt.Base.{ℕ, String, Option, none, some, ◌==◌, ◌⊎◌, inl, inr, leb, concat, if◌then◌else◌}
use inferbolt.Base.Int.{pos}
use inferbolt.Base.Results.{Result, ok, err}
use inferbolt.Base.Texts.{decimal_text}
use inferbolt.Campaigns.Store.{Tables}
use inferbolt.Gateway.Handlers.{Response}
use inferbolt.Gateway.Reads.{Parameter, CampaignEvents, get_campaign_events}

-- `resp.Status`, the status line; an error's text is the body's, or else that line.
abbrev error_message : (ℕ → String) → Response → String
error_message status_line r = if r.message == "" then status_line r.status else r.message

-- The body that the gateway writes is what the client decodes.
unfoldable pub decode_resp : {A : Type 0} → (ℕ → String) → Response ⊎ A → Result A
decode_resp status_line (inr a) = ok a
decode_resp status_line (inl r) =
    if leb 400 r.status
    then err (
        concat "server error "
          (concat (decimal_text r.status) (concat ": " (error_message status_line r))))
    else err "decode response: EOF"

-- `fmt.Sprintf("%d", n)`, which `strconv.Atoi` reads back, and a parameter that is not sent, of
-- which it reads the empty text.
abbrev pub number_parameter : ℕ → Parameter
number_parameter n = record { text = decimal_text n; number = some (pos n) }

abbrev pub no_parameter : Parameter
no_parameter = record { text = ""; number = none }

-- `CampaignEventsAfter`, which does not ask for a limit. What the tables hold when the gateway's
-- two statements read them is given, as is what the database answers.
unfoldable pub campaign_events_after :
    {F : Type 0}
    → (ℕ → String)
    → Option String
    → Option String
    → String
    → String
    → Tables F
    → Tables F
    → ℕ
    → Result (CampaignEvents F)
unfolding decode_resp
campaign_events_after status_line read query id tenant t later after_seq =
    decode_resp status_line
      (get_campaign_events read query id tenant (number_parameter after_seq) no_parameter t later)
