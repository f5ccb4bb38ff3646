-- ===== src/Drift/Notifier.antt =====
-- internal/drift/notifier.go. A number is printed with `%.<k>f` by the parameter `fixed`. A message
-- always marshals, since it is texts.
use inferbolt.Base.{
  ℕ, String, Option, none, some, List, [], ◌∷◌, ◌++◌, ◌≡◌, refl, ap, map, ◌==◌, ◌≢◌, ==_ne, eqb,
  concat, if◌then◌else◌,
}
use inferbolt.Base.Results.{Result, ok, err}
use inferbolt.Base.Texts.{decimal_text}
use inferbolt.Drift.Detector.{DriftAlert}

pub record SlackText : Type 0 where
  pub kind : String
  pub text : String

pub record SlackBlock : Type 0 where
  pub kind : String
  pub text : SlackText

pub record SlackMessage : Type 0 where
  pub text : String
  pub blocks : List SlackBlock

abbrev pub severity_mark : String → String
severity_mark severity = if severity == "critical" then "🔴" else "🟡"

abbrev all_of : List String → String
all_of [] = ""
all_of (s ∷ rest) = concat s (all_of rest)

-- What the webhook answers: the error of making the request, and then an error or a status.
pub record Webhook : Type 0 where
  pub bad_request : Option String
  pub answer : Result ℕ

abbrev pub status_error : Result ℕ → Option String
status_error (err e) = some (concat "send slack webhook: " e)
status_error (ok status) =
    if eqb status 200
    then none
    else some (concat "slack webhook returned status " (decimal_text status))

abbrev pub sent_to : Option String → Result ℕ → SlackMessage → Option String × List SlackMessage
sent_to (some e) answer m = (some (concat "create slack request: " e), [])
sent_to none answer m = (status_error answer, m ∷ [])

-- What the loop of `Start` receives.
pub data NotifierEvent (F : Type 0) : Type 0 where
  context_done channel_closed : NotifierEvent F
  received : DriftAlert F → Webhook → NotifierEvent F

module _ {F : Type 0} (fixed : ℕ → F → String) where
  unfoldable pub message_text : DriftAlert F → String
  message_text a = all_of (
      severity_mark a.severity
      ∷ " *"
      ∷ a.severity
      ∷ "* drift on `"
      ∷ a.engine
      ∷ "/"
      ∷ a.model
      ∷ "`\nMetric: `"
      ∷ a.metric
      ∷ "` deviated `"
      ∷ fixed 1 a.deviation_pct
      ∷ "%` from baseline\nBaseline: `"
      ∷ fixed 2 a.baseline_value
      ∷ "` → Current: `"
      ∷ fixed 2 a.current_value
      ∷ "`"
      ∷ [])

  unfoldable pub slack_message : DriftAlert F → SlackMessage
  unfolding message_text
  slack_message a = record {
    text = "🚨 InferBolt drift detected";
    blocks =
        record { kind = "section"; text = record { kind = "mrkdwn"; text = message_text a } } ∷ [];
  }

  -- The error, and the messages that were posted.
  unfoldable pub send : String → Webhook → DriftAlert F → Option String × List SlackMessage
  unfolding slack_message
  send webhook_url w alert =
      if webhook_url == "" then (none, []) else sent_to w.bad_request w.answer (slack_message alert)

  -- The messages that the loop posts; an error of `send` is only logged.
  unfoldable pub start : String → List (NotifierEvent F) → List SlackMessage
  unfolding send
  start webhook_url [] = []
  start webhook_url (context_done ∷ events) = []
  start webhook_url (channel_closed ∷ events) = []
  start webhook_url (received alert w ∷ events) =
      (send webhook_url w alert).1 ++ start webhook_url events

  -- The events of alerts whose requests can be made.
  abbrev pub arriving : List (DriftAlert F × Result ℕ) → List (NotifierEvent F)
  arriving [] = []
  arriving ((alert, answer) ∷ alerts) =
      received alert (record { bad_request = none; answer = answer }) ∷ arriving alerts

  -- With a webhook, every alert that arrives before the context is done or the channel is closed
  -- is posted once, in order, whatever the webhook answers to the alerts before; none that comes
  -- behind is. Without one, none is posted.
  pub start-slack_message :
      (webhook_url : String) (alerts : List (DriftAlert F × Result ℕ))
      (behind : List (NotifierEvent F))
      → (webhook_url ≢ ""
          → start webhook_url (arriving alerts ++ context_done ∷ behind)
            ≡ map (λ a. slack_message a.0) alerts)
        × (start "" (arriving alerts ++ channel_closed ∷ behind) ≡ [])
  unfolding start send
  start-slack_message webhook_url alerts behind = (λ url. posted alerts url, silent alerts)
    where
      posted :
          (l : List (DriftAlert F × Result ℕ))
          → webhook_url ≢ ""
          → start webhook_url (arriving l ++ context_done ∷ behind) ≡ map (λ a. slack_message a.0) l
      posted [] url = refl
      posted ((alert, answer) ∷ l) url =
          rw (==_ne webhook_url "" url) (ap (λ r. slack_message alert ∷ r) (posted l url))

      silent :
          (l : List (DriftAlert F × Result ℕ))
          → start "" (arriving l ++ channel_closed ∷ behind) ≡ []
      silent [] = refl
      silent ((alert, answer) ∷ l) = silent l
