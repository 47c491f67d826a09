-- ===== src/Alerting/Engine.antt =====
-- The loop of `EvaluateAndAlert` in server/core/alerting/rule_engine.go, which records and
-- dispatches the alerts, over any repository, and `SendAlertAsync` of
-- server/core/alerting/webhook_client.go.
use iot_server.Base.{ℕ, Option, none, some, List, [], ◌∷◌, ◌++◌, if◌then◌else◌}
use iot_server.Base.Text.{Bytes, utf8, bytes_eq}
use iot_server.Models.{TelemetryPayload, EventPayload, MessageHeader, no_entries, entry}
use iot_server.Storage.Interface.{Repository}
use iot_server.Alerting.Rules.{AlertEvent, RuleThresholds, alerts_of}

-- `repo` is nil if `none`. The state of the repository is not part of it.
pub record RuleEngine (S : Type 0) : Type 0 where
  pub thresholds : RuleThresholds
  pub webhook_url : Bytes
  pub repo : Option (Repository S)

-- The repository's state, and the alerts for which a goroutine was started that posts them.
pub record Outside (S : Type 0) : Type 0 where
  pub store : S
  pub outbox : List AlertEvent

-- The event that is recorded for an alert.
unfoldable pub event_of : MessageHeader → AlertEvent → EventPayload
event_of header a = record {
  header = header;
  event = record {
    event_type = a.rule_name;
    severity = a.severity;
    message = a.message;
    details = some (
        entry (utf8 "current_value") a.current_val
          (entry (utf8 "threshold") a.threshold no_entries));
  };
}

unfoldable pub send_alert_async : Bytes → AlertEvent → List AlertEvent → List AlertEvent
send_alert_async webhook_url a outbox =
    if bytes_eq webhook_url [] then outbox else outbox ++ (a ∷ [])

module _ {S : Type 0} (e : RuleEngine S) (now : ℕ) where
  -- `if e.repo != nil { _ = e.repo.SaveEvent(…) }`
  unfoldable pub record_event : EventPayload → S → S
  record_event p s = elim e.repo [ none ↦ s | some repo ↦ (repo.save_event now p s).0 ]

  -- The body of the loop over the alerts.
  unfoldable pub dispatch : MessageHeader → AlertEvent → Outside S → Outside S
  dispatch header a o = record {
    store = record_event (event_of header a) o.store;
    outbox = send_alert_async e.webhook_url a o.outbox;
  }

  unfoldable pub dispatch_all : MessageHeader → List AlertEvent → Outside S → Outside S
  dispatch_all header [] o = o
  dispatch_all header (a ∷ as') o = dispatch_all header as' (dispatch header a o)

  unfoldable pub evaluate_and_alert : TelemetryPayload → Outside S → List AlertEvent × Outside S
  evaluate_and_alert t o =
      let alerts = alerts_of e.thresholds now t in (alerts, dispatch_all t.header alerts o)
