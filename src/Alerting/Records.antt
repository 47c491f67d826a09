-- ===== src/Alerting/Records.antt =====
-- What `EvaluateAndAlert` of server/core/alerting/rule_engine.go leaves behind, over the repository
-- of server/storage/repository.go.
use iot_server.Base.{
  ℕ, false, ◌≡◌, refl, sym, ap, ◌∙◌, some, List, [], ◌∷◌, ◌++◌, map, append-nil, append_assoc,
  arith,
}
use iot_server.Base.Text.{Bytes, utf8, bytes_eq}
use iot_server.Base.Assoc.{Assoc, insert, lookup-insert_self}
use iot_server.Models.{TelemetryPayload, MessageHeader, EventPayload, no_entries, entry}
use iot_server.Storage.Memory
use iot_server.Storage.Memory.{InMemoryRepository, memory_repository, get_slice}
use iot_server.Alerting.Rules.{AlertEvent, RuleThresholds, alerts_of}
use iot_server.Alerting.Engine.{
  RuleEngine, Outside, event_of, send_alert_async, record_event, dispatch, dispatch_all,
  evaluate_and_alert,
}

-- The engine of the server, with the repository in memory.
abbrev pub memory_engine : RuleThresholds → Bytes → RuleEngine InMemoryRepository
memory_engine th url = record { thresholds = th; webhook_url = url; repo = some memory_repository }

-- The rest of the repository, which the engine does not touch.
pub record SameElsewhere (r s : InMemoryRepository) : Type 0 where
  pub cells : s.cells ≡ r.cells
  pub devices : s.devices ≡ r.devices
  pub telemetries : s.telemetries ≡ r.telemetries
  pub commands : s.commands ≡ r.commands

get_slice-insert_self {ℓ} :
    {A : Type ℓ} (k : Bytes) (xs : List A) (m : Assoc (List A)) → get_slice k (insert k xs m) ≡ xs
unfolding get_slice
get_slice-insert_self k xs m = ground (arith, lookup-insert_self k xs m)

abbrev events_of : InMemoryRepository → Bytes → List EventPayload
events_of r k = get_slice k r.events

-- The event of an alert: the rule, the severity, the message and the two values.
abbrev pub expected_event : MessageHeader → AlertEvent → EventPayload
expected_event header a = record {
  header = header;
  event = record {
    event_type = a.rule_name;
    severity = a.severity;
    message = a.message;
    details = some (
        entry (utf8 "current_value") a.current_val
          (entry (utf8 "threshold") a.threshold no_entries));
  };
}

module _ (th : RuleThresholds) (url : Bytes) (now : ℕ) (header : MessageHeader) where
  dispatch_all-events :
      (as' : List AlertEvent) (o : Outside InMemoryRepository)
      → events_of (dispatch_all (memory_engine th url) now header as' o).store header.device_id
        ≡ events_of o.store header.device_id ++ map (expected_event header) as'
  unfolding dispatch_all dispatch record_event event_of Memory.save_event
  dispatch_all-events [] o = sym (append-nil _)
  dispatch_all-events (a ∷ as') o =
      let k = header.device_id in
      let x = expected_event header a in
      let more = map (expected_event header) as' in
      dispatch_all-events as' (dispatch (memory_engine th url) now header a o)
      ∙ ap (λ z. z ++ more)
          (get_slice-insert_self k (events_of o.store k ++ (x ∷ [])) o.store.events)
      ∙ append_assoc (events_of o.store k) (x ∷ []) more

  pub dispatch_all-elsewhere :
      (as' : List AlertEvent) (o : Outside InMemoryRepository)
      → SameElsewhere o.store (dispatch_all (memory_engine th url) now header as' o).store
  unfolding dispatch_all dispatch record_event Memory.save_event
  dispatch_all-elsewhere [] o = record {
    cells = refl;
    devices = refl;
    telemetries = refl;
    commands = refl;
  }
  dispatch_all-elsewhere (a ∷ as') o =
      let h = dispatch_all-elsewhere as' (dispatch (memory_engine th url) now header a o) in
      record {
        cells = h.cells;
        devices = h.devices;
        telemetries = h.telemetries;
        commands = h.commands;
      }

  dispatch_all-outbox :
      (as' : List AlertEvent) (o : Outside InMemoryRepository)
      → bytes_eq url [] ≡ false
      → (dispatch_all (memory_engine th url) now header as' o).outbox ≡ o.outbox ++ as'
  unfolding dispatch_all dispatch send_alert_async
  dispatch_all-outbox [] o h = sym (append-nil _)
  dispatch_all-outbox (a ∷ as') o h =
      dispatch_all-outbox as' (dispatch (memory_engine th url) now header a o) h
      ∙ ap (λ z. z ++ as') (rw (h, send_alert_async))
      ∙ append_assoc o.outbox (a ∷ []) as'

-- Every alert that is raised is recorded as an event of the device of the message, in order, with
-- the rule, the severity, the message and the two values. With a webhook each is posted once, in
-- order. The devices, the messages and the commands of the repository stay as they are.
pub evaluate_and_alert-records :
    (th : RuleThresholds) (url : Bytes) (now : ℕ) (t : TelemetryPayload)
    (o : Outside InMemoryRepository)
    → bytes_eq url [] ≡ false
    → let after = (evaluate_and_alert (memory_engine th url) now t o).1 in
      let alerts = alerts_of th now t in
      (get_slice t.header.device_id after.store.events
        ≡ get_slice t.header.device_id o.store.events ++ map (expected_event t.header) alerts)
      × (after.outbox ≡ o.outbox ++ alerts)
      × SameElsewhere o.store after.store
unfolding evaluate_and_alert
evaluate_and_alert-records th url now t o h = (
  dispatch_all-events th url now t.header (alerts_of th now t) o,
  dispatch_all-outbox th url now t.header (alerts_of th now t) o h,
  dispatch_all-elsewhere th url now t.header (alerts_of th now t) o,
)
