-- ===== src/Api/Effects.antt =====
-- What a message of one device leaves of another: `SaveTelemetry`, `EvaluateAndAlert` and the steps
-- of `HandleTelemetry` in server/api/handlers/telemetry_handler.go behind them, over the repository
-- in memory.
use iot_server.Base.{ℕ, ◌≡◌, refl, ap, ◌∙◌, false, Option, none, some, List, [], ◌∷◌, ◌++◌, arith}
use iot_server.Base.Text.{Bytes, bytes_eq}
use iot_server.Base.Float.{Float64}
use iot_server.Base.Assoc.{Assoc, lookup, insert, lookup-insert}
use iot_server.Models.{TelemetryPayload, MessageHeader, DeviceCommand, OtaInfo}
use iot_server.Storage.Memory
use iot_server.Storage.Memory.{
  InMemoryRepository, memory_repository, get_slice, device_of, find_or_create,
}
use iot_server.Storage.Memory.Heap.{IsValid}
use iot_server.Storage.Memory.Devices.{device_of-save_telemetry}
use iot_server.Storage.Memory.History.{find_or_create-others}
use iot_server.Alerting.Rules.{AlertEvent, RuleThresholds, alerts_of}
use iot_server.Alerting.Engine.{
  Outside, event_of, record_event, dispatch, dispatch_all, evaluate_and_alert,
}
use iot_server.Alerting.Records.{memory_engine, dispatch_all-elsewhere}
use iot_server.Api.Requests.{Json, to_uint32}
use iot_server.Api.Handlers.{ApiHandler, ApiState, respond}
use iot_server.Api.Answers.{apply_request, apply_configs, requested_sleep}

-- What the server holds for a device is as it was.
pub record Untouched (k : Bytes) (st st' : ApiState InMemoryRepository) : Type 0 where
  pub device : device_of k st'.outside.store ≡ device_of k st.outside.store
  pub telemetries :
      get_slice k st'.outside.store.telemetries ≡ get_slice k st.outside.store.telemetries
  pub events : get_slice k st'.outside.store.events ≡ get_slice k st.outside.store.events
  pub commands : get_slice k st'.outside.store.commands ≡ get_slice k st.outside.store.commands
  pub sleep : lookup k st'.device_sleep_configs ≡ lookup k st.device_sleep_configs

abbrev pub memory_handler : Option OtaInfo → RuleThresholds → Bytes → ApiHandler InMemoryRepository
memory_handler ota th url = record {
  repo = memory_repository;
  available_ota = ota;
  rule_engine = memory_engine th url;
}

pub get_slice-insert_ne {ℓ} :
    {A : Type ℓ} (j k : Bytes) (xs : List A) (m : Assoc (List A))
    → bytes_eq j k ≡ false
    → get_slice k (insert j xs m) ≡ get_slice k m
unfolding get_slice
get_slice-insert_ne j k xs m h = ground (arith, lookup-insert j k xs m)

-- The settings of another device are not changed by a command, nor by all that wait.
pub apply_request-other :
    (out : Float64 → ℕ) (id k : Bytes) (x : Option Float64) (s : ℕ × Assoc ℕ)
    → bytes_eq id k ≡ false
    → lookup k (apply_request out id x s).1 ≡ lookup k s.1
apply_request-other out id k none s h = refl
apply_request-other out id k (some x) s h = ground (arith, lookup-insert id k (to_uint32 out x) s.1)

apply_configs-other :
    (out : Float64 → ℕ) (id k : Bytes) (cs : List DeviceCommand) (s : ℕ × Assoc ℕ)
    → bytes_eq id k ≡ false
    → lookup k (apply_configs out id cs s).1 ≡ lookup k s.1
unfolding apply_configs
apply_configs-other out id k [] s h = refl
apply_configs-other out id k (c ∷ cs) s h =
    let x = requested_sleep c.action c.params in
    apply_configs-other out id k cs (apply_request out id x s) h
    ∙ apply_request-other out id k x s h

pub Untouched-refl : (k : Bytes) (st : ApiState InMemoryRepository) → Untouched k st st
Untouched-refl k st = record {
  device = refl;
  telemetries = refl;
  events = refl;
  commands = refl;
  sleep = refl;
}

-- The settings and the parts of the repository that a message of one device leaves to the others.
pub save_telemetry-Untouched :
    (now : ℕ) (p : TelemetryPayload) (k : Bytes) (st : ApiState InMemoryRepository)
    → IsValid st.outside.store
    → bytes_eq p.header.device_id k ≡ false
    → Untouched k st (record st {
      outside = record (st.outside) { store = (Memory.save_telemetry now p st.outside.store).0 };
    })
save_telemetry-Untouched now p k st v other =
    let id = p.header.device_id in
    let r = st.outside.store in
    let r' = (find_or_create id r).1 in
    let (same_t, same_e, same_c) = find_or_create-others id r in
    record {
      device = ground (arith, device_of-save_telemetry r now p v k, other);
      telemetries =
          unfold Memory.save_telemetry in
          get_slice-insert_ne id k (get_slice id r'.telemetries ++ (p ∷ [])) r'.telemetries other
          ∙ ap (get_slice k) same_t;
      events = unfold Memory.save_telemetry in ap (get_slice k) same_e;
      commands = unfold Memory.save_telemetry in ap (get_slice k) same_c;
      sleep = refl;
    }

dispatch_all-other :
    (th : RuleThresholds) (url : Bytes) (now : ℕ) (header : MessageHeader) (k : Bytes)
    (as' : List AlertEvent) (o : Outside InMemoryRepository)
    → bytes_eq header.device_id k ≡ false
    → get_slice k (dispatch_all (memory_engine th url) now header as' o).store.events
      ≡ get_slice k o.store.events
unfolding dispatch_all dispatch record_event event_of Memory.save_event
dispatch_all-other th url now header k [] o other = refl
dispatch_all-other th url now header k (a ∷ as') o other =
    dispatch_all-other th url now header k as' (dispatch (memory_engine th url) now header a o)
      other
    ∙ get_slice-insert_ne header.device_id k
        (get_slice header.device_id o.store.events ++ (event_of header a ∷ [])) o.store.events other

module _ (json : Json) (out : Float64 → ℕ) (ota : Option OtaInfo) (th : RuleThresholds)
    (url : Bytes) (now : ℕ) (k : Bytes) where
  pub respond-Untouched :
      (p : TelemetryPayload) (st : ApiState InMemoryRepository)
      → bytes_eq p.header.device_id k ≡ false
      → Untouched k st (respond json out (memory_handler ota th url) now p st).0
  unfolding respond evaluate_and_alert Memory.get_pending_commands
  respond-Untouched p st other =
      let alerts = alerts_of th now p in
      let e = dispatch_all-elsewhere th url now p.header alerts st.outside in
      record {
        device = unfold device_of in ground (arith, e.cells, e.devices);
        telemetries = ap (get_slice k) e.telemetries;
        events = dispatch_all-other th url now p.header k alerts st.outside other;
        commands = ap (get_slice k) e.commands;
        sleep = apply_configs-other out p.header.device_id k _ _ other;
      }

pub Untouched-trans :
    (k : Bytes) (a b c : ApiState InMemoryRepository)
    → Untouched k a b
    → Untouched k b c
    → Untouched k a c
Untouched-trans k a b c x y = record {
  device = y.device ∙ x.device;
  telemetries = y.telemetries ∙ x.telemetries;
  events = y.events ∙ x.events;
  commands = y.commands ∙ x.commands;
  sleep = y.sleep ∙ x.sleep;
}
