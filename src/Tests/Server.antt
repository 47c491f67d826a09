-- ===== src/Tests/Server.antt =====
-- The theorems on the server's state and its handlers at concrete requests.
use iot_server.Base.{
  ℕ, ◌≡◌, refl, true, none, some, List, [], ◌∷◌, ◌++◌, map, length, min, arith, ◌&&◌, ltb,
}
use iot_server.Base.Text.{Bytes, utf8, bytes_eq}
use iot_server.Base.Int.{pos, ltb_ℤ}
use iot_server.Base.Float.{Float64, of_nat, ltb_float, float32_from_bits, zero_float}
use iot_server.Models.{TelemetryPayload, DeviceState}
use iot_server.Serializer.Telemetry.{root_bytes}
use iot_server.Storage.Interface.{ok}
use iot_server.Storage.Memory.{
  InMemoryRepository, fresh_device, touch, get_slice, get_telemetry_history,
}
use iot_server.Storage.Memory.History.{Holds, run, saved, run-Holds, run-IsValid}
use iot_server.Storage.Memory.Reports.{get_telemetry_history-latest}
use iot_server.Alerting.Rules.{default_thresholds, alerts_of}
use iot_server.Alerting.Verdicts.{raises, alerts_of-raises}
use iot_server.Alerting.Engine.{Outside, evaluate_and_alert}
use iot_server.Alerting.Records.{
  expected_event, memory_engine, SameElsewhere, evaluate_and_alert-records,
}
use iot_server.Api.Requests.{
  Request, CommandRequest, Json, accepted, to_uint32, lookup_entry, sleep_param,
}
use iot_server.Api.Handlers.{ApiState, accept, handle_queue_command}
use iot_server.Api.Security.{serve_telemetry, serve_telemetry-Untouched}
use iot_server.Api.Effects.{Untouched, memory_handler}
use iot_server.Api.Sleep.{answer, command_of, accept-handle_queue_command}
use iot_server.Tests.Samples.{reading, other_reading, sensor, sleep_command, calls}

abbrev pub device : Bytes
device = utf8 "DEV-ESP32-001"

run-Holds_example : Holds (run calls) device calls
run-Holds_example = run-Holds calls device

abbrev last_state : DeviceState
last_state = touch 30 reading (touch 10 reading (fresh_device device))

get_telemetry_history-latest_example :
    (older latest : List TelemetryPayload) × (get_telemetry_history device (pos 1) (run calls)
      ≡ ok latest)
    × (older ++ latest ≡ map (λ (m : ℕ × TelemetryPayload). m.1) (saved device calls))
    × (length latest ≡ min 1 (length (saved device calls)))
get_telemetry_history-latest_example = get_telemetry_history-latest calls device 1 (omega arith)

abbrev pub webhook : Bytes
webhook = utf8 "http://127.0.0.1:9000/hook"

abbrev pub outside : Outside InMemoryRepository
outside = record { store = run calls; outbox = [] }

evaluate_and_alert-records_example :
    let after =
      (evaluate_and_alert (memory_engine default_thresholds webhook) 50 reading outside).1 in
    let alerts = alerts_of default_thresholds 50 reading in
    (get_slice device after.store.events
      ≡ get_slice device (run calls).events ++ map (expected_event reading.header) alerts)
    × (after.outbox ≡ [] ++ alerts)
    × SameElsewhere (run calls) after.store
evaluate_and_alert-records_example =
    evaluate_and_alert-records default_thresholds webhook 50 reading outside
      (unfold bytes_eq in refl)

alerts_of-raises_example :
    (raises (utf8 "HIGH_TEMPERATURE") (alerts_of default_thresholds 50 reading)
      ≡ ltb_float (of_nat 35) (float32_from_bits 0x42120000))
    × (raises (utf8 "LOW_TEMPERATURE") (alerts_of default_thresholds 50 reading)
        ≡ ltb_float (float32_from_bits 0x42120000) zero_float)
    × (raises (utf8 "LOW_BATTERY") (alerts_of default_thresholds 50 reading)
        ≡ (ltb 0 15 && ltb 15 20))
    × (raises (utf8 "WEAK_SIGNAL") (alerts_of default_thresholds 50 reading)
        ≡ ltb_ℤ reading.metrics.rssi default_thresholds.weak_rssi_threshold)
alerts_of-raises_example = alerts_of-raises default_thresholds 50 reading

-- A decoder of JSON that gives fixed requests.
abbrev pub command_request : CommandRequest
command_request = record {
  device_id = device;
  action = sleep_command.action;
  params = sleep_command.params;
}

abbrev pub fixed_json : Json
fixed_json = record {
  unmarshal_telemetry = λ body. some other_reading;
  unmarshal_event = λ body. none;
  decode_command = λ body. some command_request;
  decode_ack = λ body. none;
}

abbrev pub state : ApiState InMemoryRepository
state = record { outside = outside; device_sleep_configs = [] }

-- A message from the device, in the Protocol Buffers format.
abbrev pub telemetry_request : Request
telemetry_request = record {
  method = utf8 "POST";
  auth_device_id = [];
  content_type = utf8 "application/x-protobuf";
  body = some (root_bytes sensor);
}

abbrev pub no_range : Float64 → ℕ
no_range x = 0

serve_telemetry-Untouched_example :
    Untouched
      (utf8 "DEV-2")
      state
      (serve_telemetry fixed_json no_range
        (memory_handler none default_thresholds webhook)
        60
        200
        true
        (some device)
        telemetry_request
        state).0
serve_telemetry-Untouched_example =
    serve_telemetry-Untouched fixed_json no_range none default_thresholds webhook 60 (utf8 "DEV-2")
      200 true device telemetry_request state (run-IsValid calls) (unfold bytes_eq in refl)
      (unfold bytes_eq in refl)

accept-handle_queue_command_example :
    let h = memory_handler none default_thresholds webhook in
    let state' = (handle_queue_command fixed_json no_range h 60 777 telemetry_request state).0 in
    let cs = get_slice device (run calls).commands ++ (command_of 777 command_request ∷ []) in
    (accept fixed_json no_range h 60 device reading state').1
    ≡ accepted (answer 60 none reading cs (to_uint32 no_range (of_nat 120)))
unfolding bytes_eq lookup_entry sleep_param ltb_float
accept-handle_queue_command_example =
    accept-handle_queue_command fixed_json no_range none default_thresholds webhook 60 reading 777
      telemetry_request (root_bytes sensor) command_request (of_nat 120) state refl refl refl refl
      refl refl
