-- ===== src/Tests/E2e.antt =====
-- The end-to-end test on the servers, with two devices of the new version.
use iot_server.Base.{
  ℕ, zero, suc, ◌≡◌, ◌↔◌, refl, sym, ap, ◌∙◌, true, Option, none, some, List, [], ◌∷◌, ◌++◌, length,
  map, drop, if◌then◌else◌, append_assoc, append-nil,
}
use iot_server.Base.Text.{Bytes, utf8, bytes_eq}
use iot_server.Models as M
use iot_server.Models.{TelemetryPayload}
use iot_server.Storage.Memory.{InMemoryRepository, memory_repository}
use iot_server.Storage.Memory.History.{Call, run}
use iot_server.Api.Requests.{Reply, devices, history, failure}
use iot_server.Api.Handlers.{ApiState, new_api_handler}
use iot_server.Simulator.Environment.{HttpResponse}
use iot_server.Simulator.Link.{posted, fetched}
use iot_server.E2e.Runner.{DeviceState, Surroundings, run_e2e, verify}
use iot_server.E2e.Passes.{IsPassed, run_e2e-passes_iff}
use iot_server.E2e.Servers.{
  Servers, edge, web, history_request, Link, with_command, IsComplete, ten_seconds,
}
use iot_server.E2e.OnServer.{verify-passes_iff}
use iot_server.Tests.Samples.{reading, other_reading}
use iot_server.Tests.Server.{fixed_json, no_range}

abbrev upgraded : TelemetryPayload → TelemetryPayload
upgraded t = record t { header = record (t.header) { firmware_version = utf8 "1.1.0" } }

abbrev state : ApiState InMemoryRepository
state = record {
  outside = record {
    store = run (
        Call.save_telemetry 40 (upgraded reading)
        ∷ Call.save_telemetry 30 (upgraded reading)
        ∷ Call.save_telemetry 20 (upgraded other_reading)
        ∷ Call.save_telemetry 10 reading
        ∷ []);
    outbox = [];
  };
  device_sleep_configs = [];
}

abbrev servers : Servers InMemoryRepository
servers = record {
  json = record fixed_json {
    decode_command = λ body. some (record {
      device_id = utf8 "DEV-ESP32-001";
      action = utf8 "CONFIG_UPDATE";
      params = ten_seconds;
    });
  };
  out = no_range;
  handler = new_api_handler [] memory_repository [];
  now = 60;
  nanos = 777;
  fuel = 200;
  require_mtls = true;
}

-- A list of devices is sent as their versions, with the bytes one higher and a zero behind each.
abbrev row : M.DeviceState → DeviceState
row d = record {
  device_id = [];
  firmware_version = d.firmware_version;
  last_seen_at = [];
  last_seq_no = 0;
  status = [];
  total_telemetries = 0;
}

abbrev version_row : Bytes → DeviceState
version_row v = record {
  device_id = [];
  firmware_version = v;
  last_seen_at = [];
  last_seq_no = 0;
  status = [];
  total_telemetries = 0;
}

encode : List M.DeviceState → Bytes
encode [] = []
encode (d ∷ ds) = map suc d.firmware_version ++ (0 ∷ encode ds)

decode : Bytes → Bytes → List DeviceState
decode read [] = []
decode read (zero ∷ bytes) = version_row read ∷ decode [] bytes
decode read (suc b ∷ bytes) = decode (read ++ (b ∷ [])) bytes

decode-version :
    (read v rest : Bytes)
    → decode read (map suc v ++ (0 ∷ rest)) ≡ version_row (read ++ v) ∷ decode [] rest
unfolding decode
decode-version read [] rest = ap (λ z. version_row z ∷ decode [] rest) (sym (append-nil read))
decode-version read (b ∷ v) rest =
    decode-version (read ++ (b ∷ [])) v rest
    ∙ ap (λ z. version_row z ∷ decode [] rest) (append_assoc read (b ∷ []) v)

decode-encode : (ds : List M.DeviceState) → decode [] (encode ds) ≡ map row ds
unfolding decode encode
decode-encode [] = refl
decode-encode (d ∷ ds) =
    decode-version [] d.firmware_version (encode ds) ∙ ap (λ z. row d ∷ z) (decode-encode ds)

-- A history is sent as a one for each message and one more.
render : Reply → HttpResponse
render (devices ds) = record { status_code = 200; body = encode ds; complete = true }
render (history ms) = record { status_code = 200; body = 1 ∷ map (λ m. 1) ms; complete = true }
render (failure code status) = record { status_code = code; body = []; complete = true }
render _ = record { status_code = 200; body = []; complete = true }

read_history : Bytes → Option (List Bytes)
read_history [] = none
read_history (b ∷ bytes) = some (map (λ x. x ∷ []) bytes)

abbrev answered :
    ApiState InMemoryRepository × Reply → ApiState InMemoryRepository × Option HttpResponse
answered (w, reply) = (w, some (render reply))

abbrev surroundings : Surroundings (ApiState InMemoryRepository)
surroundings = record {
  reads_file = λ path w. true;
  loads_key_pair = λ cert key w. true;
  start_server = λ w. (w, true);
  stop_server = λ w. w;
  sleep = λ ms w. w;
  mtls_client = record {
    get = λ url w.
        if bytes_eq url
          (utf8 "https://127.0.0.1:8443/api/v1/telemetry/history?device_id=DEV-ESP32-001")
        then answered (edge servers (history_request servers) w)
        else answered (edge servers (fetched (drop 22 url)) w);
    post = λ url kind body w. answered (edge servers (posted (drop 22 url) body) w);
  };
  http_client = record {
    get = λ url w. answered (web servers (fetched (drop 21 url)) w);
    post = λ url kind body w. answered (web servers (posted (drop 21 url) body) w);
  };
  run_all = λ arguments w. (w, []);
  unmarshal_devices = λ body. some (decode [] body);
  unmarshal_history = read_history;
  marshal_command = λ c. [];
}

read_history-map :
    (ms : List TelemetryPayload)
    → length (map (λ (x : ℕ). x ∷ []) (map (λ (m : TelemetryPayload). 1) ms)) ≡ length ms
read_history-map [] = refl
read_history-map (m ∷ ms) = ap suc (read_history-map ms)

linked : Link servers surroundings render row
unfolding render read_history bytes_eq
linked = record {
  gets_devices = λ w. refl;
  gets_history = λ w. refl;
  gets_dashboard = λ w. refl;
  posts_command = λ w. refl;
  reads_devices = λ ds. ap some (decode-encode ds);
  keeps_version = λ d. refl;
  reads_history = λ ms. (map (λ x. x ∷ []) (map (λ m. 1) ms), refl, read_history-map ms);
  reads_failure = λ code status. refl;
  reads_command = refl;
  fails = λ code status. refl;
  queues = λ id device action. refl;
}

run_e2e-passes_iff_example : ((run_e2e surroundings state).1 ≡ none) ↔ IsPassed surroundings state
run_e2e-passes_iff_example = run_e2e-passes_iff surroundings state

verify-passes_iff_example : ((verify surroundings state).1 ≡ none) ↔ (
    IsComplete servers render state × ((verify surroundings state).0 ≡ with_command servers state))
verify-passes_iff_example = verify-passes_iff servers surroundings render row linked state
