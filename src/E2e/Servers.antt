-- ===== src/E2e/Servers.antt =====
-- The servers of server/main.go, as the checks of tools/test_runner/run_e2e.go reach them.
use iot_server.Base.{ℕ, ◌≤◌, ◌≡◌, refl, Bool, Option, none, some, List, ◌++◌, length, map, All}
use iot_server.Base.Text.{Bytes, utf8, bytes_eq, digits}
use iot_server.Base.Int.{pos}
use iot_server.Base.Float.{Float64, of_nat}
use iot_server.Base.Assoc.{insert}
use iot_server.Models.{TelemetryPayload}
use iot_server.Models as M
use iot_server.Storage.Interface.{StorageError, ok}
use iot_server.Api.Auth.{mtls_auth_middleware}
use iot_server.Api.Requests.{
  Json, Reply, devices, history, queued, failure, static_file, has_prefix,
}
use iot_server.Api.Handlers.{ApiState, ApiHandler, handle_list_devices, handle_telemetry_history}
use iot_server.Api.Routes.{
  Incoming, serve_edge, serve_web, edge_route, web_route, handle_route, guarded,
}
use iot_server.Simulator.Environment.{HttpResponse}
use iot_server.Simulator.Link.{posted, fetched}
use iot_server.E2e.Runner.{Surroundings, DeviceState, command_payload}
use iot_server.E2e.Replies.{command, IsLatest}

-- The parameters of the command, as the server reads them: an interval of 10 seconds.
abbrev pub ten_seconds : Option M.Entries
ten_seconds = some (M.entry (utf8 "sleep_interval_sec") (M.float_value (of_nat 10)) M.no_entries)

-- The servers: their parameters and their handlers' parts.
pub record Servers (S : Type 0) : Type 0 where
  pub json : Json
  pub out : Float64 → ℕ
  pub handler : ApiHandler S
  pub now : ℕ
  pub nanos : ℕ
  pub fuel : ℕ
  pub require_mtls : Bool

module _ {S : Type 0} (u : Servers S) where
  abbrev pub edge : Incoming → ApiState S → ApiState S × Reply
  edge =
      serve_edge u.json u.out u.handler u.now u.nanos u.fuel u.require_mtls
        (some (utf8 "DEV-ESP32-001"))

  abbrev pub web : Incoming → ApiState S → ApiState S × Reply
  web = serve_web u.json u.out u.handler u.now u.nanos u.fuel

  abbrev pub history_request : Incoming
  history_request = record (fetched (utf8 "/api/v1/telemetry/history")) {
    query_device_id = utf8 "DEV-ESP32-001";
  }

  -- The requests of the checks get to the servers and their answers come back: `render` is what an
  -- answer is in HTTP, and `row` what a device is in the list that is read.
  pub record Link (s : Surroundings (ApiState S)) (render : Reply → HttpResponse)
      (row : M.DeviceState → DeviceState) : Type 0 where
    pub gets_devices :
        (w : ApiState S)
        → s.mtls_client.get (utf8 "https://127.0.0.1:8443/api/v1/devices") w ≡ (
          (edge (fetched (utf8 "/api/v1/devices")) w).0,
          some (render (edge (fetched (utf8 "/api/v1/devices")) w).1),
        )
    pub gets_history :
        (w : ApiState S)
        → s.mtls_client.get
            (utf8 "https://127.0.0.1:8443/api/v1/telemetry/history?device_id=DEV-ESP32-001")
            w
          ≡ ((edge history_request w).0, some (render (edge history_request w).1))
    pub gets_dashboard :
        (w : ApiState S)
        → s.http_client.get (utf8 "http://127.0.0.1:8080/") w
          ≡ ((web (fetched (utf8 "/")) w).0, some (render (web (fetched (utf8 "/")) w).1))
    pub posts_command :
        (w : ApiState S)
        → let r = posted (utf8 "/api/v1/commands") (s.marshal_command command_payload) in
          s.http_client.post
            (utf8 "http://127.0.0.1:8080/api/v1/commands")
            (utf8 "application/json")
            (s.marshal_command command_payload)
            w
          ≡ ((web r w).0, some (render (web r w).1))
    pub reads_devices :
        (ds : List M.DeviceState)
        → s.unmarshal_devices (render (devices ds)).body ≡ some (map row ds)
    pub keeps_version : (d : M.DeviceState) → (row d).firmware_version ≡ d.firmware_version
    pub reads_history :
        (ms : List TelemetryPayload)
        → (rs : List Bytes) × (s.unmarshal_history (render (history ms)).body ≡ some rs)
          × (length rs ≡ length ms)
    pub reads_failure :
        (code : ℕ) (status : Bytes) → s.unmarshal_history (render (failure code status)).body ≡ none
    pub reads_command :
        u.json.decode_command (s.marshal_command command_payload) ≡ some (command ten_seconds)
    pub fails : (code : ℕ) (status : Bytes) → (render (failure code status)).status_code ≡ code
    pub queues :
        (id device_id action : Bytes) → (render (queued id device_id action)).status_code ≡ 200

  pub edge-devices :
      (w : ApiState S)
      → edge (fetched (utf8 "/api/v1/devices")) w
        ≡ (w, devices (u.handler.repo.list_devices w.outside.store))
  unfolding serve_edge edge_route guarded mtls_auth_middleware handle_route handle_list_devices
      bytes_eq has_prefix
  edge-devices w = refl

  pub edge-history :
      (w : ApiState S)
      → edge history_request w
        ≡ (w, handle_telemetry_history u.json u.out u.handler u.now (utf8 "DEV-ESP32-001") w)
  unfolding serve_edge edge_route guarded mtls_auth_middleware handle_route bytes_eq has_prefix
  edge-history w = refl

  pub web-dashboard : (w : ApiState S) → web (fetched (utf8 "/")) w ≡ (w, static_file (utf8 "/"))
  unfolding serve_web web_route bytes_eq
  web-dashboard w = refl

  -- The server behind the queueing of the command.
  abbrev pub queued_command : M.DeviceCommand
  queued_command = record {
    command_id = utf8 "cmd-" ++ digits u.nanos;
    action = utf8 "CONFIG_UPDATE";
    params = ten_seconds;
  }

  abbrev pub queueing : S → S × Option StorageError
  queueing store = u.handler.repo.queue_command u.now (utf8 "DEV-ESP32-001") queued_command store

  abbrev pub with_command : ApiState S → ApiState S
  with_command w = record {
    outside = record (w.outside) { store = (queueing w.outside.store).0 };
    device_sleep_configs = insert (utf8 "DEV-ESP32-001") 10 w.device_sleep_configs;
  }

  -- What the checks want of the state of the server.
  pub record IsComplete (render : Reply → HttpResponse) (w : ApiState S) : Type 0 where
    pub latest : All IsLatest (u.handler.repo.list_devices w.outside.store)
    pub both : 2 ≤ length (u.handler.repo.list_devices w.outside.store)
    pub messages :
        (ms : List TelemetryPayload) × (u.handler.repo.get_telemetry_history
            (utf8 "DEV-ESP32-001")
            (pos 50)
            w.outside.store
          ≡ ok ms)
        × (3 ≤ length ms)
    pub page : (render (static_file (utf8 "/"))).status_code ≡ 200
    pub queues : (queueing w.outside.store).1 ≡ none
