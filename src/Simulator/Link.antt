-- ===== src/Simulator/Link.antt =====
-- The device of tools/simulator/main.go on the edge server of server/main.go: the requests that it
-- makes, as the server sees them. The network is reliable and the server's clock stands still.
use mathlib.Core.Option
use iot_server.Base.{ℕ, ◌≡◌, refl, ap, ◌∙◌, Bool, true, Option, some, List, [], ◌++◌}
use iot_server.Base.Text.{Bytes, utf8, bytes_eq}
use iot_server.Base.Float.{Float64}
use iot_server.Models.{TelemetryPayload, ApiResponse, OtaInfo, DeviceCommand}
use iot_server.Storage.Memory
use iot_server.Storage.Memory.{InMemoryRepository, get_slice}
use iot_server.Alerting.Rules.{RuleThresholds, alerts_of}
use iot_server.Alerting.Engine.{evaluate_and_alert}
use iot_server.Alerting.Records.{dispatch_all-elsewhere}
use iot_server.Api.Auth.{mtls_auth_middleware}
use iot_server.Api.Answers.{decode_body, apply_configs, configured_sleep}
use iot_server.Api.Requests.{Json, Reply, accepted, contains, has_prefix, firmware}
use iot_server.Api.Handlers.{ApiState, respond, accept, handle_telemetry, handle_ack_command}
use iot_server.Api.Effects.{memory_handler}
use iot_server.Api.Sleep.{answer, accept-respond, save_telemetry-commands, get_slice-insert_self}
use iot_server.Api.Routes.{Incoming, edge_route, handle_route, guarded, serve_edge}
use iot_server.Simulator.Environment.{HttpResponse, AckPayload, Surroundings}

abbrev pub Server : Type 0
Server = ApiState InMemoryRepository

-- What the device posts and what it gets.
abbrev pub posted : Bytes → Bytes → Incoming
posted path body = record {
  path = path;
  query_device_id = [];
  request = record {
    method = utf8 "POST";
    auth_device_id = [];
    content_type = utf8 "application/json";
    body = some body;
  };
}

abbrev pub fetched : Bytes → Incoming
fetched path = record {
  path = path;
  query_device_id = [];
  request = record { method = utf8 "GET"; auth_device_id = []; content_type = []; body = some [] };
}

-- The server: its parameters and its handlers' parts.
pub record Setup : Type 0 where
  pub json : Json
  pub out : Float64 → ℕ
  pub ota : Option OtaInfo
  pub thresholds : RuleThresholds
  pub webhook_url : Bytes
  pub now : ℕ
  pub nanos : ℕ
  pub fuel : ℕ
  pub require_mtls : Bool

-- What the server does with a request of the client whose certificate has a common name.
unfoldable pub serve : Setup → Bytes → Incoming → Server → Server × Reply
serve u name r w =
    serve_edge u.json u.out (memory_handler u.ota u.thresholds u.webhook_url) u.now u.nanos u.fuel
      u.require_mtls (some name) r w

-- Every request to the server below `base` gets there, with the certificate of `name`, and its
-- answer comes back. `render` is what an answer is in HTTP; only an accepted message and a file
-- need to have their status and their data.
pub record Link (u : Setup) (s : Surroundings Server) (render : Reply → HttpResponse)
    (base name : Bytes) : Type 0 where
  pub posts :
      (path body : Bytes) (w : Server)
      → s.client.post (base ++ path) (utf8 "application/json") body w ≡ (
        (serve u name (posted path body) w).0,
        some (render (serve u name (posted path body) w).1),
      )
  pub gets :
      (path : Bytes) (w : Server)
      → s.client.get (base ++ path) w
        ≡ ((serve u name (fetched path) w).0, some (render (serve u name (fetched path) w).1))
  pub accepts : (r : ApiResponse) → (render (accepted r)).status_code ≡ 200
  pub sends :
      (file image : Bytes)
      → render (firmware file image) ≡ record { status_code = 200; body = image; complete = true }

abbrev pub waiting_for : Bytes → Server → List DeviceCommand
waiting_for device_id w = get_slice device_id w.outside.store.commands

module _ (u : Setup) where
  -- The server once a message is stored, and once it is answered.
  abbrev stored : TelemetryPayload → Server → Server
  stored p w = record w {
    outside = record (w.outside) { store = (Memory.save_telemetry u.now p w.outside.store).0 };
  }

  respond-commands :
      (p : TelemetryPayload) (w : Server)
      → let x = respond u.json u.out (memory_handler u.ota u.thresholds u.webhook_url) u.now p w in
        (x.0.outside.store.commands ≡ w.outside.store.commands)
        × ((sleep : ℕ) × (x.1
              ≡ accepted (answer u.now u.ota p (waiting_for p.header.device_id w) sleep)))
  unfolding respond evaluate_and_alert Memory.get_pending_commands
  respond-commands p w =
      let e =
        dispatch_all-elsewhere u.thresholds u.webhook_url u.now p.header
          (alerts_of u.thresholds u.now p) w.outside in
      let id = p.header.device_id in
      let x = respond u.json u.out (memory_handler u.ota u.thresholds u.webhook_url) u.now p w in
      let sleep : ℕ =
        (apply_configs u.out id (waiting_for id x.0)
          (configured_sleep id w.device_sleep_configs, w.device_sleep_configs)).0 in
      (
        e.commands,
        (sleep, ap (λ cs. accepted (answer u.now u.ota p (get_slice id cs) sleep)) e.commands),
      )

  -- A message of the device is answered with the commands that wait for it, which stay.
  pub serve-telemetry :
      (p : TelemetryPayload) (body : Bytes) (w : Server)
      → u.json.unmarshal_telemetry body ≡ some p
      → let x = serve u p.header.device_id (posted (utf8 "/api/v1/telemetry") body) w in
        (x.0.outside.store.commands ≡ w.outside.store.commands)
        × ((sleep : ℕ) × (x.1
              ≡ accepted (answer u.now u.ota p (waiting_for p.header.device_id w) sleep)))
  unfolding serve serve_edge edge_route guarded mtls_auth_middleware handle_route handle_telemetry
      decode_body contains has_prefix bytes_eq
  serve-telemetry p body w e =
      let h = memory_handler u.ota u.thresholds u.webhook_url in
      let x = respond u.json u.out h u.now p (stored p w) in
      let arrives : serve u p.header.device_id (posted (utf8 "/api/v1/telemetry") body) w
          ≡ accept u.json u.out h u.now p.header.device_id p w =
        rw e refl in
      let answered =
        arrives ∙ accept-respond u.json u.out u.ota u.thresholds u.webhook_url u.now p w in
      let (kept, (sleep, told)) = respond-commands p (stored p w) in
      let waiting =
        save_telemetry-commands u.json u.out u.ota u.thresholds u.webhook_url u.now p
          w.outside.store in
      (
        ap (λ (z : Server × Reply). z.0.outside.store.commands) answered ∙ kept ∙ waiting,
        (
          sleep,
          ap (λ (z : Server × Reply). z.1) answered
              ∙ told
              ∙ ap (λ cs. accepted (answer u.now u.ota p (get_slice p.header.device_id cs) sleep))
                  waiting,
        ),
      )

  -- An acknowledgement takes the command away.
  pub serve-ack :
      (name body : Bytes) (a : AckPayload) (w : Server)
      → u.json.decode_ack body
        ≡ some (record { device_id = a.device_id; command_id = a.command_id; result = a.result })
      → waiting_for a.device_id (serve u name (posted (utf8 "/api/v1/commands/ack") body) w).0
        ≡ Memory.without_command a.command_id (waiting_for a.device_id w)
  unfolding serve serve_edge edge_route guarded mtls_auth_middleware handle_route handle_ack_command
      Memory.ack_command bytes_eq has_prefix Option.bind
  serve-ack name body a w e = rw e (
      get_slice-insert_self a.device_id
        (Memory.without_command a.command_id (waiting_for a.device_id w)) w.outside.store.commands)
