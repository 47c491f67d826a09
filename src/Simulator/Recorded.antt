-- ===== src/Simulator/Recorded.antt =====
-- What the server of server/main.go keeps of a device of tools/simulator/main.go over its rounds.
use mathlib.Core.Option
use iot_server.Base.{
  ◌≡◌, refl, sym, ap, ◌∙◌, subst, Option, some, List, [], ◌∷◌, ◌++◌, arith, Option-cases, inl, inr,
}
use iot_server.Base.Text.{Bytes, utf8, bytes_eq}
use iot_server.Models.{TelemetryPayload, DeviceCommand}
use iot_server.Base.Assoc.{lookup}
use iot_server.Base.Cells.{get_elem?}
use iot_server.Storage.Memory
use iot_server.Storage.Memory.{InMemoryRepository, device_of, deref, touch}
use iot_server.Storage.Memory.Heap.{IsValid}
use iot_server.Alerting.Rules.{alerts_of}
use iot_server.Alerting.Engine.{evaluate_and_alert}
use iot_server.Alerting.Records.{dispatch_all-elsewhere}
use iot_server.Api.Auth.{mtls_auth_middleware}
use iot_server.Api.Answers.{decode_body}
use iot_server.Api.Requests.{contains, has_prefix}
use iot_server.Api.Handlers.{respond, accept, handle_telemetry, handle_ack_command}
use iot_server.Api.Effects.{memory_handler}
use iot_server.Api.Sleep.{accept-respond}
use iot_server.Api.Routes.{edge_route, handle_route, guarded, serve_edge}
use iot_server.Simulator.Environment.{Surroundings, HttpResponse}
use iot_server.Simulator.Device.{SimulatedDevice, execute_commands, execute_command}
use iot_server.Simulator.Link.{Server, Setup, Link, posted, serve}
use iot_server.Api.Requests.{Reply}
use iot_server.Simulator.Delivered.{ack_of, execute_action-keeps}

-- The records of the devices are the same.
pub record SameDevices (r s : InMemoryRepository) : Type 0 where
  pub cells : s.cells ≡ r.cells
  pub devices : s.devices ≡ r.devices

same_self : (r : InMemoryRepository) → SameDevices r r
same_self r = record { cells = refl; devices = refl }

pub same_trans : (r s t : InMemoryRepository) → SameDevices r s → SameDevices s t → SameDevices r t
same_trans r s t a b = record { cells = b.cells ∙ a.cells; devices = b.devices ∙ a.devices }

pub device_of-same :
    (r s : InMemoryRepository) (k : Bytes) → SameDevices r s → device_of k s ≡ device_of k r
unfolding device_of
device_of-same r s k h = ground (arith, h.cells, h.devices)

pub same-IsValid : (r s : InMemoryRepository) → SameDevices r s → IsValid r → IsValid s
same-IsValid r s h v = record {
  owned = λ k at e.
      let o = v.owned k at (ap (lookup k) (sym h.devices) ∙ e) in
      record { dev = o.dev; stored = ap (λ c. get_elem? c at) h.cells ∙ o.stored; named = o.named };
}

module _ (u : Setup) where
  respond-devices :
      (p : TelemetryPayload) (w : Server)
      → SameDevices w.outside.store
          (respond u.json u.out
            (memory_handler u.ota u.thresholds u.webhook_url)
            u.now
            p
            w).0.outside.store
  unfolding respond evaluate_and_alert Memory.get_pending_commands
  respond-devices p w =
      let e =
        dispatch_all-elsewhere u.thresholds u.webhook_url u.now p.header
          (alerts_of u.thresholds u.now p) w.outside in
      record { cells = e.cells; devices = e.devices }

  pub serve-telemetry-devices :
      (p : TelemetryPayload) (body : Bytes) (w : Server)
      → u.json.unmarshal_telemetry body ≡ some p
      → SameDevices
          (Memory.save_telemetry u.now p w.outside.store).0
          (serve u p.header.device_id (posted (utf8 "/api/v1/telemetry") body) w).0.outside.store
  unfolding serve serve_edge edge_route guarded mtls_auth_middleware handle_route handle_telemetry
      decode_body contains has_prefix bytes_eq
  serve-telemetry-devices p body w e =
      let h = memory_handler u.ota u.thresholds u.webhook_url in
      let w' = record w {
        outside = record (w.outside) { store = (Memory.save_telemetry u.now p w.outside.store).0 };
      } in
      let arrives : serve u p.header.device_id (posted (utf8 "/api/v1/telemetry") body) w
          ≡ accept u.json u.out h u.now p.header.device_id p w =
        rw e refl in
      let answered =
        arrives ∙ accept-respond u.json u.out u.ota u.thresholds u.webhook_url u.now p w in
      subst
        (λ (z : Server × Reply).
          SameDevices (Memory.save_telemetry u.now p w.outside.store).0 z.0.outside.store)
        (sym answered) (respond-devices p w')

  serve-ack-devices :
      (name body : Bytes) (w : Server)
      → SameDevices w.outside.store
          (serve u name (posted (utf8 "/api/v1/commands/ack") body) w).0.outside.store
  unfolding serve serve_edge edge_route guarded mtls_auth_middleware handle_route handle_ack_command
      Memory.ack_command bytes_eq has_prefix Option.bind
  serve-ack-devices name body w = elim (Option-cases (u.json.decode_ack body)) [
    | inl e ↦ rw e (same_self w.outside.store)
    | inr (a, e) ↦ rw e (record { cells = refl; devices = refl })
  ]

module _ (u : Setup) (s : Surroundings Server) (render : Reply → HttpResponse) (base id : Bytes)
    (link : Link u s render base id) where
  -- The commands leave the records of the devices alone, and the device where it is.
  pub execute_commands-devices :
      (cs : List DeviceCommand) (d : SimulatedDevice) (w : Server)
      → d.server_url ≡ base
      → let x = execute_commands s cs d w in
        SameDevices w.outside.store x.1.outside.store
        × (x.0.device_id ≡ d.device_id)
        × (x.0.server_url ≡ d.server_url)
  unfolding execute_commands execute_command
  execute_commands-devices [] d w based = (same_self w.outside.store, refl, refl)
  execute_commands-devices (c ∷ cs) d w based =
      let path = utf8 "/api/v1/commands/ack" in
      let body = s.codec.marshal_ack (ack_of d c) in
      let (d', w') = execute_command s c d w in
      let (same_id, same_url, same_version) = execute_action-keeps c.action d in
      let arrives : w' ≡ (serve u id (posted path body) w).0 =
        ap (λ b. (s.client.post (b ++ path) (utf8 "application/json") body w).0) based
        ∙ ap (λ (z : Server × Option HttpResponse). z.0) (link.posts path body w) in
      let acked : SameDevices w.outside.store w'.outside.store =
        subst (λ (z : Server). SameDevices w.outside.store z.outside.store) (sym arrives)
          (serve-ack-devices u id body w) in
      let (rest, rest_id, rest_url) = execute_commands-devices cs d' w' (same_url ∙ based) in
      (same_trans _ _ _ acked rest, rest_id ∙ same_id, rest_url ∙ same_url)
