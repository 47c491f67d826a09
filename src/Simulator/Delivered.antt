-- ===== src/Simulator/Delivered.antt =====
-- What the device of tools/simulator/main.go does about the commands and the update that the server
-- of server/main.go announces.
use iot_server.Base.{
  ◌≡◌, refl, ap, ◌∙◌, true, Option, some, List, [], ◌∷◌, ◌++◌, All, arith, inl, inr, Bool-cases,
}
use iot_server.Base.Text.{Bytes, utf8, bytes_eq, bytes_eq_refl, bytes_eq_iff}
use iot_server.Models.{DeviceCommand, OtaInfo}
use iot_server.Storage.Memory.{memory_repository, without_command}
use iot_server.Storage.Memory.Acks.{without_commands}
use iot_server.Api.Auth.{mtls_auth_middleware}
use iot_server.Api.Answers.{ota_for, last_part}
use iot_server.Api.Requests.{Reply, firmware, has_prefix}
use iot_server.Api.Handlers.{new_api_handler, handle_ota_download}
use iot_server.Api.Routes.{edge_route, handle_route, guarded, serve_edge}
use iot_server.Simulator.Environment.{HttpResponse, AckPayload, Surroundings}
use iot_server.Simulator.Device.{
  SimulatedDevice, execute_action, execute_command, execute_commands, verify_image, perform_ota,
  update_firmware,
}
use iot_server.Simulator.Link.{Server, Setup, Link, posted, fetched, serve, waiting_for, serve-ack}

-- The server's own address in the update that it announces.
abbrev pub server_url : Bytes
server_url = utf8 "https://127.0.0.1:8443"

abbrev pub image : Bytes
image = utf8 "FIRMWARE_IMAGE_V1.1.0_PROD_RELEASE_DATA_2026"

-- The update that the server announces, for the hash of the image.
abbrev pub announced : Bytes → Option OtaInfo
announced sha256 = (new_api_handler sha256 memory_repository []).available_ota

-- What a device answers to a command.
abbrev pub ack_of : SimulatedDevice → DeviceCommand → AckPayload
ack_of d c = record {
  device_id = d.device_id;
  command_id = c.command_id;
  result = (execute_action c.action d).1;
}

-- The server reads the acknowledgement of a command, in every state of the device.
abbrev pub ReadsAck : Setup → Surroundings Server → Bytes → DeviceCommand → Type 0
ReadsAck u s id c =
    (d : SimulatedDevice)
    → d.device_id ≡ id
    → u.json.decode_ack (s.codec.marshal_ack (ack_of d c))
      ≡ some (record { device_id = id; command_id = c.command_id; result = (ack_of d c).result })

pub execute_action-keeps :
    (action : Bytes) (d : SimulatedDevice)
    → let d' = (execute_action action d).0 in
      (d'.device_id ≡ d.device_id)
      × (d'.server_url ≡ d.server_url)
      × (d'.firmware_version ≡ d.firmware_version)
unfolding execute_action
execute_action-keeps action d = ground arith

download :
    (u : Setup) (name : Bytes) (w : Server)
    → serve u name (fetched (utf8 "/api/v1/ota/download/1.1.0")) w
      ≡ (w, firmware (utf8 "firmware_1.1.0.bin") image)
unfolding serve serve_edge edge_route guarded mtls_auth_middleware handle_route handle_ota_download
    last_part bytes_eq has_prefix
download u name w = refl

module _ (u : Setup) (s : Surroundings Server) (render : Reply → HttpResponse) (base id : Bytes)
    (link : Link u s render base id) where
  -- Every command that is executed is acknowledged to the server.
  pub execute_commands-acks :
      (cs : List DeviceCommand) (d : SimulatedDevice) (w : Server)
      → d.device_id ≡ id
      → d.server_url ≡ base
      → All (ReadsAck u s id) cs
      → let x = execute_commands s cs d w in
        (waiting_for id x.1 ≡ without_commands cs (waiting_for id w))
        × (x.0.firmware_version ≡ d.firmware_version)
  unfolding execute_commands execute_command without_commands
  execute_commands-acks [] d w named based reads = (refl, refl)
  execute_commands-acks (c ∷ cs) d w named based (reads_c, reads) =
      let path = utf8 "/api/v1/commands/ack" in
      let body = s.codec.marshal_ack (ack_of d c) in
      let (d', w') = execute_command s c d w in
      let (same_id, same_url, same_version) = execute_action-keeps c.action d in
      let arrives : w' ≡ (serve u id (posted path body) w).0 =
        ap (λ b. (s.client.post (b ++ path) (utf8 "application/json") body w).0) based
        ∙ ap (λ (z : Server × Option HttpResponse). z.0) (link.posts path body w) in
      let taken : waiting_for id w' ≡ without_command c.command_id (waiting_for id w) =
        ap (waiting_for id) arrives
        ∙ serve-ack u id body
            (record { device_id = id; command_id = c.command_id; result = (ack_of d c).result }) w
            (reads_c d named) in
      let (rest, version) =
        execute_commands-acks cs d' w' (same_id ∙ named) (same_url ∙ based) reads in
      (rest ∙ ap (without_commands cs) taken, version ∙ same_version)

module _ (u : Setup) (s : Surroundings Server) (render : Reply → HttpResponse) (id sha256 : Bytes)
    (link : Link u s render server_url id) (hash : s.codec.sha256 image ≡ sha256) where
  abbrev ota_url : Bytes
  ota_url = utf8 "https://127.0.0.1:8443/api/v1/ota/download/1.1.0"

  downloaded :
      (w : Server)
      → s.client.get ota_url w
        ≡ (w, some (record { status_code = 200; body = image; complete = true }))
  downloaded w =
      link.gets (utf8 "/api/v1/ota/download/1.1.0") w
      ∙ ap (λ (z : Server × Reply). (z.0, some (render z.1))) (download u id w)
      ∙ ap (λ x. (w, some x)) (link.sends (utf8 "firmware_1.1.0.bin") image)

  -- The device has the announced version after the update, whichever it had, and the server is as
  -- it was.
  pub update_firmware-installs :
      (d : SimulatedDevice) (w : Server)
      → let x = update_firmware s (some (ota_for (announced sha256) d.firmware_version)) d w in
        (x.1 ≡ w)
        × (x.0.firmware_version ≡ utf8 "1.1.0")
        × (x.0.device_id ≡ d.device_id)
        × (x.0.server_url ≡ d.server_url)
  unfolding update_firmware perform_ota ota_for verify_image
  update_firmware-installs d w = elim (Bool-cases (bytes_eq d.firmware_version (utf8 "1.1.0"))) [
    | inl same ↦ ground (arith, same, (bytes_eq_iff d.firmware_version (utf8 "1.1.0")).0 same)
    | inr other ↦ elim (Bool-cases (bytes_eq (utf8 "1.1.0") d.firmware_version)) [
      | inl same ↦
          let e = (bytes_eq_iff (utf8 "1.1.0") d.firmware_version).0 same in
          absurd (ground (arith, other, e, bytes_eq_refl (utf8 "1.1.0")))
      | inr new ↦ ground (arith, other, new, downloaded w, hash, bytes_eq_refl sha256)
    ]
  ]
