-- ===== src/Simulator/UpToDate.antt =====
-- A round of the device of tools/simulator/main.go with the server of server/main.go.
use iot_server.Base.{ℕ, ◌+◌, ◌≡◌, refl, sym, ap, ◌∙◌, subst, Option, some, [], All, arith}
use iot_server.Base.Text.{Bytes, utf8}
use iot_server.Models.{TelemetryPayload, ApiResponse, OtaInfo}
use iot_server.Storage.Memory.{get_slice}
use iot_server.Api.Sleep.{answer}
use iot_server.Storage.Memory.Acks.{without_commands, without_commands_self}
use iot_server.Api.Answers.{ota_for}
use iot_server.Api.Requests.{Reply, accepted}
use iot_server.Simulator.Environment.{HttpResponse, Surroundings}
use iot_server.Simulator.Device.{
  SimulatedDevice, execute_commands, update_firmware, follow_response, post_attempts, settle,
  prepare, round, telemetry_payload,
}
use iot_server.Simulator.Link.{Server, Setup, Link, posted, serve, waiting_for, serve-telemetry}
use iot_server.Simulator.Delivered.{
  server_url, announced, image, ReadsAck, execute_commands-acks, update_firmware-installs,
}

module _ (u : Setup) (s : Surroundings Server) (render : Reply → HttpResponse) (interval cycles : ℕ)
    (d : SimulatedDevice) (w : Server) where
  abbrev pub first_path : Bytes
  first_path = utf8 "/api/v1/telemetry"

  -- The message of the round, as it is posted.
  unfoldable pub message : TelemetryPayload
  message = (prepare s interval d cycles w).0

  -- What the server makes of it.
  unfoldable pub served : Server × Reply
  served = serve u d.device_id (posted first_path (s.codec.marshal_telemetry message)) w

  -- The server reads the message, and the device the answer.
  pub record IsRead : Type 0 where
    pub reads_message :
        u.json.unmarshal_telemetry (s.codec.marshal_telemetry message) ≡ some message
    pub reads_answer :
        (r : ApiResponse)
        → served.1 ≡ accepted r
        → s.codec.unmarshal_response (render served.1).body ≡ some r

  follow_response-accepted :
      (r : ApiResponse) (d' : SimulatedDevice) (w' : Server) (body : Bytes)
      → s.codec.unmarshal_response body ≡ some r
      → follow_response s body d' w'
        ≡ (let (d'', w'') = update_firmware s r.ota d' w' in execute_commands s r.commands d'' w'')
  unfolding follow_response
  follow_response-accepted r d' w' body e = ground (arith, e)

  pub round-follows :
      (r : ApiResponse)
      → Link u s render d.server_url d.device_id
      → served.1 ≡ accepted r
      → s.codec.unmarshal_response (render served.1).body ≡ some r
      → let d' = (prepare s interval d cycles w).1 in
        let x = update_firmware s r.ota d' served.0 in
        let y = execute_commands s r.commands x.0 x.1 in
        round s interval d cycles w ≡ (y.0, cycles + 1, y.1)
  unfolding round served message post_attempts settle
  round-follows r link told read =
      let body = s.codec.marshal_telemetry (prepare s interval d cycles w).0 in
      let d' = (prepare s interval d cycles w).1 in
      let good : (render served.1).status_code ≡ 200 =
        ap (λ z. (render z).status_code) told ∙ link.accepts r in
      let follows = follow_response-accepted r d' served.0 (render served.1).body read in
      ground (arith, link.posts first_path body w, good, follows)

-- One round brings the device up to date: a device that is named in its certificate, on a reliable
-- link to the server that announces version 1.1.0 with the hash of the image, has this version
-- after a round that it could read, the round is counted, and no command that waited for it waits
-- any more.
pub round-up_to_date :
    (u : Setup) (s : Surroundings Server) (render : Reply → HttpResponse) (sha256 : Bytes)
    (interval cycles : ℕ) (d : SimulatedDevice) (w : Server)
    → Link u s render d.server_url d.device_id
    → d.server_url ≡ server_url
    → u.ota ≡ announced sha256
    → s.codec.sha256 image ≡ sha256
    → IsRead u s render interval cycles d w
    → All (ReadsAck u s d.device_id) (waiting_for d.device_id w)
    → let x = round s interval d cycles w in
      (x.0.firmware_version ≡ utf8 "1.1.0")
      × (x.1 ≡ cycles + 1)
      × (waiting_for d.device_id x.2 ≡ [])
unfolding served message prepare telemetry_payload
round-up_to_date u s render sha256 interval cycles d w link based ota hash read reads =
    let id = d.device_id in
    let p = message u s render interval cycles d w in
    let d' = (prepare s interval d cycles w).1 in
    let cs = waiting_for id w in
    let w' = (served u s render interval cycles d w).0 in
    let (kept, (sleep, told)) =
      serve-telemetry u p (s.codec.marshal_telemetry p) w read.reads_message in
    let r : ApiResponse = answer u.now u.ota p cs sleep in
    let x = update_firmware s r.ota d' w' in
    let y = execute_commands s cs x.0 x.1 in
    let there = subst (λ b. Link u s render b id) based link in
    let IsInstalled = λ (o : Option OtaInfo).
      let x = update_firmware s (some (ota_for o d.firmware_version)) d' w' in
      (x.1 ≡ w')
      × (x.0.firmware_version ≡ utf8 "1.1.0")
      × (x.0.device_id ≡ d'.device_id)
      × (x.0.server_url ≡ d'.server_url) in
    let (same, version, named, based') : (x.1 ≡ w')
        × (x.0.firmware_version ≡ utf8 "1.1.0")
        × (x.0.device_id ≡ d'.device_id)
        × (x.0.server_url ≡ d'.server_url) =
      subst IsInstalled (sym ota)
        (update_firmware-installs u s render id sha256 there hash d' w') in
    let (acked, kept_version) =
      execute_commands-acks u s render d.server_url id link cs x.0 x.1 named based' reads in
    let follows =
      round-follows u s render interval cycles d w r link told (read.reads_answer r told) in
    let nothing : waiting_for id y.1 ≡ [] =
      acked
      ∙ ap (λ z. without_commands cs (waiting_for id z)) same
      ∙ ap (λ z. without_commands cs (get_slice id z)) kept
      ∙ without_commands_self cs in
    let IsUpToDate = λ (z : SimulatedDevice × ℕ × Server).
      (z.0.firmware_version ≡ utf8 "1.1.0") × (z.1 ≡ cycles + 1) × (waiting_for id z.2 ≡ []) in
    subst IsUpToDate (sym follows) (kept_version ∙ version, refl, nothing)
