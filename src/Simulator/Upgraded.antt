-- ===== src/Simulator/Upgraded.antt =====
-- The server of server/main.go learns that a device of tools/simulator/main.go has the new version.
use iot_server.Base.{ℕ, ◌≡◌, refl, sym, ap, ◌∙◌, subst, Option, some, [], All, arith}
use iot_server.Base.Text.{Bytes, utf8, bytes_eq_refl}
use iot_server.Models.{DeviceState, OtaInfo, ApiResponse}
use iot_server.Storage.Memory
use iot_server.Storage.Memory.{device_of}
use iot_server.Storage.Memory.Heap.{IsValid}
use iot_server.Storage.Memory.Devices.{
  device_or_fresh, device_of-save_telemetry, save_telemetry-IsValid,
}
use iot_server.Api.Answers.{ota_for}
use iot_server.Api.Requests.{Reply}
use iot_server.Api.Sleep.{answer}
use iot_server.Simulator.Environment.{Surroundings, HttpResponse}
use iot_server.Simulator.Device.{
  SimulatedDevice, execute_commands, update_firmware, prepare, round, telemetry_payload,
}
use iot_server.Simulator.Link.{Server, Setup, Link, waiting_for, serve-telemetry}
use iot_server.Simulator.Delivered.{
  server_url, announced, image, ReadsAck, update_firmware-installs,
}
use iot_server.Simulator.UpToDate.{IsRead, message, served, round-follows, round-up_to_date}
use iot_server.Simulator.Recorded.{
  SameDevices, same_trans, device_of-same, same-IsValid, serve-telemetry-devices,
  execute_commands-devices,
}

module _ (u : Setup) (s : Surroundings Server) (render : Reply → HttpResponse) (sha256 : Bytes)
    (interval cycles : ℕ) (d : SimulatedDevice) (w : Server) where
  -- A round leaves in the records of the devices what storing its message does, and the device
  -- where it is.
  pub round-records :
      Link u s render d.server_url d.device_id
      → d.server_url ≡ server_url
      → u.ota ≡ announced sha256
      → s.codec.sha256 image ≡ sha256
      → IsRead u s render interval cycles d w
      → let x = round s interval d cycles w in
        SameDevices
          (Memory.save_telemetry u.now (message u s render interval cycles d w) w.outside.store).0
          x.2.outside.store
        × (x.0.device_id ≡ d.device_id)
        × (x.0.server_url ≡ d.server_url)
  unfolding served message prepare telemetry_payload
  round-records link based ota hash read =
      let id = d.device_id in
      let p = message u s render interval cycles d w in
      let d' = (prepare s interval d cycles w).1 in
      let cs = waiting_for id w in
      let w' = (served u s render interval cycles d w).0 in
      let (kept, (sleep, told)) =
        serve-telemetry u p (s.codec.marshal_telemetry p) w read.reads_message in
      let r : ApiResponse = answer u.now u.ota p cs sleep in
      let x = update_firmware s r.ota d' w' in
      let there = subst (λ b. Link u s render b id) based link in
      let IsInstalled = λ (o : Option OtaInfo).
        let x = update_firmware s (some (ota_for o d.firmware_version)) d' w' in
        (x.1 ≡ w')
        × (x.0.firmware_version ≡ utf8 "1.1.0")
        × (x.0.device_id ≡ d'.device_id)
        × (x.0.server_url ≡ d'.server_url) in
      let (same, version, named, based') : (x.1 ≡ w')
          × (x.0.firmware_version ≡ utf8 "1.1.0")
          × (x.0.device_id ≡ d'.device_id)
          × (x.0.server_url ≡ d'.server_url) =
        subst IsInstalled (sym ota)
          (update_firmware-installs u s render id sha256 there hash d' w') in
      let (after, named', based'') =
        execute_commands-devices u s render d.server_url id link cs x.0 x.1 based' in
      let stored = serve-telemetry-devices u p (s.codec.marshal_telemetry p) w read.reads_message in
      let follows =
        round-follows u s render interval cycles d w r link told (read.reads_answer r told) in
      let after' : SameDevices w'.outside.store (execute_commands s cs x.0 x.1).1.outside.store =
        subst
          (λ (z : Server).
            SameDevices z.outside.store (execute_commands s cs x.0 x.1).1.outside.store)
          same after in
      let IsRecorded = λ (z : SimulatedDevice × ℕ × Server).
        SameDevices (Memory.save_telemetry u.now p w.outside.store).0 z.2.outside.store
        × (z.0.device_id ≡ d.device_id)
        × (z.0.server_url ≡ d.server_url) in
      subst IsRecorded (sym follows)
        (same_trans _ _ _ stored after', named' ∙ named, based'' ∙ based')

  -- The record of the device then has the version that the device had, and the number of its
  -- message.
  round-recorded :
      Link u s render d.server_url d.device_id
      → d.server_url ≡ server_url
      → u.ota ≡ announced sha256
      → s.codec.sha256 image ≡ sha256
      → IsRead u s render interval cycles d w
      → IsValid w.outside.store
      → let x = round s interval d cycles w in
        IsValid x.2.outside.store
        × ((dev : DeviceState) × (device_of d.device_id x.2.outside.store ≡ some dev)
            × (dev.firmware_version ≡ d.firmware_version)
            × (dev.last_seq_no ≡ d.seq_no))
  unfolding message prepare telemetry_payload
  round-recorded link based ota hash read v =
      let p = message u s render interval cycles d w in
      let (same, named, based') = round-records link based ota hash read in
      let x = round s interval d cycles w in
      let saved = device_of-save_telemetry w.outside.store u.now p v d.device_id in
      let there = device_of-same _ x.2.outside.store d.device_id same in
      let dev =
        Memory.touch u.now p
          (device_or_fresh d.device_id (device_of d.device_id w.outside.store)) in
      let found : device_of d.device_id (Memory.save_telemetry u.now p w.outside.store).0
          ≡ some dev =
        ground (arith, saved, bytes_eq_refl d.device_id) in
      (
        same-IsValid _ x.2.outside.store same (save_telemetry-IsValid w.outside.store u.now p v),
        (dev, there ∙ found, refl, refl),
      )

-- After two rounds the server knows that a device is up to date: a device that is named in its
-- certificate, on a reliable link to the server that announces version 1.1.0 with the hash of the
-- image, whose messages, answers and acknowledgements are read, has version 1.1.0 in the
-- repository in memory, which kept its devices apart before, with the number of the message of the
-- second round, and no command waits for it.
pub two_rounds-recorded :
    (u : Setup) (s : Surroundings Server) (render : Reply → HttpResponse) (sha256 : Bytes)
    (interval cycles : ℕ) (d : SimulatedDevice) (w : Server)
    → Link u s render d.server_url d.device_id
    → d.server_url ≡ server_url
    → u.ota ≡ announced sha256
    → s.codec.sha256 image ≡ sha256
    → IsValid w.outside.store
    → All (ReadsAck u s d.device_id) (waiting_for d.device_id w)
    → IsRead u s render interval cycles d w
    → (let x = round s interval d cycles w in IsRead u s render interval x.1 x.0 x.2)
    → let x = round s interval d cycles w in
      let y = round s interval x.0 x.1 x.2 in
      (y.0.firmware_version ≡ utf8 "1.1.0")
      × (waiting_for d.device_id y.2 ≡ [])
      × ((dev : DeviceState) × (device_of d.device_id y.2.outside.store ≡ some dev)
          × (dev.firmware_version ≡ utf8 "1.1.0")
          × (dev.last_seq_no ≡ x.0.seq_no))
two_rounds-recorded u s render sha256 interval cycles d w link based ota hash v reads read read' =
    let (version, counted, nothing) =
      round-up_to_date u s render sha256 interval cycles d w link based ota hash read reads in
    let (same, named, based') =
      round-records u s render sha256 interval cycles d w link based ota hash read in
    let (v', recorded) =
      round-recorded u s render sha256 interval cycles d w link based ota hash read v in
    let x = round s interval d cycles w in
    let link' : Link u s render x.0.server_url x.0.device_id =
      subst (λ b. Link u s render b x.0.device_id) (sym based')
        (subst (λ i. Link u s render d.server_url i) (sym named) link) in
    let nothing' : waiting_for x.0.device_id x.2 ≡ [] =
      ap (λ i. waiting_for i x.2) named ∙ nothing in
    let reads' : All (ReadsAck u s x.0.device_id) (waiting_for x.0.device_id x.2) =
      subst (All (ReadsAck u s x.0.device_id)) (sym nothing') tt in
    let (version', counted', nothing'') =
      round-up_to_date u s render sha256 interval x.1 x.0 x.2 link' (based' ∙ based) ota hash read'
        reads' in
    let (v'', (dev, found, of_version, of_number)) =
      round-recorded u s render sha256 interval x.1 x.0 x.2 link' (based' ∙ based) ota hash read'
        v' in
    let y = round s interval x.0 x.1 x.2 in
    (
      version',
      ap (λ i. waiting_for i y.2) (sym named) ∙ nothing'',
      (
        dev,
        ap (λ i. device_of i y.2.outside.store) (sym named) ∙ found,
        of_version ∙ version,
        of_number,
      ),
    )
