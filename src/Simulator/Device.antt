-- ===== src/Simulator/Device.antt =====
-- `SimulatedDevice` of tools/simulator/main.go. Its log is left out, and its waits take no part
-- here.
use iot_server.Base.{
  ℕ, zero, suc, ◌+◌, ◌-◌, ◌*◌, ◌/◌, ◌%◌, ◌^◌, Bool, true, false, not, ◌&&◌, ◌||◌, Option, none,
  some, List, [], ◌∷◌, ◌++◌, ltb, leb, ◌==◌, if◌then◌else◌,
}
use iot_server.Base.Text.{Bytes, utf8, bytes_eq}
use iot_server.Base.Int.{pos, negsuc}
use iot_server.Base.Float.{Float64}
use iot_server.Models.{TelemetryPayload, OtaInfo, DeviceCommand}
use iot_server.Simulator.Environment.{HttpResponse, Sample, Surroundings}

-- The files of the certificate and the key are read when the device is made.
pub record SimulatedDevice : Type 0 where
  pub device_id : Bytes
  pub firmware_version : Bytes
  pub server_url : Bytes
  pub seq_no : ℕ
  pub boot_count : ℕ
  pub base_temp : Float64
  pub base_humidity : Float64
  pub battery_mv : ℕ

-- `NewSimulatedDevice` behind the loading of the certificates. `noise` is `rand.Intn(300)`.
abbrev pub new_simulated_device : Bytes → Bytes → Float64 → Float64 → ℕ → SimulatedDevice
new_simulated_device device_id server_url base_temp base_humidity noise = record {
  device_id = device_id;
  firmware_version = utf8 "1.0.0";
  server_url = server_url;
  seq_no = 1;
  boot_count = 1;
  base_temp = base_temp;
  base_humidity = base_humidity;
  battery_mv = 4100 - noise;
}

-- The switch of `ExecuteCommand`: what the command does to the device, and the result.
unfoldable pub execute_action : Bytes → SimulatedDevice → SimulatedDevice × Bytes
execute_action action d =
    if bytes_eq action (utf8 "CONFIG_UPDATE")
    then (d, utf8 "SUCCESS")
    else if bytes_eq action (utf8 "REBOOT")
    then (record d { boot_count = (d.boot_count + 1) % 2 ^ 32 }, utf8 "SUCCESS")
    else if bytes_eq action (utf8 "SELF_TEST")
    then (d, utf8 "SUCCESS")
    else (d, utf8 "UNKNOWN_ACTION")

-- `if d.BatteryMv > 3300 { d.BatteryMv -= 2 }`
unfoldable pub drain : ℕ → ℕ
drain mv = if ltb 3300 mv then mv - 2 else mv

-- The level in percent. The products stay below 2 ^ 32 for a battery of at most 4100.
unfoldable pub battery_pct : ℕ → ℕ
battery_pct mv =
    if ltb 3300 mv
    then (let pct = (mv - 3300) * 100 % 2 ^ 32 / 800 in if ltb 100 pct then 100 else pct)
    else 0

-- The messages of the round `cycles`, and the device behind `d.SeqNo++`.
unfoldable pub telemetry_payload :
    (ℕ → Float64) → Sample → ℕ → ℕ → SimulatedDevice → TelemetryPayload
telemetry_payload volts x interval cycles d = record {
  header = record {
    device_id = d.device_id;
    timestamp = pos x.time;
    seq_no = d.seq_no;
    firmware_version = d.firmware_version;
    boot_count = d.boot_count;
  };
  metrics = record {
    temperature = x.temperature;
    humidity = x.humidity;
    battery_voltage = volts d.battery_mv;
    battery_level_pct = battery_pct d.battery_mv;
    rssi = negsuc (54 + x.rssi_noise);
    interval_sec = 0;
    custom_values = none;
  };
  status = some (record {
    state = utf8 "NORMAL";
    uptime_sec = cycles * interval % 2 ^ 32;
    free_heap_bytes = 45000 + x.heap_noise;
  });
}

-- How `Run` ends, or that it goes on.
pub data Next : Type 0 where
  stopped : Next
  goes_on : Next

module _ {W : Type 0} (s : Surroundings W) where
  -- The loop over the attempts to post the message, with `n` of them left: the last result.
  unfoldable pub post_attempts : ℕ → Bytes → Bytes → W → W × Option HttpResponse
  post_attempts zero url body w = (w, none)
  post_attempts (suc n) url body w =
      let (w', result) = s.client.post url (utf8 "application/json") body w in
      elim result [ some resp ↦ (w', some resp) | none ↦ post_attempts n url body w' ]

  -- `ExecuteCommand`: an error of the request is dropped.
  unfoldable pub execute_command : DeviceCommand → SimulatedDevice → W → SimulatedDevice × W
  execute_command cmd d w =
      let (d', result) = execute_action cmd.action d in
      let ack =
        s.codec.marshal_ack
          (record { device_id = d.device_id; command_id = cmd.command_id; result = result }) in
      (
        d',
        (s.client.post (d.server_url ++ utf8 "/api/v1/commands/ack") (utf8 "application/json") ack
            w).0,
      )

  unfoldable pub execute_commands : List DeviceCommand → SimulatedDevice → W → SimulatedDevice × W
  execute_commands [] d w = (d, w)
  execute_commands (c ∷ cs) d w = let (d', w') = execute_command c d w in execute_commands cs d' w'

  -- Whether the image may be installed: its status, that it was read, and its hash, where the
  -- server gives one.
  unfoldable pub verify_image : OtaInfo → Option HttpResponse → Bool
  verify_image ota none = false
  verify_image ota (some resp) =
      resp.status_code == 200
      && resp.complete
      && (bytes_eq ota.sha256 [] || bytes_eq (s.codec.sha256 resp.body) ota.sha256)

  -- `PerformOTA`.
  unfoldable pub perform_ota : OtaInfo → SimulatedDevice → W → SimulatedDevice × W × Bool
  perform_ota ota d w =
      let (w', resp) = s.client.get ota.package_url w in
      if verify_image ota resp
      then (
        record d {
          firmware_version = ota.target_version;
          boot_count = (d.boot_count + 1) % 2 ^ 32;
        },
        w',
        true,
      )
      else (d, w', false)

  -- What `Run` does about the update that an answer announces.
  unfoldable pub update_firmware : Option OtaInfo → SimulatedDevice → W → SimulatedDevice × W
  update_firmware none d w = (d, w)
  update_firmware (some ota) d w =
      if ota.available && not (bytes_eq ota.target_version d.firmware_version)
      then (let (d', w', installed) = perform_ota ota d w in (d', w'))
      else (d, w)

  -- What `Run` does with an answer of status 200.
  unfoldable pub follow_response : Bytes → SimulatedDevice → W → SimulatedDevice × W
  follow_response body d w = elim (s.codec.unmarshal_response body) [
    | none ↦ (d, w)
    | some r ↦ let (d', w') = update_firmware r.ota d w in execute_commands r.commands d' w'
  ]

  -- What `Run` does with the result of posting.
  unfoldable pub settle : Option HttpResponse → SimulatedDevice → ℕ → W → SimulatedDevice × ℕ × W
  settle none d cycles w = (d, cycles, w)
  settle (some r) d cycles w =
      if r.status_code == 200
      then (let (d', w') = follow_response r.body d w in (d', cycles + 1, w'))
      else (d, cycles, w)

  -- The message of a round, and the device once it is made.
  unfoldable pub prepare : ℕ → SimulatedDevice → ℕ → W → TelemetryPayload × SimulatedDevice
  prepare interval d cycles w =
      let drained = record d { battery_mv = drain d.battery_mv } in
      let x = s.sample w d.base_temp d.base_humidity in
      (
        telemetry_payload s.volts x interval cycles drained,
        record drained { seq_no = (d.seq_no + 1) % 2 ^ 32 },
      )

  -- A round of the loop of `Run` up to its end: the device, the finished cycles, and what is
  -- outside.
  unfoldable pub round : ℕ → SimulatedDevice → ℕ → W → SimulatedDevice × ℕ × W
  round interval d cycles w =
      let (p, d') = prepare interval d cycles w in
      let (w', result) =
        post_attempts 3 (d.server_url ++ utf8 "/api/v1/telemetry") (s.codec.marshal_telemetry p)
          w in
      settle result d' cycles w'

  -- `if maxCycles > 0 && cycles >= maxCycles { return }`
  abbrev pub completed : ℕ → ℕ → Bool
  completed max_cycles cycles = ltb 0 max_cycles && leb max_cycles cycles

  -- `Run`, for at most `fuel` rounds: how it ends, the device and the cycles. `goes_on` is no end.
  -- The wait ends by its time or by the context, which the next round tests first.
  unfoldable pub run : ℕ → ℕ → ℕ → SimulatedDevice → ℕ → W → Next × SimulatedDevice × ℕ × W
  run zero interval max_cycles d cycles w = (goes_on, d, cycles, w)
  run (suc fuel) interval max_cycles d cycles w = elim (s.done w) [
    | true ↦ (stopped, d, cycles, w)
    | false ↦
        let (d', cycles', w') = round interval d cycles w in
        elim (completed max_cycles cycles') [
          | true ↦ (stopped, d', cycles', w')
          | false ↦ run fuel interval max_cycles d' cycles' w'
        ]
  ]
