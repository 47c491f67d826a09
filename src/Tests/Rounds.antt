-- ===== src/Tests/Rounds.antt =====
-- The theorem on two rounds of the simulated device on the server, at a concrete device with a
-- command that waits.
use iot_server.Base.{
  ℕ, ◌+◌, ◌≡◌, refl, ap, ◌⊎◌, inl, inr, true, false, Option, none, some, List, [], ◌∷◌, length,
  drop, All, if◌then◌else◌, ◌==◌, sym, ◌∙◌, subst,
}
use iot_server.Base.Text.{utf8, bytes_eq}
use iot_server.Base.Float.{of_nat}
use iot_server.Base.Int.{pos, negsuc}
use iot_server.Base.Text.{Bytes}
use iot_server.Api.Answers.{ota_for}
use iot_server.Api.Sleep.{answer}
use iot_server.Models.{
  ApiResponse, TelemetryPayload, DeviceStatus, DeviceState, DeviceCommand, OtaInfo,
}
use iot_server.Base.Assoc.{lookup, insert}
use iot_server.Storage.Memory
use iot_server.Storage.Memory.{get_slice, save_telemetry, find_or_create}
use iot_server.Storage.Memory.History
use iot_server.Alerting.Rules.{default_thresholds}
use iot_server.Api.Requests.{Reply, accepted, firmware}
use iot_server.Simulator.Environment.{HttpResponse, Surroundings}
use iot_server.Simulator.Device.{
  SimulatedDevice, telemetry_payload, drain, execute_action, round, prepare,
}
use iot_server.Simulator.Link.{
  Server, Setup, Link, posted, fetched, serve, waiting_for, serve-telemetry,
}
use iot_server.Simulator.Delivered.{server_url, image, announced, ReadsAck}
use iot_server.Simulator.UpToDate.{IsRead, message, served, round-up_to_date}
use iot_server.Simulator.Upgraded.{round-records, two_rounds-recorded}
use iot_server.Storage.Memory.{device_of}
use iot_server.Storage.Memory.History.{run-IsValid}
use iot_server.Tests.Samples.{sleep_command, calls}
use iot_server.Tests.Server.{device, webhook, no_range, state, fixed_json}
use iot_server.Tests.Simulation.{simulated, sample, ok_response}

-- A device on the server, with a command that waits for it. The hash of the image is its text. A
-- message is sent as its numbers that change and its version.
encode_message : TelemetryPayload → Bytes
encode_message p =
    p.header.seq_no
    ∷ p.header.boot_count
    ∷ p.metrics.battery_level_pct
    ∷ uptime p.status
    ∷ p.header.firmware_version
  where
    uptime : Option DeviceStatus → ℕ
    uptime none = 0
    uptime (some st) = st.uptime_sec

decode_message : Bytes → Option TelemetryPayload
decode_message (seq_no ∷ boot_count ∷ pct ∷ uptime ∷ version) = some (record {
  header = record {
    device_id = device;
    timestamp = pos 1764115200;
    seq_no = seq_no;
    firmware_version = version;
    boot_count = boot_count;
  };
  metrics = record {
    temperature = of_nat 25;
    humidity = of_nat 50;
    battery_voltage = of_nat 4;
    battery_level_pct = pct;
    rssi = negsuc 57;
    interval_sec = 0;
    custom_values = none;
  };
  status = some (record { state = utf8 "NORMAL"; uptime_sec = uptime; free_heap_bytes = 45100 });
})
decode_message _ = none

-- An answer as its interval, the number of its commands and whether it has an update.
encode_response : ApiResponse → Bytes
encode_response r = r.sleep_interval_sec ∷ length r.commands ∷ available r.ota ∷ []
  where
    available : Option OtaInfo → ℕ
    available none = 0
    available (some ota) = if ota.available then 1 else 0

decode_response : Bytes → Option ApiResponse
decode_response (sleep ∷ commands ∷ available ∷ []) = some (record {
  status = utf8 "OK";
  message = utf8 "Telemetry accepted";
  server_time = 60;
  sleep_interval_sec = sleep;
  ota = some (ota_for (announced image) (if available == 1 then utf8 "1.0.0" else utf8 "1.1.0"));
  commands = if commands == 0 then [] else sleep_command ∷ [];
})
decode_response _ = none

abbrev server : Setup
server = record {
  json = record fixed_json {
    unmarshal_telemetry = decode_message;
    decode_ack = λ body. some (record {
      device_id = device;
      command_id = sleep_command.command_id;
      result = utf8 "SUCCESS";
    });
  };
  out = no_range;
  ota = announced image;
  thresholds = default_thresholds;
  webhook_url = webhook;
  now = 60;
  nanos = 777;
  fuel = 200;
  require_mtls = true;
}

render : Reply → HttpResponse
render (accepted r) = record ok_response { body = encode_response r }
render (firmware file bytes) = record ok_response { body = bytes }
render _ = record ok_response { status_code = 400 }

abbrev linked : Surroundings Server
linked = record {
  client = record {
    post = λ url kind body w.
        let x = serve server device (posted (drop 22 url) body) w in (x.0, some (render x.1));
    get =
        λ url w. let x = serve server device (fetched (drop 22 url)) w in (x.0, some (render x.1));
  };
  codec = record {
    marshal_telemetry = encode_message;
    marshal_ack = λ a. [];
    unmarshal_response = decode_response;
    sha256 = λ b. b;
  };
  sample = λ w t h. sample;
  done = λ w. false;
  volts = λ mv. of_nat 4;
}

linked-Link : Link server linked render server_url device
unfolding render
linked-Link = record {
  posts = λ path body w. refl;
  gets = λ path w. refl;
  accepts = λ r. refl;
  sends = λ file bytes. refl;
}

linked-ReadsAck : All (ReadsAck server linked device) (waiting_for device state)
unfolding execute_action bytes_eq History.run save_telemetry find_or_create get_slice lookup insert
    Memory.queue_command
linked-ReadsAck = (λ d e. refl, tt)

-- What is read of a message of the device, and of an answer with the update and the command, or
-- with neither.
reads_message :
    (d : SimulatedDevice) (cycles : ℕ) (w : Server)
    → d.device_id ≡ device
    → let p = message server linked render 1 cycles d w in
      decode_message (encode_message p) ≡ some p
unfolding decode_message encode_message message prepare telemetry_payload
reads_message d cycles w named =
    ap
      (λ id. some (
        telemetry_payload linked.volts sample 1 cycles
          (record d { device_id = id; battery_mv = drain d.battery_mv })))
      (sym named)

abbrev told : ℕ → Bytes → List DeviceCommand → ApiResponse
told sleep version commands = record {
  status = utf8 "OK";
  message = utf8 "Telemetry accepted";
  server_time = 60;
  sleep_interval_sec = sleep;
  ota = some (ota_for (announced image) version);
  commands = commands;
}

abbrev IsKnown : Bytes → List DeviceCommand → Type 0
IsKnown version commands =
    ((version ≡ utf8 "1.0.0") × (commands ≡ sleep_command ∷ []))
    ⊎ ((version ≡ utf8 "1.1.0") × (commands ≡ []))

reads_answer :
    (sleep : ℕ) (version : Bytes) (commands : List DeviceCommand)
    → IsKnown version commands
    → let r = told sleep version commands in decode_response (encode_response r) ≡ some r
unfolding decode_response encode_response ota_for bytes_eq
reads_answer sleep version commands (inl (e, e')) =
    subst (λ v. let r = told sleep v commands in decode_response (encode_response r) ≡ some r)
      (sym e)
      (subst
        (λ cs. let r = told sleep (utf8 "1.0.0") cs in decode_response (encode_response r) ≡ some r)
        (sym e') refl)
reads_answer sleep version commands (inr (e, e')) =
    subst (λ v. let r = told sleep v commands in decode_response (encode_response r) ≡ some r)
      (sym e)
      (subst
        (λ cs. let r = told sleep (utf8 "1.1.0") cs in decode_response (encode_response r) ≡ some r)
        (sym e') refl)

or_told : ApiResponse → Reply → ApiResponse
or_told r (accepted r') = r'
or_told r _ = r

linked-IsRead :
    (d : SimulatedDevice) (cycles : ℕ) (w : Server)
    → d.device_id ≡ device
    → IsKnown d.firmware_version (waiting_for d.device_id w)
    → IsRead server linked render 1 cycles d w
unfolding served message prepare telemetry_payload render or_told
linked-IsRead d cycles w named known =
    let p = message server linked render 1 cycles d w in
    let read = reads_message d cycles w named in
    let (kept, (sleep, answered)) = serve-telemetry server p (encode_message p) w read in
    let commands = waiting_for d.device_id w in
    let ans = answer 60 (announced image) p commands sleep in
    let slept = ans.sleep_interval_sec in
    record {
      reads_message = read;
      reads_answer = λ r e.
          let same : r ≡ told slept d.firmware_version commands =
            ap (or_told r) (sym e ∙ answered) in
          ap (λ z. decode_response (render z).body) e
          ∙ subst (λ z. decode_response (encode_response z) ≡ some z) (sym same)
              (reads_answer slept d.firmware_version commands known);
    }

abbrev after : SimulatedDevice × ℕ × Server
after = round linked 1 simulated 0 state

first-IsRead : IsRead server linked render 1 0 simulated state
unfolding History.run save_telemetry find_or_create get_slice lookup insert Memory.queue_command
    bytes_eq
first-IsRead = linked-IsRead simulated 0 state refl (inl (refl, refl))

first_round :
    (after.0.firmware_version ≡ utf8 "1.1.0")
    × (after.1 ≡ 0 + 1)
    × (waiting_for device after.2 ≡ [])
    × (after.0.device_id ≡ device)
first_round =
    let (version, counted, nothing) =
      round-up_to_date server linked render image 1 0 simulated state linked-Link refl refl refl
        first-IsRead linked-ReadsAck in
    let (same, named, based) =
      round-records server linked render image 1 0 simulated state linked-Link refl refl refl
        first-IsRead in
    (version, counted, nothing, named)

two_rounds-recorded_example :
    let y = round linked 1 after.0 after.1 after.2 in
    (y.0.firmware_version ≡ utf8 "1.1.0")
    × (waiting_for device y.2 ≡ [])
    × ((dev : DeviceState) × (device_of device y.2.outside.store ≡ some dev)
        × (dev.firmware_version ≡ utf8 "1.1.0")
        × (dev.last_seq_no ≡ after.0.seq_no))
two_rounds-recorded_example =
    let (version, counted, nothing, named) = first_round in
    two_rounds-recorded server linked render image 1 0 simulated state linked-Link refl refl refl
      (run-IsValid calls) linked-ReadsAck first-IsRead
      (linked-IsRead after.0 after.1 after.2 named
        (inr (version, ap (λ i. waiting_for i after.2) named ∙ nothing)))
