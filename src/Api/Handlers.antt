-- ===== src/Api/Handlers.antt =====
-- `ApiHandler` of server/api/handlers/telemetry_handler.go, over any repository. Go's JSON decoder
-- and its conversion of floats out of range are parameters; `fuel` bounds the rounds of each loop
-- of the Protocol Buffers decoder. The locks make each access of the sleep settings one step;
-- requests run one after the other here.
use mathlib.Core.Option
use iot_server.Base.{
  ℕ, ◌*◌, true, false, not, ◌||◌, ◌&&◌, Option, none, some, [], ◌++◌, ltb, if◌then◌else◌,
}
use iot_server.Base.Text.{Bytes, utf8, bytes_eq, digits}
use iot_server.Base.Int.{pos}
use iot_server.Base.Float.{Float64}
use iot_server.Base.Assoc.{Assoc, insert}
use iot_server.Models.{TelemetryPayload, DeviceCommand, OtaInfo}
use iot_server.Storage.Interface.{Repository, ok, err}
use iot_server.Alerting.Rules.{default_thresholds}
use iot_server.Alerting.Engine.{RuleEngine, Outside, evaluate_and_alert}
use iot_server.Api.Requests.{
  firmware, healthy, Request, CommandRequest, Json, Reply, plain_error, failure, accepted, queued,
  ack_recorded, event_recorded, devices, history, panicked, unfinished, to_uint32,
}
use iot_server.Api.Answers.{
  ota_for, configured_sleep, requested_sleep, apply_configs, or_no_commands, payload, malformed,
  decoder_panics, decoder_runs_on, decode_body, last_part,
}

-- The state that the handlers share: what is outside, and `deviceSleepConfigs`.
pub record ApiState (S : Type 0) : Type 0 where
  pub outside : Outside S
  pub device_sleep_configs : Assoc ℕ

-- The parts of `ApiHandler` that no handler writes.
pub record ApiHandler (S : Type 0) : Type 0 where
  pub repo : Repository S
  pub available_ota : Option OtaInfo
  pub rule_engine : RuleEngine S

-- The hash of the firmware image is given: `sha256` is the hexadecimal form of its SHA-256.
abbrev pub new_api_handler : {S : Type 0} → Bytes → Repository S → Bytes → ApiHandler S
new_api_handler sha256 repo webhook_url = record {
  repo = repo;
  available_ota = some (record {
    available = true;
    target_version = utf8 "1.1.0";
    package_url = utf8 "https://127.0.0.1:8443/api/v1/ota/download/1.1.0";
    sha256 = sha256;
    size_bytes = 44 * 1024;
    mandatory = false;
  });
  rule_engine = record {
    thresholds = default_thresholds;
    webhook_url = webhook_url;
    repo = some repo;
  };
}

module _ {S : Type 0} (json : Json) (out : Float64 → ℕ) (h : ApiHandler S) (now : ℕ) where
  -- The steps of `HandleTelemetry` behind the storing of the message.
  unfoldable pub respond : TelemetryPayload → ApiState S → ApiState S × Reply
  respond p st =
      let id = p.header.device_id in
      let (alerts, o) = evaluate_and_alert h.rule_engine now p st.outside in
      let (s, pending) = h.repo.get_pending_commands now id o.store in
      let cmds = or_no_commands pending in
      let configs = st.device_sleep_configs in
      let (sleep, configs') = apply_configs out id cmds (configured_sleep id configs, configs) in
      (
        record { outside = record o { store = s }; device_sleep_configs = configs' },
        accepted (record {
          status = utf8 "OK";
          message = utf8 "Telemetry accepted";
          server_time = now;
          sleep_interval_sec = if ltb p.metrics.battery_level_pct 20 then 300 else sleep;
          ota = some (ota_for h.available_ota p.header.firmware_version);
          commands = cmds;
        }),
      )

  -- The steps of `HandleTelemetry` behind the decoding of the body.
  unfoldable pub accept : Bytes → TelemetryPayload → ApiState S → ApiState S × Reply
  accept auth_device_id p st =
      if not (bytes_eq auth_device_id []) && not (bytes_eq p.header.device_id auth_device_id)
      then (st, failure 403 (utf8 "UNAUTHORIZED"))
      else let (s, error) = h.repo.save_telemetry now p st.outside.store in
        let st' = record st { outside = record (st.outside) { store = s } } in
        elim error [ some e ↦ (st', failure 500 (utf8 "STORAGE_ERROR")) | none ↦ respond p st' ]

  unfoldable pub handle_telemetry : ℕ → Request → ApiState S → ApiState S × Reply
  handle_telemetry fuel req st =
      if not (bytes_eq req.method (utf8 "POST")) then (st, plain_error 405) else elim req.body [
        | none ↦ (st, failure 400 (utf8 "INVALID_PAYLOAD"))
        | some body ↦ elim (decode_body json fuel req.content_type body) [
          | payload p ↦ accept req.auth_device_id p st
          | malformed ↦ (st, failure 400 (utf8 "INVALID_PAYLOAD"))
          | decoder_panics ↦ (st, panicked)
          | decoder_runs_on ↦ (st, unfinished)
        ]
      ]

  -- The settings that `HandleQueueCommand` keeps for a CONFIG_UPDATE.
  unfoldable pub remember_sleep : CommandRequest → Assoc ℕ → Assoc ℕ
  remember_sleep c configs = elim (requested_sleep c.action c.params) [
    | none ↦ configs
    | some x ↦ insert c.device_id (to_uint32 out x) configs
  ]

  -- `nanos` is the clock in nanoseconds, which names the command.
  unfoldable pub handle_queue_command : ℕ → Request → ApiState S → ApiState S × Reply
  handle_queue_command nanos req st =
      if not (bytes_eq req.method (utf8 "POST"))
      then (st, failure 405 (utf8 "METHOD_NOT_ALLOWED"))
      else elim (Option.bind req.body json.decode_command) [
        | none ↦ (st, failure 400 (utf8 "INVALID_PARAM"))
        | some c ↦
            if bytes_eq c.device_id [] || bytes_eq c.action []
            then (st, failure 400 (utf8 "INVALID_PARAM"))
            else let command_id = utf8 "cmd-" ++ digits nanos in
              let cmd : DeviceCommand = record {
                command_id = command_id;
                action = c.action;
                params = c.params;
              } in
              let (s, error) = h.repo.queue_command now c.device_id cmd st.outside.store in
              let st' : ApiState S = record {
                outside = record (st.outside) { store = s };
                device_sleep_configs = remember_sleep c st.device_sleep_configs;
              } in
              elim error [
                | some e ↦ (st', failure 500 (utf8 "ERROR"))
                | none ↦ (st', queued command_id c.device_id c.action)
              ]
      ]

  unfoldable pub handle_ack_command : Request → ApiState S → ApiState S × Reply
  handle_ack_command req st = elim (Option.bind req.body json.decode_ack) [
    | none ↦ (st, failure 400 (utf8 "INVALID_PARAM"))
    | some a ↦
        let (s, error) =
          h.repo.ack_command now a.device_id a.command_id a.result st.outside.store in
        (record st { outside = record (st.outside) { store = s } }, ack_recorded)
  ]

  unfoldable pub handle_events : Request → ApiState S → ApiState S × Reply
  handle_events req st =
      if not (bytes_eq req.method (utf8 "POST"))
      then (st, plain_error 405)
      else elim (Option.bind req.body json.unmarshal_event) [
        | none ↦ (st, failure 400 (utf8 "INVALID_PAYLOAD"))
        | some e ↦
            let (s, error) = h.repo.save_event now e st.outside.store in
            let st' = record st { outside = record (st.outside) { store = s } } in
            elim error [
              | some x ↦ (st', failure 500 (utf8 "ERROR"))
              | none ↦ (st', event_recorded now)
            ]
      ]

  unfoldable pub handle_list_devices : ApiState S → Reply
  handle_list_devices st = devices (h.repo.list_devices st.outside.store)

  unfoldable pub handle_telemetry_history : Bytes → ApiState S → Reply
  handle_telemetry_history device_id st =
      if bytes_eq device_id []
      then failure 400 (utf8 "INVALID_PARAM")
      else elim (h.repo.get_telemetry_history device_id (pos 50) st.outside.store) [
        | ok messages ↦ history messages
        | err e ↦ failure 500 (utf8 "ERROR")
      ]

-- The state is not looked at, and every version is the same file.
unfoldable pub handle_ota_download : Bytes → Bytes → Reply
handle_ota_download method path =
    if not (bytes_eq method (utf8 "GET"))
    then plain_error 405
    else firmware (utf8 "firmware_" ++ (last_part [] path ++ utf8 ".bin"))
        (utf8 "FIRMWARE_IMAGE_V1.1.0_PROD_RELEASE_DATA_2026")

unfoldable pub handle_health : ℕ → Reply
handle_health now = healthy now
