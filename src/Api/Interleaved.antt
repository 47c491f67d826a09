-- ===== src/Api/Interleaved.antt =====
-- Requests that the server serves at the same time: the handlers of
-- server/api/handlers/telemetry_handler.go as phases between their accesses of shared data, each of
-- which holds its lock. A schedule says whose turn it is, and what the clock shows.
use iot_server.Base.{ℕ, zero, suc, Option, none, some, List, [], ◌∷◌, ltb, if◌then◌else◌}
use iot_server.Base.Text.{Bytes, utf8}
use iot_server.Base.Float.{Float64}
use iot_server.Models.{TelemetryPayload, EventPayload, DeviceCommand}
use iot_server.Storage.Interface.{StorageError}
use iot_server.Alerting.Rules.{AlertEvent, alerts_of}
use iot_server.Alerting.Engine.{dispatch}
use iot_server.Api.Requests.{
  CommandRequest, AckRequest, Json, Reply, failure, accepted, queued, ack_recorded, event_recorded,
}
use iot_server.Api.Answers.{
  ota_for, configured_sleep, requested_sleep, apply_request, or_no_commands,
}
use iot_server.Api.Handlers.{ApiHandler, ApiState, remember_sleep}

-- What a request does next. `saving` is a message that is decoded and whose device is the
-- authenticated one, `alerting` has the alerts that are left, `applying` the interval so far, the
-- commands that are left and all commands. `remembering` and `queueing` are a command that is well
-- formed.
pub data Phase : Type 0 where
  saving : TelemetryPayload → Phase
  alerting : TelemetryPayload → List AlertEvent → Phase
  reading_sleep : TelemetryPayload → Phase
  fetching : TelemetryPayload → ℕ → Phase
  applying : TelemetryPayload → ℕ → List DeviceCommand → List DeviceCommand → Phase
  remembering : CommandRequest → DeviceCommand → Phase
  queueing : CommandRequest → DeviceCommand → Phase
  acking : AckRequest → Phase
  recording : EventPayload → Phase
  answered : Reply → Phase

-- What a call leaves of the state.
abbrev pub with_store : {S : Type 0} → ApiState S → S → ApiState S
with_store st s = record st { outside = record (st.outside) { store = s } }

unfoldable pub or_failure : Bytes → Option StorageError → Phase → Phase
or_failure status none next = next
or_failure status (some e) next = answered (failure 500 status)

module _ {S : Type 0} (json : Json) (out : Float64 → ℕ) (h : ApiHandler S) where
  -- The next access of a request.
  unfoldable pub advance : ℕ → Phase → ApiState S → ApiState S × Phase
  advance now (saving p) st =
      let (s, error) = h.repo.save_telemetry now p st.outside.store in
      (
        with_store st s,
        or_failure (utf8 "STORAGE_ERROR") error
            (alerting p (alerts_of h.rule_engine.thresholds now p)),
      )
  advance now (alerting p []) st = (st, reading_sleep p)
  advance now (alerting p (a ∷ as')) st =
      (record st { outside = dispatch h.rule_engine now p.header a st.outside }, alerting p as')
  advance now (reading_sleep p) st =
      (st, fetching p (configured_sleep p.header.device_id st.device_sleep_configs))
  advance now (fetching p sleep) st =
      let (s, pending) = h.repo.get_pending_commands now p.header.device_id st.outside.store in
      let cmds = or_no_commands pending in (with_store st s, applying p sleep cmds cmds)
  advance now (applying p sleep [] cmds) st = (
    st,
    answered (
        accepted (record {
          status = utf8 "OK";
          message = utf8 "Telemetry accepted";
          server_time = now;
          sleep_interval_sec = if ltb p.metrics.battery_level_pct 20 then 300 else sleep;
          ota = some (ota_for h.available_ota p.header.firmware_version);
          commands = cmds;
        })),
  )
  advance now (applying p sleep (c ∷ cs) cmds) st =
      let (sleep', configs) =
        apply_request out p.header.device_id (requested_sleep c.action c.params)
          (sleep, st.device_sleep_configs) in
      (record st { device_sleep_configs = configs }, applying p sleep' cs cmds)
  advance now (remembering c cmd) st = (
    record st { device_sleep_configs = remember_sleep json out h now c st.device_sleep_configs },
    queueing c cmd,
  )
  advance now (queueing c cmd) st =
      let (s, error) = h.repo.queue_command now c.device_id cmd st.outside.store in
      (
        with_store st s,
        or_failure (utf8 "ERROR") error (answered (queued cmd.command_id c.device_id c.action)),
      )
  advance now (acking a) st = (
    with_store st (h.repo.ack_command now a.device_id a.command_id a.result st.outside.store).0,
    answered ack_recorded,
  )
  advance now (recording e) st =
      let (s, error) = h.repo.save_event now e st.outside.store in
      (with_store st s, or_failure (utf8 "ERROR") error (answered (event_recorded now)))
  advance now (answered reply) st = (st, answered reply)

  -- The turn of the request at a position among the requests.
  unfoldable pub turn : ℕ → ℕ → List Phase → ApiState S → ApiState S × List Phase
  turn now i [] st = (st, [])
  turn now zero (ph ∷ phs) st = let (st', ph') = advance now ph st in (st', ph' ∷ phs)
  turn now (suc i) (ph ∷ phs) st = let (st', phs') = turn now i phs st in (st', ph ∷ phs')

  -- The turns of a schedule, each with the time and the position.
  unfoldable pub turns : List (ℕ × ℕ) → List Phase → ApiState S → ApiState S × List Phase
  turns [] phs st = (st, phs)
  turns ((now, i) ∷ rest) phs st = let (st', phs') = turn now i phs st in turns rest phs' st'
