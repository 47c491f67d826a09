-- ===== src/Api/Sleep.antt =====
-- The sleep interval that a device is told: `HandleQueueCommand` and then `HandleTelemetry` of
-- server/api/handlers/telemetry_handler.go, over the repository in memory.
use iot_server.Base.{
  ℕ, ◌≡◌, refl, ap, ◌∙◌, true, false, Option, some, List, [], ◌∷◌, ◌++◌, arith, ltb, subst,
  if◌then◌else◌,
}
use mathlib.Core.Option
use iot_server.Base.Text.{Bytes, utf8, bytes_eq, digits, bytes_eq_refl}
use iot_server.Base.Float.{Float64}
use iot_server.Base.Assoc.{Assoc, insert, lookup-insert_self}
use iot_server.Models.{TelemetryPayload, DeviceCommand, OtaInfo, ApiResponse}
use iot_server.Storage.Memory
use iot_server.Storage.Memory.{InMemoryRepository, get_slice}
use iot_server.Storage.Memory.History.{find_or_create-others}
use iot_server.Alerting.Rules.{RuleThresholds, alerts_of}
use iot_server.Alerting.Engine.{evaluate_and_alert}
use iot_server.Alerting.Records.{dispatch_all-elsewhere}
use iot_server.Api.Requests.{Request, CommandRequest, Json, Reply, accepted, to_uint32}
use iot_server.Api.Handlers.{ApiState, respond, accept, handle_queue_command}
use iot_server.Api.Answers.{apply_request, apply_configs, requested_sleep, ota_for}
use iot_server.Api.Effects.{memory_handler}

-- The last command of a device decides its interval, if it asks for one.
apply_configs-last :
    (out : Float64 → ℕ) (id : Bytes) (cs : List DeviceCommand) (c : DeviceCommand) (x : Float64)
    (s : ℕ × Assoc ℕ)
    → requested_sleep c.action c.params ≡ some x
    → (apply_configs out id (cs ++ (c ∷ [])) s).0 ≡ to_uint32 out x
unfolding apply_configs
apply_configs-last out id [] c x s h = ap (λ z. (apply_request out id z s).0) h
apply_configs-last out id (b ∷ cs) c x s h =
    apply_configs-last out id cs c x (apply_request out id (requested_sleep b.action b.params) s) h

pub get_slice-insert_self {ℓ} :
    {A : Type ℓ} (k : Bytes) (xs : List A) (m : Assoc (List A)) → get_slice k (insert k xs m) ≡ xs
unfolding get_slice
get_slice-insert_self k xs m = ground (arith, lookup-insert_self k xs m)

-- The command that `HandleQueueCommand` makes of a request.
abbrev pub command_of : ℕ → CommandRequest → DeviceCommand
command_of nanos c = record {
  command_id = utf8 "cmd-" ++ digits nanos;
  action = c.action;
  params = c.params;
}

-- The answer to a message of a device for which `cs` are pending and `sleep` is the interval.
abbrev pub answer : ℕ → Option OtaInfo → TelemetryPayload → List DeviceCommand → ℕ → ApiResponse
answer now ota p cs sleep = record {
  status = utf8 "OK";
  message = utf8 "Telemetry accepted";
  server_time = now;
  sleep_interval_sec = if ltb p.metrics.battery_level_pct 20 then 300 else sleep;
  ota = some (ota_for ota p.header.firmware_version);
  commands = cs;
}

-- Only a command with an action asks for an interval.
requested_sleep-action :
    (action : Bytes) (params : _) (x : Float64)
    → requested_sleep action params ≡ some x
    → bytes_eq action [] ≡ false
requested_sleep-action [] params x h = unfold bytes_eq in ground (arith, h)
requested_sleep-action (a ∷ as') params x h = unfold bytes_eq in refl

module _ (json : Json) (out : Float64 → ℕ) (ota : Option OtaInfo) (th : RuleThresholds)
    (url : Bytes) (now : ℕ) (p : TelemetryPayload) where
  respond-last :
      (st : ApiState InMemoryRepository) (cs : List DeviceCommand) (c : DeviceCommand) (x : Float64)
      → get_slice p.header.device_id st.outside.store.commands ≡ cs ++ (c ∷ [])
      → requested_sleep c.action c.params ≡ some x
      → (respond json out (memory_handler ota th url) now p st).1
        ≡ accepted (answer now ota p (cs ++ (c ∷ [])) (to_uint32 out x))
  unfolding respond evaluate_and_alert Memory.get_pending_commands
  respond-last st cs c x pending asked =
      let id = p.header.device_id in
      let e = dispatch_all-elsewhere th url now p.header (alerts_of th now p) st.outside in
      let now_pending = ap (get_slice id) e.commands ∙ pending in
      rw (now_pending, apply_configs-last out id cs c x _ asked) refl

  pub save_telemetry-commands :
      (r : InMemoryRepository) → (Memory.save_telemetry now p r).0.commands ≡ r.commands
  unfolding Memory.save_telemetry
  save_telemetry-commands r = let (t, e, c) = find_or_create-others p.header.device_id r in c

  -- Where the new command is kept.
  queued-commands :
      (nanos : ℕ) (req : Request) (body : Bytes) (c : CommandRequest)
      (st : ApiState InMemoryRepository)
      → bytes_eq req.method (utf8 "POST") ≡ true
      → req.body ≡ some body
      → json.decode_command body ≡ some c
      → bytes_eq c.device_id [] ≡ false
      → bytes_eq c.action [] ≡ false
      → get_slice c.device_id
          (handle_queue_command json out
            (memory_handler ota th url)
            now
            nanos
            req
            st).0.outside.store.commands
        ≡ get_slice c.device_id st.outside.store.commands ++ (command_of nanos c ∷ [])
  unfolding handle_queue_command Memory.queue_command Option.bind
  queued-commands nanos req body c st post b d named acts =
      let k = c.device_id in
      let got : Option.bind req.body json.decode_command ≡ some c =
        ap (λ z. Option.bind z json.decode_command) b ∙ d in
      ground (
        arith,
        post,
        got,
        named,
        acts,
        get_slice-insert_self k (get_slice k st.outside.store.commands ++ (command_of nanos c ∷ []))
            st.outside.store.commands,
      )

  -- A message of the authenticated device is stored and answered.
  pub accept-respond :
      (st : ApiState InMemoryRepository)
      → accept json out (memory_handler ota th url) now p.header.device_id p st
        ≡ respond json out (memory_handler ota th url) now p (record st {
          outside = record (st.outside) {
            store = (Memory.save_telemetry now p st.outside.store).0;
          };
        })
  unfolding accept Memory.save_telemetry
  accept-respond st = ground (arith, bytes_eq_refl p.header.device_id)

  -- An interval that was asked for reaches the device: after a CONFIG_UPDATE for a device with a
  -- positive interval `x` was queued, the next accepted message of the device, on the repository in
  -- memory, is answered with that interval, without its fraction where it is below 2 ^ 32 (and with
  -- what the conversion of Go makes of it else), or with 300 if the battery is below 20 percent, and with every
  -- command that waits, the new one last.
  pub accept-handle_queue_command :
      (nanos : ℕ) (req : Request) (body : Bytes) (c : CommandRequest) (x : Float64)
      (st : ApiState InMemoryRepository)
      → bytes_eq req.method (utf8 "POST") ≡ true
      → req.body ≡ some body
      → json.decode_command body ≡ some c
      → bytes_eq c.device_id [] ≡ false
      → c.device_id ≡ p.header.device_id
      → requested_sleep c.action c.params ≡ some x
      → let h = memory_handler ota th url in
        let st' = (handle_queue_command json out h now nanos req st).0 in
        let cs =
          get_slice p.header.device_id st.outside.store.commands ++ (command_of nanos c ∷ []) in
        (accept json out h now p.header.device_id p st').1
        ≡ accepted (answer now ota p cs (to_uint32 out x))
  accept-handle_queue_command nanos req body c x st post b d named same asked =
      let h = memory_handler ota th url in
      let st' = (handle_queue_command json out h now nanos req st).0 in
      let queued =
        queued-commands nanos req body c st post b d named
          (requested_sleep-action c.action c.params x asked) in
      let at_id =
        subst
          (λ z.
            get_slice z st'.outside.store.commands
            ≡ get_slice z st.outside.store.commands ++ (command_of nanos c ∷ []))
          same queued in
      ap (λ (z : ApiState InMemoryRepository × Reply). z.1) (accept-respond st')
      ∙ respond-last _ _ (command_of nanos c) x
          (ap (get_slice p.header.device_id) (save_telemetry-commands st'.outside.store) ∙ at_id)
          asked
