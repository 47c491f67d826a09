-- ===== src/Api/Answers.antt =====
-- What `HandleTelemetry` of server/api/handlers/telemetry_handler.go decides with: how the body is
-- decoded, the update that is announced, the interval to sleep and the commands that wait.
use iot_server.Base.{
  ◌++◌, ℕ, false, not, ◌||◌, Option, none, some, List, [], ◌∷◌, ◌==◌, if◌then◌else◌,
}
use iot_server.Base.Text.{Bytes, utf8, bytes_eq}
use iot_server.Base.Float.{Float64}
use iot_server.Base.Assoc.{Assoc, lookup, insert}
use iot_server.Models.{TelemetryPayload, DeviceCommand, OtaInfo, Entries}
use iot_server.Decoder.Outcome.{Outcome}
use iot_server.Decoder.Messages.{decode_telemetry_protobuf}
use iot_server.Storage.Interface.{Result, ok, err}
use iot_server.Api.Requests.{Json, contains, sleep_param, to_uint32}

abbrev no_ota : OtaInfo
no_ota = record {
  available = false;
  target_version = [];
  package_url = [];
  sha256 = [];
  size_bytes = 0;
  mandatory = false;
}

-- Whether an update is announced: the versions differ.
unfoldable pub ota_for : Option OtaInfo → Bytes → OtaInfo
ota_for none version = no_ota
ota_for (some ota) version = if not (bytes_eq version ota.target_version) then ota else no_ota

abbrev default_sleep : ℕ
default_sleep = 60

-- `if !exists || sleepIntervalSec == 0 { sleepIntervalSec = 60 }`
unfoldable pub configured_sleep : Bytes → Assoc ℕ → ℕ
configured_sleep device_id configs = elim (lookup device_id configs) [
  | none ↦ default_sleep
  | some n ↦ if n == 0 then default_sleep else n
]

-- The interval that a CONFIG_UPDATE with a positive `sleep_interval_sec` asks for.
abbrev pub requested_sleep : Bytes → Option Entries → Option Float64
requested_sleep action params =
    if bytes_eq action (utf8 "CONFIG_UPDATE") then sleep_param params else none

abbrev pub apply_request : (Float64 → ℕ) → Bytes → Option Float64 → ℕ × Assoc ℕ → ℕ × Assoc ℕ
apply_request out device_id none st = st
apply_request out device_id (some x) st = (to_uint32 out x, insert device_id (to_uint32 out x) st.1)

-- The loop over the pending commands: the sleep interval and the settings.
unfoldable pub apply_configs :
    (Float64 → ℕ) → Bytes → List DeviceCommand → ℕ × Assoc ℕ → ℕ × Assoc ℕ
apply_configs out device_id [] st = st
apply_configs out device_id (c ∷ cs) st =
    apply_configs out device_id cs
      (apply_request out device_id (requested_sleep c.action c.params) st)

-- The commands that `GetPendingCommands` gives; its error is dropped.
abbrev pub or_no_commands : Result (List DeviceCommand) → List DeviceCommand
or_no_commands (ok cs) = cs
or_no_commands (err e) = []

-- What decoding the body of a telemetry request comes to.
pub data Decoded : Type 0 where
  payload : TelemetryPayload → Decoded
  malformed : Decoded
  decoder_panics : Decoded
  decoder_runs_on : Decoded

abbrev decoded_protobuf : Outcome TelemetryPayload → Decoded
decoded_protobuf (Outcome.ok p) = payload p
decoded_protobuf (Outcome.err e) = malformed
decoded_protobuf Outcome.panic = decoder_panics
decoded_protobuf Outcome.unfinished = decoder_runs_on

abbrev decoded_json : Option TelemetryPayload → Decoded
decoded_json none = malformed
decoded_json (some p) = payload p

unfoldable pub decode_body : Json → ℕ → Bytes → Bytes → Decoded
decode_body json fuel content_type body =
    if contains content_type (utf8 "protobuf") || contains content_type (utf8 "octet-stream")
    then decoded_protobuf (decode_telemetry_protobuf fuel body)
    else decoded_json (json.unmarshal_telemetry body)

-- The last part of a path that is split at its slashes; `part` is what was read of the current one.
unfoldable pub last_part : Bytes → Bytes → Bytes
last_part part [] = part
last_part part (c ∷ cs) = last_part (if c == 47 then [] else part ++ (c ∷ [])) cs
