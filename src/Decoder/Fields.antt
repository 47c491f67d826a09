-- ===== src/Decoder/Fields.antt =====
-- The specification of the decoder: the fields that a telemetry message may hold, the bytes of each
-- in the Protocol Buffers encoding, and what each sets. It is the schema of
-- docs/schemas/iot_message.proto, as server/core/telemetry/proto_decoder.go reads it.
use mathlib.Core.List.{foldl}
use iot_server.Base.{
  ℕ, ◌%◌, ◌^◌, ◌≤◌, ◌<◌, ◌≡◌, Option, none, some, List, ◌++◌, length, All, ◌==◌, if◌then◌else◌,
}
use iot_server.Base.Text.{Bytes, utf8}
use iot_server.Base.Int.{signed}
use iot_server.Base.Float.{float32_from_bits}
use iot_server.Models.{MessageHeader, MetricsData, DeviceStatus, TelemetryPayload, zero_status}
use iot_server.Serializer.Wire.{
  encode_varint, encode_tag, encode_string_field, encode_varint_field, encode_float_field,
}
use iot_server.Decoder.Reader.{max_alloc}
use iot_server.Decoder.Takes.{IsSlice, all_bytes}

-- What stands behind the tag of a field that the schema does not have.
pub data Payload : Type 0 where
  varint : ℕ → Payload
  fixed64 : Bytes → Payload
  delimited : Bytes → Payload
  fixed32 : Bytes → Payload

unfoldable pub wire_type : Payload → ℕ
wire_type (varint v) = 0
wire_type (fixed64 bytes) = 1
wire_type (delimited bytes) = 2
wire_type (fixed32 bytes) = 5

unfoldable pub payload_bytes : Payload → Bytes
payload_bytes (varint v) = encode_varint v
payload_bytes (fixed64 bytes) = bytes
payload_bytes (delimited bytes) = encode_varint (length bytes) ++ bytes
payload_bytes (fixed32 bytes) = bytes

abbrev pub IsPayload : Payload → Type 0
IsPayload (varint v) = v < 2 ^ 64
IsPayload (fixed64 bytes) = length bytes ≡ 8
IsPayload (delimited bytes) = IsSlice bytes
IsPayload (fixed32 bytes) = length bytes ≡ 4

unfoldable pub unknown_bytes : ℕ → Payload → Bytes
unknown_bytes n p = encode_tag n (wire_type p) ++ payload_bytes p

-- The number of an unknown field: above those of the schema, and in Protocol Buffers' range.
abbrev pub IsUnknown : ℕ → ℕ → Payload → Type 0
IsUnknown known n p = (known < n) × (n < 2 ^ 29) × IsPayload p

-- A text that the decoder can allot.
abbrev pub IsText : Bytes → Type 0
IsText s = length s ≤ max_alloc

pub data HeaderField : Type 0 where
  device_id : Bytes → HeaderField
  timestamp : ℕ → HeaderField
  seq_no : ℕ → HeaderField
  firmware_version : Bytes → HeaderField
  boot_count : ℕ → HeaderField
  unknown : ℕ → Payload → HeaderField

unfoldable pub header_field_bytes : HeaderField → Bytes
header_field_bytes (device_id s) = encode_string_field 1 s
header_field_bytes (timestamp v) = encode_varint_field 2 v
header_field_bytes (seq_no v) = encode_varint_field 3 v
header_field_bytes (firmware_version s) = encode_string_field 4 s
header_field_bytes (boot_count v) = encode_varint_field 5 v
header_field_bytes (unknown n p) = unknown_bytes n p

abbrev pub IsHeaderField : HeaderField → Type 0
IsHeaderField (device_id s) = IsText s
IsHeaderField (timestamp v) = v < 2 ^ 64
IsHeaderField (seq_no v) = v < 2 ^ 64
IsHeaderField (firmware_version s) = IsText s
IsHeaderField (boot_count v) = v < 2 ^ 64
IsHeaderField (unknown n p) = IsUnknown 5 n p

abbrev pub set_header : MessageHeader → HeaderField → MessageHeader
set_header h (device_id s) = record h { device_id = s }
set_header h (timestamp v) = record h { timestamp = signed 64 v }
set_header h (seq_no v) = record h { seq_no = v % 2 ^ 32 }
set_header h (firmware_version s) = record h { firmware_version = s }
set_header h (boot_count v) = record h { boot_count = v % 2 ^ 32 }
set_header h (unknown n p) = h

-- A float is its bit pattern.
pub data MetricsField : Type 0 where
  temperature : ℕ → MetricsField
  humidity : ℕ → MetricsField
  battery_voltage : ℕ → MetricsField
  battery_level_pct : ℕ → MetricsField
  rssi : ℕ → MetricsField
  interval_sec : ℕ → MetricsField
  unknown : ℕ → Payload → MetricsField

unfoldable pub metrics_field_bytes : MetricsField → Bytes
metrics_field_bytes (temperature raw) = encode_float_field 1 raw
metrics_field_bytes (humidity raw) = encode_float_field 2 raw
metrics_field_bytes (battery_voltage raw) = encode_float_field 3 raw
metrics_field_bytes (battery_level_pct v) = encode_varint_field 4 v
metrics_field_bytes (rssi v) = encode_varint_field 5 v
metrics_field_bytes (interval_sec v) = encode_varint_field 6 v
metrics_field_bytes (unknown n p) = unknown_bytes n p

abbrev pub IsMetricsField : MetricsField → Type 0
IsMetricsField (temperature raw) = raw < 2 ^ 32
IsMetricsField (humidity raw) = raw < 2 ^ 32
IsMetricsField (battery_voltage raw) = raw < 2 ^ 32
IsMetricsField (battery_level_pct v) = v < 2 ^ 64
IsMetricsField (rssi v) = v < 2 ^ 64
IsMetricsField (interval_sec v) = v < 2 ^ 64
IsMetricsField (unknown n p) = IsUnknown 6 n p

abbrev pub set_metrics : MetricsData → MetricsField → MetricsData
set_metrics m (temperature raw) = record m { temperature = float32_from_bits raw }
set_metrics m (humidity raw) = record m { humidity = float32_from_bits raw }
set_metrics m (battery_voltage raw) = record m { battery_voltage = float32_from_bits raw }
set_metrics m (battery_level_pct v) = record m { battery_level_pct = v % 2 ^ 32 }
set_metrics m (rssi v) = record m { rssi = signed 32 v }
set_metrics m (interval_sec v) = record m { interval_sec = v % 2 ^ 32 }
set_metrics m (unknown n p) = m

pub data StatusField : Type 0 where
  state : ℕ → StatusField
  uptime_sec : ℕ → StatusField
  free_heap_bytes : ℕ → StatusField
  unknown : ℕ → Payload → StatusField

unfoldable pub status_field_bytes : StatusField → Bytes
status_field_bytes (state v) = encode_varint_field 1 v
status_field_bytes (uptime_sec v) = encode_varint_field 2 v
status_field_bytes (free_heap_bytes v) = encode_varint_field 3 v
status_field_bytes (unknown n p) = unknown_bytes n p

abbrev pub IsStatusField : StatusField → Type 0
IsStatusField (state v) = v < 2 ^ 64
IsStatusField (uptime_sec v) = v < 2 ^ 64
IsStatusField (free_heap_bytes v) = v < 2 ^ 64
IsStatusField (unknown n p) = IsUnknown 3 n p

-- The text of a state.
abbrev pub state_text : ℕ → Bytes
state_text v =
    if v == 1
    then utf8 "LOW_POWER"
    else if v == 2
    then utf8 "WARNING"
    else if v == 3
    then utf8 "ERROR"
    else utf8 "NORMAL"

abbrev pub set_status : DeviceStatus → StatusField → DeviceStatus
set_status s (state v) = record s { state = state_text v }
set_status s (uptime_sec v) = record s { uptime_sec = v % 2 ^ 32 }
set_status s (free_heap_bytes v) = record s { free_heap_bytes = v % 2 ^ 32 }
set_status s (unknown n p) = s

-- A part of the root message. A part that comes again is merged into what came before.
pub data MessageField : Type 0 where
  header : List HeaderField → MessageField
  metrics : List MetricsField → MessageField
  status : List StatusField → MessageField
  unknown : ℕ → Payload → MessageField

unfoldable pub message_field_bytes : MessageField → Bytes
message_field_bytes (header fs) = encode_string_field 1 (all_bytes header_field_bytes fs)
message_field_bytes (metrics fs) = encode_string_field 2 (all_bytes metrics_field_bytes fs)
message_field_bytes (status fs) = encode_string_field 3 (all_bytes status_field_bytes fs)
message_field_bytes (unknown n p) = unknown_bytes n p

-- `fuel` is enough for the fields of the part.
abbrev pub IsMessageField : ℕ → MessageField → Type 0
IsMessageField fuel (header fs) =
    All IsHeaderField fs × (length fs ≤ fuel) × IsText (all_bytes header_field_bytes fs)
IsMessageField fuel (metrics fs) =
    All IsMetricsField fs × (length fs ≤ fuel) × IsText (all_bytes metrics_field_bytes fs)
IsMessageField fuel (status fs) =
    All IsStatusField fs × (length fs ≤ fuel) × IsText (all_bytes status_field_bytes fs)
IsMessageField fuel (unknown n p) = IsUnknown 3 n p

abbrev merge_status : Option DeviceStatus → List StatusField → Option DeviceStatus
merge_status none fs = some (foldl set_status zero_status fs)
merge_status (some s) fs = some (foldl set_status s fs)

abbrev pub set_message : TelemetryPayload → MessageField → TelemetryPayload
set_message p (header fs) = record p { header = foldl set_header p.header fs }
set_message p (metrics fs) = record p { metrics = foldl set_metrics p.metrics fs }
set_message p (status fs) = record p { status = merge_status p.status fs }
set_message p (unknown n q) = p

unfoldable pub message_bytes : List MessageField → Bytes
message_bytes fs = all_bytes message_field_bytes fs

-- The status is a pointer that is not nil.
abbrev pub HasStatus : Option DeviceStatus → Type 0
HasStatus none = ⊥
HasStatus (some s) = Unit
