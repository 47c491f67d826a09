-- ===== src/Decoder/Device.antt =====
-- The server's decoder on what the device's encoder writes: `DecodeTelemetryProtobuf` of
-- server/core/telemetry/proto_decoder.go after `serialize_telemetry_protobuf` of
-- edge/middleware/serializer/protobuf_serializer.c.
use mathlib.Core.List.{foldl}
use iot_server.Base.{
  ℕ, ◌^◌, ◌≤◌, ◌<◌, ◌≡◌, none, some, ap, sym, ◌∙◌, List, [], ◌∷◌, append-nil, arith, length, All,
  refl, ◌||◌, Option, if◌then◌else◌, subst,
}
use iot_server.Base.Text.{Bytes, utf8, bytes_eq, bytes_eq_iff}
use iot_server.Base.Int.{ℤ, pos, negsuc, signed, unsigned}
use iot_server.Base.Float.{float32_from_bits}
use iot_server.Models.{TelemetryPayload}
use iot_server.Serializer.Telemetry.{
  TelemetryData, or_default, written, header_bytes, metrics_bytes, status_bytes, state_enum,
  root_field, root_bytes, serialize_telemetry_protobuf,
}
use iot_server.Serializer.Wire.{encode_string_field}
use iot_server.Serializer.Bounds.{
  IsTelemetryData, IsInt32, id_text, version_text, text_size, serialize_writes, state_enum-lt,
  header_size, metrics_size, status_size, root_size,
}
use iot_server.Decoder.Outcome.{ok}
use iot_server.Decoder.Messages.{empty_payload, decode_telemetry_protobuf}
use iot_server.Decoder.Takes.{all_bytes}
use iot_server.Decoder.Fields.{
  HeaderField, MetricsField, StatusField, MessageField, IsHeaderField, IsMetricsField,
  IsStatusField, IsMessageField, header_field_bytes, metrics_field_bytes, status_field_bytes,
  message_field_bytes, message_bytes, set_message, state_text,
}
use iot_server.Decoder.Root.{decode-message_bytes}

-- A text, or what stands for a missing one.
abbrev text_or : Option Bytes → Bytes → Bytes
text_or none other = other
text_or (some s) other = s

or_default-text_or : (s : Option Bytes) (other : Bytes) → or_default s other ≡ text_or s other
or_default-text_or none other = refl
or_default-text_or (some s) other = refl

-- A state that the server knows, and NORMAL for any other and for none.
abbrev reported_state : Option Bytes → Bytes
reported_state none = utf8 "NORMAL"
reported_state (some s) =
    if bytes_eq s (utf8 "LOW_POWER") || (bytes_eq s (utf8 "WARNING") || bytes_eq s (utf8 "ERROR"))
    then s
    else utf8 "NORMAL"

reported_state-state_text : (s : Option Bytes) → state_text (state_enum s) ≡ reported_state s
unfolding state_enum
reported_state-state_text none = refl
reported_state-state_text (some s) = ground (
  arith,
  bytes_eq_iff s (utf8 "LOW_POWER"),
  bytes_eq_iff s (utf8 "WARNING"),
  bytes_eq_iff s (utf8 "ERROR"),
)

-- The payload that the server is meant to get for the device's data.
abbrev pub payload_of : TelemetryData → TelemetryPayload
payload_of d = record {
  header = record {
    device_id = text_or d.device_id (utf8 "UNKNOWN");
    timestamp = pos d.timestamp;
    seq_no = d.seq_no;
    firmware_version = text_or d.firmware_version (utf8 "1.0.0");
    boot_count = d.boot_count;
  };
  metrics = record {
    temperature = float32_from_bits d.temperature;
    humidity = float32_from_bits d.humidity;
    battery_voltage = float32_from_bits d.battery_voltage;
    battery_level_pct = d.battery_level_pct;
    rssi = d.rssi;
    interval_sec = d.interval_sec;
    custom_values = none;
  };
  status = some (record {
    state = reported_state d.state;
    uptime_sec = d.uptime_sec;
    free_heap_bytes = d.free_heap_bytes;
  });
}

header_fields : TelemetryData → List HeaderField
header_fields d =
    HeaderField.device_id (id_text d)
    ∷ HeaderField.timestamp d.timestamp
    ∷ HeaderField.seq_no d.seq_no
    ∷ HeaderField.firmware_version (version_text d)
    ∷ HeaderField.boot_count d.boot_count
    ∷ []

metrics_fields : TelemetryData → List MetricsField
metrics_fields d =
    MetricsField.temperature d.temperature
    ∷ MetricsField.humidity d.humidity
    ∷ MetricsField.battery_voltage d.battery_voltage
    ∷ MetricsField.battery_level_pct d.battery_level_pct
    ∷ MetricsField.rssi (unsigned 64 d.rssi)
    ∷ MetricsField.interval_sec d.interval_sec
    ∷ []

status_fields : TelemetryData → List StatusField
status_fields d =
    StatusField.state (state_enum d.state)
    ∷ StatusField.uptime_sec d.uptime_sec
    ∷ StatusField.free_heap_bytes d.free_heap_bytes
    ∷ []

message_fields : TelemetryData → List MessageField
message_fields d =
    MessageField.header (header_fields d)
    ∷ MessageField.metrics (metrics_fields d)
    ∷ MessageField.status (status_fields d)
    ∷ []

-- The device writes these fields.
header_bytes-fields :
    (d : TelemetryData) → header_bytes d ≡ all_bytes header_field_bytes (header_fields d)
unfolding header_bytes all_bytes header_field_bytes header_fields
header_bytes-fields d = simp append-nil

metrics_bytes-fields :
    (d : TelemetryData) → metrics_bytes d ≡ all_bytes metrics_field_bytes (metrics_fields d)
unfolding metrics_bytes all_bytes metrics_field_bytes metrics_fields
metrics_bytes-fields d = simp append-nil

status_bytes-fields :
    (d : TelemetryData) → status_bytes d ≡ all_bytes status_field_bytes (status_fields d)
unfolding status_bytes all_bytes status_field_bytes status_fields
status_bytes-fields d = simp append-nil

root_bytes-fields : (d : TelemetryData) → root_bytes d ≡ message_bytes (message_fields d)
unfolding root_bytes root_field message_bytes all_bytes message_field_bytes encode_string_field
    message_fields
root_bytes-fields d =
    simp (append-nil, header_bytes-fields d, metrics_bytes-fields d, status_bytes-fields d)

signed-unsigned : (x : ℤ) → IsInt32 x → signed 32 (unsigned 64 x) ≡ x
unfolding signed unsigned
signed-unsigned (pos n) h = ground arith
signed-unsigned (negsuc n) h = ground arith

unsigned-lt : (x : ℤ) → unsigned 64 x < 2 ^ 64
unfolding unsigned
unsigned-lt (pos n) = omega arith
unsigned-lt (negsuc n) = omega arith

int64_small : (v : ℕ) → v < 2 ^ 32 → signed 64 v ≡ pos v
unfolding signed
int64_small v h = ground arith

header_fields-good :
    (d : TelemetryData) → IsTelemetryData d → text_size d ≤ 42 → All IsHeaderField (header_fields d)
unfolding header_fields
header_fields-good d v short = omega arith

metrics_fields-good :
    (d : TelemetryData) → IsTelemetryData d → All IsMetricsField (metrics_fields d)
unfolding metrics_fields
metrics_fields-good d v = omega (arith, unsigned-lt d.rssi)

status_fields-good : (d : TelemetryData) → IsTelemetryData d → All IsStatusField (status_fields d)
unfolding status_fields
status_fields-good d v = omega (arith, state_enum-lt d.state)

message_fields-good :
    (d : TelemetryData) (fuel : ℕ)
    → IsTelemetryData d
    → text_size d ≤ 42
    → 6 ≤ fuel
    → All (IsMessageField fuel) (message_fields d)
unfolding message_fields
message_fields-good d fuel v short enough = (
  (
    header_fields-good d v short,
    unfold header_fields in omega arith,
    subst (λ s. length s ≤ 2 ^ 48) (header_bytes-fields d) (omega (arith, header_size d v short)),
  ),
  (
    (
      metrics_fields-good d v,
      unfold metrics_fields in omega arith,
      subst (λ s. length s ≤ 2 ^ 48) (metrics_bytes-fields d) (omega (arith, metrics_size d v)),
    ),
    (
      (
        status_fields-good d v,
        unfold status_fields in omega arith,
        subst (λ s. length s ≤ 2 ^ 48) (status_bytes-fields d) (omega (arith, status_size d v)),
      ),
      tt,
    ),
  ),
)

-- What the fields set is what the device meant.
fields-payload_of :
    (d : TelemetryData)
    → IsTelemetryData d
    → foldl set_message empty_payload (message_fields d) ≡ payload_of d
unfolding message_fields header_fields metrics_fields status_fields
fields-payload_of d v = ground (
  arith,
  signed-unsigned d.rssi,
  int64_small d.timestamp,
  reported_state-state_text d.state,
  or_default-text_or d.device_id (utf8 "UNKNOWN"),
  or_default-text_or d.firmware_version (utf8 "1.0.0"),
)

-- Total correctness of the wire format. With texts of 42 bytes in all and an output buffer of 128,
-- the device writes a message, and the server decodes it, with any fuel of at least 6, to the
-- device's data: every number, float pattern and text is kept, a missing
-- identifier is UNKNOWN and a missing version 1.0.0, and a state that is none of
-- LOW_POWER, WARNING and ERROR becomes NORMAL.
pub decode-serialize :
    (d : TelemetryData) (buffer_size fuel : ℕ)
    → IsTelemetryData d
    → text_size d ≤ 42
    → 128 ≤ buffer_size
    → 6 ≤ fuel
    → (bytes : Bytes) × (serialize_telemetry_protobuf d buffer_size ≡ written bytes)
      × (decode_telemetry_protobuf fuel bytes ≡ ok (payload_of d))
decode-serialize d size fuel v short large enough = (
  root_bytes d,
  serialize_writes d size v short large,
  subst (λ s. decode_telemetry_protobuf fuel s ≡ ok (payload_of d)) (sym (root_bytes-fields d))
      (decode-message_bytes (message_fields d) fuel (message_fields-good d fuel v short enough)
          (unfold message_fields in omega arith)
          (subst (λ s. length s < 2 ^ 63) (root_bytes-fields d) small)
        ∙ ap ok (fields-payload_of d v)),
)
  where
    small : length (root_bytes d) < 2 ^ 63
    small =
        let h = header_size d v short in
        omega (arith, root_size d (omega arith) (metrics_size d v) (status_size d v))
