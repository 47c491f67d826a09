-- ===== src/Serializer/Telemetry.antt =====
-- `serialize_telemetry_protobuf` of edge/middleware/serializer/protobuf_serializer.c, over the
-- `telemetry_data_t` of edge/middleware/serializer/telemetry_serializer.h.
use iot_server.Base.{ℕ, Option, none, some, ◌||◌, ◌++◌, length, ltb, if◌then◌else◌}
use iot_server.Base.Text.{Bytes, utf8, bytes_eq}
use iot_server.Base.Int.{ℤ, unsigned}
use iot_server.Serializer.Wire.{
  encode_varint, encode_tag, encode_string_field, encode_varint_field, encode_float_field,
  wire_length_delimited,
}

-- A string is `none` for NULL; a float is its bit pattern.
pub record TelemetryData : Type 0 where
  pub device_id : Option Bytes
  pub timestamp : ℕ
  pub seq_no : ℕ
  pub firmware_version : Option Bytes
  pub boot_count : ℕ
  pub temperature : ℕ
  pub humidity : ℕ
  pub battery_voltage : ℕ
  pub battery_level_pct : ℕ
  pub rssi : ℤ
  pub interval_sec : ℕ
  pub state : Option Bytes
  pub uptime_sec : ℕ
  pub free_heap_bytes : ℕ

-- `refused` is the result -1. `overrun` is no result of C: a local buffer was written past its end.
pub data Serialized : Type 0 where
  refused : Serialized
  overrun : Serialized
  written : Bytes → Serialized

abbrev pub or_default : Option Bytes → Bytes → Bytes
or_default none d = d
or_default (some s) d = s

-- The contents of `header_buf`.
unfoldable pub header_bytes : TelemetryData → Bytes
header_bytes d =
    encode_string_field 1 (or_default d.device_id (utf8 "UNKNOWN"))
    ++ (encode_varint_field 2 d.timestamp
        ++ (encode_varint_field 3 d.seq_no
            ++ (encode_string_field 4 (or_default d.firmware_version (utf8 "1.0.0"))
                ++ encode_varint_field 5 d.boot_count)))

-- The contents of `metrics_buf`.
unfoldable pub metrics_bytes : TelemetryData → Bytes
metrics_bytes d =
    encode_float_field 1 d.temperature
    ++ (encode_float_field 2 d.humidity
        ++ (encode_float_field 3 d.battery_voltage
            ++ (encode_varint_field 4 d.battery_level_pct
                ++ (encode_varint_field 5 (unsigned 64 d.rssi)
                    ++ encode_varint_field 6 d.interval_sec))))

unfoldable pub state_enum : Option Bytes → ℕ
state_enum none = 0
state_enum (some s) =
    if bytes_eq s (utf8 "LOW_POWER")
    then 1
    else if bytes_eq s (utf8 "WARNING")
    then 2
    else if bytes_eq s (utf8 "ERROR")
    then 3
    else 0

-- The contents of `status_buf`.
unfoldable pub status_bytes : TelemetryData → Bytes
status_bytes d =
    encode_varint_field 1 (state_enum d.state)
    ++ (encode_varint_field 2 d.uptime_sec ++ encode_varint_field 3 d.free_heap_bytes)

-- Tag, length and contents of one part of the root message.
unfoldable pub root_field : ℕ → Bytes → Bytes
root_field n sub = encode_tag n wire_length_delimited ++ (encode_varint (length sub) ++ sub)

unfoldable pub root_bytes : TelemetryData → Bytes
root_bytes d =
    root_field 1 (header_bytes d)
    ++ (root_field 2 (metrics_bytes d) ++ root_field 3 (status_bytes d))

-- `header_buf` and `metrics_buf` hold 64 bytes, `status_buf` 32 and `out_buffer` `buffer_size`.
unfoldable pub serialize_telemetry_protobuf : TelemetryData → ℕ → Serialized
serialize_telemetry_protobuf d buffer_size =
    if ltb buffer_size 128
    then refused
    else if ltb 64 (length (header_bytes d))
        || ltb 64 (length (metrics_bytes d))
        || ltb 32 (length (status_bytes d))
        || ltb buffer_size (length (root_bytes d))
    then overrun
    else written (root_bytes d)
