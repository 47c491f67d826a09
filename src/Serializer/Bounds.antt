-- ===== src/Serializer/Bounds.antt =====
-- When the fixed buffers of edge/middleware/serializer/protobuf_serializer.c are large enough.
use iot_server.Base.{ℕ, ◌+◌, ◌^◌, ◌≤◌, ◌<◌, ◌≡◌, Option, ◌++◌, arith, length, length-append}
use iot_server.Base.Text.{Bytes, utf8}
use iot_server.Base.Int.{ℤ, pos, negsuc, unsigned}
use iot_server.Serializer.Wire.{encode_string_field, encode_varint_field, encode_float_field}
use iot_server.Serializer.Telemetry.{
  TelemetryData, written, or_default, header_bytes, metrics_bytes, status_bytes, state_enum,
  root_field, root_bytes, serialize_telemetry_protobuf,
}
use iot_server.Serializer.Sizes.{uint32_field, uint64_field, float_field, string_field}

abbrev pub IsInt32 : ℤ → Type 0
IsInt32 (pos n) = n < 2 ^ 31
IsInt32 (negsuc n) = n < 2 ^ 31

-- What the C types of `telemetry_data_t` hold.
pub record IsTelemetryData (d : TelemetryData) : Type 0 where
  pub timestamp_fits : d.timestamp < 2 ^ 32
  pub seq_no_fits : d.seq_no < 2 ^ 32
  pub boot_count_fits : d.boot_count < 2 ^ 32
  pub temperature_fits : d.temperature < 2 ^ 32
  pub humidity_fits : d.humidity < 2 ^ 32
  pub battery_voltage_fits : d.battery_voltage < 2 ^ 32
  pub battery_level_pct_fits : d.battery_level_pct < 2 ^ 32
  pub rssi_fits : IsInt32 d.rssi
  pub interval_sec_fits : d.interval_sec < 2 ^ 32
  pub uptime_sec_fits : d.uptime_sec < 2 ^ 32
  pub free_heap_bytes_fits : d.free_heap_bytes < 2 ^ 32

abbrev pub id_text : TelemetryData → Bytes
id_text d = or_default d.device_id (utf8 "UNKNOWN")

abbrev pub version_text : TelemetryData → Bytes
version_text d = or_default d.firmware_version (utf8 "1.0.0")

-- The bytes of the two texts of the header.
abbrev pub text_size : TelemetryData → ℕ
text_size d = length (id_text d) + length (version_text d)

pub header_size :
    (d : TelemetryData)
    → IsTelemetryData d
    → text_size d ≤ 42
    → length (header_bytes d) ≤ text_size d + 22
unfolding header_bytes
header_size d v short =
    let a = encode_string_field 1 (id_text d) in
    let b = encode_varint_field 2 d.timestamp in
    let c = encode_varint_field 3 d.seq_no in
    let e = encode_string_field 4 (version_text d) in
    let f = encode_varint_field 5 d.boot_count in
    omega (
      arith,
      length-append {0} a (b ++ (c ++ (e ++ f))),
      length-append {0} b (c ++ (e ++ f)),
      length-append {0} c (e ++ f),
      length-append {0} e f,
      string_field 1 (id_text d) (omega arith) (omega arith),
      uint32_field 2 d.timestamp (omega arith) v.timestamp_fits,
      uint32_field 3 d.seq_no (omega arith) v.seq_no_fits,
      string_field 4 (version_text d) (omega arith) (omega arith),
      uint32_field 5 d.boot_count (omega arith) v.boot_count_fits,
    )

pub metrics_size : (d : TelemetryData) → IsTelemetryData d → length (metrics_bytes d) ≤ 38
unfolding metrics_bytes
metrics_size d v =
    let a = encode_float_field 1 d.temperature in
    let b = encode_float_field 2 d.humidity in
    let c = encode_float_field 3 d.battery_voltage in
    let e = encode_varint_field 4 d.battery_level_pct in
    let f = encode_varint_field 5 (unsigned 64 d.rssi) in
    let g = encode_varint_field 6 d.interval_sec in
    omega (
      arith,
      length-append {0} a (b ++ (c ++ (e ++ (f ++ g)))),
      length-append {0} b (c ++ (e ++ (f ++ g))),
      length-append {0} c (e ++ (f ++ g)),
      length-append {0} e (f ++ g),
      length-append {0} f g,
      float_field 1 d.temperature (omega arith),
      float_field 2 d.humidity (omega arith),
      float_field 3 d.battery_voltage (omega arith),
      uint32_field 4 d.battery_level_pct (omega arith) v.battery_level_pct_fits,
      uint64_field 5 (unsigned 64 d.rssi) (omega arith),
      uint32_field 6 d.interval_sec (omega arith) v.interval_sec_fits,
    )

pub state_enum-lt : (s : Option Bytes) → state_enum s < 4
unfolding state_enum
state_enum-lt s = ground arith

pub status_size : (d : TelemetryData) → IsTelemetryData d → length (status_bytes d) ≤ 18
unfolding status_bytes
status_size d v =
    let a = encode_varint_field 1 (state_enum d.state) in
    let b = encode_varint_field 2 d.uptime_sec in
    let c = encode_varint_field 3 d.free_heap_bytes in
    omega (
      arith,
      length-append {0} a (b ++ c),
      length-append {0} b c,
      uint32_field 1 (state_enum d.state) (omega arith) (omega (arith, state_enum-lt d.state)),
      uint32_field 2 d.uptime_sec (omega arith) v.uptime_sec_fits,
      uint32_field 3 d.free_heap_bytes (omega arith) v.free_heap_bytes_fits,
    )

root_field_size :
    (n : ℕ) (s : Bytes) → n < 8 → length s < 128 → length (root_field n s) ≤ length s + 2
unfolding root_field
root_field_size n s hn h = unfold encode_string_field in string_field n s hn h

pub root_size :
    (d : TelemetryData)
    → length (header_bytes d) ≤ 64
    → length (metrics_bytes d) ≤ 38
    → length (status_bytes d) ≤ 18
    → length (root_bytes d) ≤ 126
unfolding root_bytes
root_size d h m s =
    let a = root_field 1 (header_bytes d) in
    let b = root_field 2 (metrics_bytes d) in
    let c = root_field 3 (status_bytes d) in
    omega (
      arith,
      length-append {0} a (b ++ c),
      length-append {0} b c,
      root_field_size 1 (header_bytes d) (omega arith) (omega arith),
      root_field_size 2 (metrics_bytes d) (omega arith) (omega arith),
      root_field_size 3 (status_bytes d) (omega arith) (omega arith),
    )

-- With texts of 42 bytes in all, the fixed buffers and the demanded 128 bytes of output are large
-- enough: the encoder writes the whole message.
pub serialize_writes :
    (d : TelemetryData) (buffer_size : ℕ)
    → IsTelemetryData d
    → text_size d ≤ 42
    → 128 ≤ buffer_size
    → serialize_telemetry_protobuf d buffer_size ≡ written (root_bytes d)
unfolding serialize_telemetry_protobuf
serialize_writes d size v short large =
    let h = header_size d v short in
    let m = metrics_size d v in
    let s = status_size d v in let t = root_size d (omega arith) m s in ground arith
