-- ===== src/Decoder/Parts.antt =====
-- `parseHeader`, `parseMetrics` and `parseStatus` of server/core/telemetry/proto_decoder.go on
-- sequences of whole fields.
use mathlib.Core.List.{foldl}
use iot_server.Base.{ℕ, ◌/◌, ◌%◌, ◌≤◌, ◌≡◌, refl, List, arith, length, All}
use iot_server.Models.{MessageHeader, MetricsData, DeviceStatus}
use iot_server.Decoder.Outcome.{Outcome, ok}
use iot_server.Decoder.Reader.{Reader, new_reader, read_uvarint}
use iot_server.Decoder.Reads.{read_string-read_delimited}
use iot_server.Decoder.Messages.{
  Round, with_tag, header_value, metrics_value, status_value, parse_header, parse_metrics,
  parse_status,
}
use iot_server.Decoder.Takes.{IsSlice, Takes, all_bytes, while_reading-all_bytes}
use iot_server.Decoder.Forms.{varint-Takes, float-Takes, string-Takes, unknown-Takes}
use iot_server.Decoder.Fields.{
  HeaderField, IsHeaderField, header_field_bytes, set_header, MetricsField, IsMetricsField,
  metrics_field_bytes, set_metrics, StatusField, IsStatusField, status_field_bytes, set_status,
}

-- The bodies of the loops of the three parts read the tag first.
with_tag_lem {ℓ} :
    {M : Type ℓ} (value : ℕ → ℕ → Reader → M → Outcome (Round M)) (r r' : Reader) (tag : ℕ) (m : M)
    → read_uvarint r ≡ ok (tag, r')
    → with_tag value r m ≡ value (tag / 8) (tag % 8) r' m
with_tag_lem value r r' tag m e = rw (e, with_tag)

header-Takes :
    (f : HeaderField) (h : MessageHeader)
    → IsHeaderField f
    → Takes (with_tag header_value) h (header_field_bytes f) (set_header h f)
unfolding header_field_bytes header_value
header-Takes (HeaderField.device_id str) h good =
    string-Takes _ header_value (with_tag_lem header_value) 1 str h _ (omega arith) good
      λ r r' e. ground (arith, read_string-read_delimited r)
header-Takes (HeaderField.timestamp v) h good =
    varint-Takes _ header_value (with_tag_lem header_value) 2 v h
      (λ w. set_header h (HeaderField.timestamp w)) (omega arith) good λ r r' w e. ground arith
header-Takes (HeaderField.seq_no v) h good =
    varint-Takes _ header_value (with_tag_lem header_value) 3 v h
      (λ w. set_header h (HeaderField.seq_no w)) (omega arith) good λ r r' w e. ground arith
header-Takes (HeaderField.firmware_version str) h good =
    string-Takes _ header_value (with_tag_lem header_value) 4 str h _ (omega arith) good
      λ r r' e. ground (arith, read_string-read_delimited r)
header-Takes (HeaderField.boot_count v) h good =
    varint-Takes _ header_value (with_tag_lem header_value) 5 v h
      (λ w. set_header h (HeaderField.boot_count w)) (omega arith) good λ r r' w e. ground arith
header-Takes (HeaderField.unknown n p) h good =
    unknown-Takes _ header_value (with_tag_lem header_value) 5 n p h good λ r r' w e. ground arith

-- `parseHeader` sets what the fields say, one after the other.
pub parse_header-all_bytes :
    (fs : List HeaderField) (fuel : ℕ) (h : MessageHeader)
    → All IsHeaderField fs
    → length fs ≤ fuel
    → IsSlice (all_bytes header_field_bytes fs)
    → parse_header fuel (all_bytes header_field_bytes fs) h ≡ ok (foldl set_header h fs)
unfolding parse_header
parse_header-all_bytes fs fuel h good enough slice =
    while_reading-all_bytes IsHeaderField header_field_bytes set_header (with_tag header_value)
      (λ _. Unit {0}) (λ f x _. tt) (λ f x _. header-Takes f x) fs fuel
      (new_reader (all_bytes header_field_bytes fs)) h tt good enough slice refl

metrics-Takes :
    (f : MetricsField) (m : MetricsData)
    → IsMetricsField f
    → Takes (with_tag metrics_value) m (metrics_field_bytes f) (set_metrics m f)
unfolding metrics_field_bytes metrics_value
metrics-Takes (MetricsField.temperature v) m good =
    float-Takes _ metrics_value (with_tag_lem metrics_value) 1 v m
      (λ w. set_metrics m (MetricsField.temperature w)) (omega arith) good λ r r' w e. ground arith
metrics-Takes (MetricsField.humidity v) m good =
    float-Takes _ metrics_value (with_tag_lem metrics_value) 2 v m
      (λ w. set_metrics m (MetricsField.humidity w)) (omega arith) good λ r r' w e. ground arith
metrics-Takes (MetricsField.battery_voltage v) m good =
    float-Takes _ metrics_value (with_tag_lem metrics_value) 3 v m
      (λ w. set_metrics m (MetricsField.battery_voltage w)) (omega arith) good
      λ r r' w e. ground arith
metrics-Takes (MetricsField.battery_level_pct v) m good =
    varint-Takes _ metrics_value (with_tag_lem metrics_value) 4 v m
      (λ w. set_metrics m (MetricsField.battery_level_pct w)) (omega arith) good
      λ r r' w e. ground arith
metrics-Takes (MetricsField.rssi v) m good =
    varint-Takes _ metrics_value (with_tag_lem metrics_value) 5 v m
      (λ w. set_metrics m (MetricsField.rssi w)) (omega arith) good λ r r' w e. ground arith
metrics-Takes (MetricsField.interval_sec v) m good =
    varint-Takes _ metrics_value (with_tag_lem metrics_value) 6 v m
      (λ w. set_metrics m (MetricsField.interval_sec w)) (omega arith) good λ r r' w e. ground arith
metrics-Takes (MetricsField.unknown n p) m good =
    unknown-Takes _ metrics_value (with_tag_lem metrics_value) 6 n p m good λ r r' w e. ground arith

-- `parseMetrics` sets what the fields say, one after the other.
pub parse_metrics-all_bytes :
    (fs : List MetricsField) (fuel : ℕ) (m : MetricsData)
    → All IsMetricsField fs
    → length fs ≤ fuel
    → IsSlice (all_bytes metrics_field_bytes fs)
    → parse_metrics fuel (all_bytes metrics_field_bytes fs) m ≡ ok (foldl set_metrics m fs)
unfolding parse_metrics
parse_metrics-all_bytes fs fuel m good enough slice =
    while_reading-all_bytes IsMetricsField metrics_field_bytes set_metrics (with_tag metrics_value)
      (λ _. Unit {0}) (λ f x _. tt) (λ f x _. metrics-Takes f x) fs fuel
      (new_reader (all_bytes metrics_field_bytes fs)) m tt good enough slice refl

status-Takes :
    (f : StatusField) (s : DeviceStatus)
    → IsStatusField f
    → Takes (with_tag status_value) s (status_field_bytes f) (set_status s f)
unfolding status_field_bytes status_value
status-Takes (StatusField.state v) s good =
    varint-Takes _ status_value (with_tag_lem status_value) 1 v s
      (λ w. set_status s (StatusField.state w)) (omega arith) good λ r r' w e. ground arith
status-Takes (StatusField.uptime_sec v) s good =
    varint-Takes _ status_value (with_tag_lem status_value) 2 v s
      (λ w. set_status s (StatusField.uptime_sec w)) (omega arith) good λ r r' w e. ground arith
status-Takes (StatusField.free_heap_bytes v) s good =
    varint-Takes _ status_value (with_tag_lem status_value) 3 v s
      (λ w. set_status s (StatusField.free_heap_bytes w)) (omega arith) good
      λ r r' w e. ground arith
status-Takes (StatusField.unknown n p) s good =
    unknown-Takes _ status_value (with_tag_lem status_value) 3 n p s good λ r r' w e. ground arith

-- `parseStatus` sets what the fields say, one after the other.
pub parse_status-all_bytes :
    (fs : List StatusField) (fuel : ℕ) (s : DeviceStatus)
    → All IsStatusField fs
    → length fs ≤ fuel
    → IsSlice (all_bytes status_field_bytes fs)
    → parse_status fuel (all_bytes status_field_bytes fs) s ≡ ok (foldl set_status s fs)
unfolding parse_status
parse_status-all_bytes fs fuel s good enough slice =
    while_reading-all_bytes IsStatusField status_field_bytes set_status (with_tag status_value)
      (λ _. Unit {0}) (λ f x _. tt) (λ f x _. status-Takes f x) fs fuel
      (new_reader (all_bytes status_field_bytes fs)) s tt good enough slice refl
