-- ===== src/Decoder/Messages.antt =====
-- The loops over the fields of a message: `DecodeTelemetryProtobuf`, `parseHeader`, `parseMetrics`
-- and `parseStatus` of server/core/telemetry/proto_decoder.go.
use iot_server.Base.{ℕ, zero, suc, ◌/◌, ◌%◌, ◌^◌, true, false, some, none, ◌==◌, if◌then◌else◌}
use iot_server.Base.Text.{Bytes, utf8}
use iot_server.Base.Int.{signed}
use iot_server.Base.Float.{float32_from_bits}
use iot_server.Models.{
  MessageHeader, MetricsData, DeviceStatus, TelemetryPayload, zero_header, zero_metrics,
  zero_status,
}
use iot_server.Decoder.Outcome.{Outcome, ok, err, panic, unfinished, eof, ◌>>=◌}
use iot_server.Decoder.Reader.{
  Reader, new_reader, len, read_uvarint, read_delimited, read_string, read_fixed, skip_field,
}

-- How a round of a loop over fields ends: on to the next one, or by `break`.
pub data Round {ℓ} (M : Type ℓ) : Type ℓ where
  next : Reader → M → Round M
  stop : M → Round M

-- `for r.Len() > 0 { body }`, for at most `fuel` rounds.
unfoldable pub while_reading {ℓ} :
    {M : Type ℓ} → (Reader → M → Outcome (Round M)) → ℕ → Reader → M → Outcome M
while_reading body zero r m = if len r == 0 then ok m else unfinished
while_reading body (suc fuel) r m = elim (len r == 0) [
  | true ↦ ok m
  | false ↦ elim (body r m) [
    | ok (next r' m') ↦ while_reading body fuel r' m'
    | ok (stop m') ↦ ok m'
    | err e ↦ err e
    | panic ↦ panic
    | unfinished ↦ unfinished
  ]
]

-- `tag, err := ReadUvarint(r); if err != nil { break }`, then the field and the wire type.
abbrev pub with_tag {ℓ} :
    {M : Type ℓ} → (ℕ → ℕ → Reader → M → Outcome (Round M)) → Reader → M → Outcome (Round M)
with_tag value r m = elim (read_uvarint r) [
  | ok (tag, r') ↦ value (tag / 8) (tag % 8) r' m
  | _ ↦ ok (stop m)
]

-- The switch of `parseHeader`.
unfoldable pub header_value : ℕ → ℕ → Reader → MessageHeader → Outcome (Round MessageHeader)
header_value field wire r h =
    if field == 1
    then (do (str, r') ← read_string r; ok (next r' (record h { device_id = str })))
    else if field == 2
    then (do (v, r') ← read_uvarint r; ok (next r' (record h { timestamp = signed 64 v })))
    else if field == 3
    then (do (v, r') ← read_uvarint r; ok (next r' (record h { seq_no = v % 2 ^ 32 })))
    else if field == 4
    then (do (str, r') ← read_string r; ok (next r' (record h { firmware_version = str })))
    else if field == 5
    then (do (v, r') ← read_uvarint r; ok (next r' (record h { boot_count = v % 2 ^ 32 })))
    else do r' ← skip_field r wire; ok (next r' h)

unfoldable pub parse_header : ℕ → Bytes → MessageHeader → Outcome MessageHeader
parse_header fuel bytes h = while_reading (with_tag header_value) fuel (new_reader bytes) h

-- The switch of `parseMetrics`.
unfoldable pub metrics_value : ℕ → ℕ → Reader → MetricsData → Outcome (Round MetricsData)
metrics_value field wire r m =
    if field == 1
    then (do
      (raw, r') ← read_fixed r 4
      ok (next r' (record m { temperature = float32_from_bits raw })))
    else if field == 2
    then (do
      (raw, r') ← read_fixed r 4
      ok (next r' (record m { humidity = float32_from_bits raw })))
    else if field == 3
    then (do
      (raw, r') ← read_fixed r 4
      ok (next r' (record m { battery_voltage = float32_from_bits raw })))
    else if field == 4
    then (do (v, r') ← read_uvarint r; ok (next r' (record m { battery_level_pct = v % 2 ^ 32 })))
    else if field == 5
    then (do (v, r') ← read_uvarint r; ok (next r' (record m { rssi = signed 32 v })))
    else if field == 6
    then (do (v, r') ← read_uvarint r; ok (next r' (record m { interval_sec = v % 2 ^ 32 })))
    else do r' ← skip_field r wire; ok (next r' m)

unfoldable pub parse_metrics : ℕ → Bytes → MetricsData → Outcome MetricsData
parse_metrics fuel bytes m = while_reading (with_tag metrics_value) fuel (new_reader bytes) m

abbrev pub state_name : ℕ → Bytes
state_name v =
    if v == 1
    then utf8 "LOW_POWER"
    else if v == 2
    then utf8 "WARNING"
    else if v == 3
    then utf8 "ERROR"
    else utf8 "NORMAL"

-- The switch of `parseStatus`.
unfoldable pub status_value : ℕ → ℕ → Reader → DeviceStatus → Outcome (Round DeviceStatus)
status_value field wire r s =
    if field == 1
    then (do (v, r') ← read_uvarint r; ok (next r' (record s { state = state_name v })))
    else if field == 2
    then (do (v, r') ← read_uvarint r; ok (next r' (record s { uptime_sec = v % 2 ^ 32 })))
    else if field == 3
    then (do (v, r') ← read_uvarint r; ok (next r' (record s { free_heap_bytes = v % 2 ^ 32 })))
    else do r' ← skip_field r wire; ok (next r' s)

unfoldable pub parse_status : ℕ → Bytes → DeviceStatus → Outcome DeviceStatus
parse_status fuel bytes s = while_reading (with_tag status_value) fuel (new_reader bytes) s

-- `parseStatus(subData, payload.Status)`, which would dereference a nil status.
abbrev pub with_status :
    (DeviceStatus → Outcome DeviceStatus) → TelemetryPayload → Outcome TelemetryPayload
with_status parse p = elim p.status [
  | none ↦ panic
  | some s ↦ parse s >>= λ s'. ok (record p { status = some s' })
]

-- The switch of `DecodeTelemetryProtobuf`.
unfoldable pub payload_value :
    ℕ → ℕ → ℕ → Reader → TelemetryPayload → Outcome (Round TelemetryPayload)
payload_value fuel field wire r p =
    if field == 1
    then (do
      (sub, r') ← read_delimited r
      h ← parse_header fuel sub p.header
      ok (next r' (record p { header = h })))
    else if field == 2
    then (do
      (sub, r') ← read_delimited r
      m ← parse_metrics fuel sub p.metrics
      ok (next r' (record p { metrics = m })))
    else if field == 3
    then (do
      (sub, r') ← read_delimited r
      p' ← with_status (parse_status fuel sub) p
      ok (next r' p'))
    else do r' ← skip_field r wire; ok (next r' p)

-- The body of the loop of `DecodeTelemetryProtobuf`: an error on the tag is returned, save
-- `io.EOF`, which ends the loop.
unfoldable pub payload_field : ℕ → Reader → TelemetryPayload → Outcome (Round TelemetryPayload)
payload_field fuel r p = elim (read_uvarint r) [
  | ok (tag, r') ↦ payload_value fuel (tag / 8) (tag % 8) r' p
  | err eof ↦ ok (stop p)
  | err e ↦ err e
  | panic ↦ panic
  | unfinished ↦ unfinished
]

abbrev pub empty_payload : TelemetryPayload
empty_payload = record { header = zero_header; metrics = zero_metrics; status = some zero_status }

-- `fuel` bounds the rounds of each loop.
unfoldable pub decode_telemetry_protobuf : ℕ → Bytes → Outcome TelemetryPayload
decode_telemetry_protobuf fuel bytes =
    while_reading (payload_field fuel) fuel (new_reader bytes) empty_payload
