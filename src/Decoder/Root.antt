-- ===== src/Decoder/Root.antt =====
-- `DecodeTelemetryProtobuf` of server/core/telemetry/proto_decoder.go on sequences of whole fields.
use mathlib.Core.List.{foldl}
use iot_server.Base.{
  ℕ, ◌/◌, ◌%◌, ◌≤◌, ◌≡◌, refl, List, arith, length, All, subst, inl, inr, Option-cases,
}
use iot_server.Models.{TelemetryPayload}
use iot_server.Decoder.Outcome.{ok}
use iot_server.Decoder.Reader.{Reader, new_reader, read_uvarint}
use iot_server.Decoder.Messages.{
  with_status, parse_status, payload_value, payload_field, empty_payload, decode_telemetry_protobuf,
}
use iot_server.Decoder.Takes.{IsSlice, Takes, all_bytes, while_reading-all_bytes}
use iot_server.Decoder.Forms.{string-Takes, unknown-Takes}
use iot_server.Decoder.Parts.{
  parse_header-all_bytes, parse_metrics-all_bytes, parse_status-all_bytes,
}
use iot_server.Decoder.Fields.{
  MessageField, StatusField, IsMessageField, HasStatus, message_field_bytes, message_bytes,
  set_message, status_field_bytes,
}

payload_field_lem :
    (fuel : ℕ) (r r' : Reader) (tag : ℕ) (p : TelemetryPayload)
    → read_uvarint r ≡ ok (tag, r')
    → payload_field fuel r p ≡ payload_value fuel (tag / 8) (tag % 8) r' p
unfolding payload_field
payload_field_lem fuel r r' tag p e = rw (e, payload_field)

status_read :
    (fuel : ℕ) (fs : List StatusField) (p : TelemetryPayload)
    → HasStatus p.status
    → IsMessageField fuel (MessageField.status fs)
    → with_status (parse_status fuel (all_bytes status_field_bytes fs)) p
      ≡ ok (set_message p (MessageField.status fs))
status_read fuel fs p has good = elim (Option-cases p.status) [
  | inl e ↦ absurd (subst HasStatus e has)
  | inr (s, e) ↦ ground (arith, parse_status-all_bytes fs fuel s good.0 good.1 (omega arith))
]

message-keeps_status :
    (f : MessageField) (p : TelemetryPayload)
    → HasStatus p.status
    → HasStatus (set_message p f).status
message-keeps_status (MessageField.status fs) p has = ground arith
message-keeps_status _ p has = has

message-Takes :
    (fuel : ℕ) (f : MessageField) (p : TelemetryPayload)
    → HasStatus p.status
    → IsMessageField fuel f
    → Takes (payload_field fuel) p (message_field_bytes f) (set_message p f)
unfolding message_field_bytes payload_value
message-Takes fuel (MessageField.header fs) p has good =
    string-Takes _ (payload_value fuel) (payload_field_lem fuel) 1 _ p _ (omega arith) good.2
      λ r r' e. ground (arith, parse_header-all_bytes fs fuel p.header good.0 good.1 (omega arith))
message-Takes fuel (MessageField.metrics fs) p has good =
    string-Takes _ (payload_value fuel) (payload_field_lem fuel) 2 _ p _ (omega arith) good.2
      λ r r' e.
        ground (arith, parse_metrics-all_bytes fs fuel p.metrics good.0 good.1 (omega arith))
message-Takes fuel (MessageField.status fs) p has good =
    string-Takes _ (payload_value fuel) (payload_field_lem fuel) 3 _ p _ (omega arith) good.2
      λ r r' e. ground (arith, status_read fuel fs p has good)
message-Takes fuel (MessageField.unknown n q) p has good =
    unknown-Takes _ (payload_value fuel) (payload_field_lem fuel) 3 n q p good
      λ r r' w e. ground arith

-- The decoder reads every message that consists of well-formed fields: parts in any order, parts
-- that come again, unknown fields of every wire type anywhere. It sets what the fields say, one
-- after the other, and any fuel of at least the number of fields of each part is enough.
pub decode-message_bytes :
    (fs : List MessageField) (fuel : ℕ)
    → All (IsMessageField fuel) fs
    → length fs ≤ fuel
    → IsSlice (message_bytes fs)
    → decode_telemetry_protobuf fuel (message_bytes fs) ≡ ok (foldl set_message empty_payload fs)
unfolding decode_telemetry_protobuf message_bytes
decode-message_bytes fs fuel good enough slice =
    while_reading-all_bytes (IsMessageField fuel) message_field_bytes set_message
      (payload_field fuel) (λ p. HasStatus p.status) message-keeps_status (message-Takes fuel) fs
      fuel (new_reader (all_bytes message_field_bytes fs)) empty_payload tt good enough slice refl
