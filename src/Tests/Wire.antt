-- ===== src/Tests/Wire.antt =====
-- The theorems on the wire format at concrete messages.
use iot_server.Base.{
  ℕ, zero, suc, ◌<◌, ◌^◌, ◌≡◌, ◌≢◌, [], ◌∷◌, ◌++◌, All, arith, List-cases, inl, inr, drop, subst,
  sym,
}
use iot_server.Base.Text.{Bytes}
use iot_server.Serializer.Wire.{
  encode_varint, encode_string_field, encode_varint_field, encode_tag, varint_loop,
}
use iot_server.Serializer.Telemetry.{written, root_bytes, serialize_telemetry_protobuf}
use iot_server.Serializer.Bounds.{serialize_writes}
use iot_server.Decoder.Outcome.{ok, panic, unfinished}
use iot_server.Decoder.Reader.{Reader, rest, read_uvarint, uvarint_loop, read_byte}
use iot_server.Decoder.Messages.{decode_telemetry_protobuf, empty_payload}
use iot_server.Decoder.Device.{decode-serialize, payload_of}
use iot_server.Decoder.Fields.{
  message_bytes, set_message, message_field_bytes, header_field_bytes, status_field_bytes,
  unknown_bytes, wire_type, payload_bytes,
}
use iot_server.Decoder.Takes.{all_bytes}
use iot_server.Decoder.Root.{decode-message_bytes}
use iot_server.Decoder.Termination.{ForwardSkips}
use iot_server.Decoder.Ends.{decode_ends}
use iot_server.Decoder.Hostile.{backward_skip, decode_never_ends, decode_panics}
use iot_server.Tests.Samples.{sensor, sensor-IsTelemetryData, loose_message}
use mathlib.Core.List.{foldl}

decode-serialize_example :
    (bytes : Bytes) × (serialize_telemetry_protobuf sensor 128 ≡ written bytes)
    × (decode_telemetry_protobuf 6 bytes ≡ ok (payload_of sensor))
decode-serialize_example =
    decode-serialize sensor 128 6 sensor-IsTelemetryData (omega arith) (omega arith) (omega arith)

serialize_writes_example : serialize_telemetry_protobuf sensor 256 ≡ written (root_bytes sensor)
serialize_writes_example =
    serialize_writes sensor 256 sensor-IsTelemetryData (omega arith) (omega arith)

decode-message_bytes_example :
    decode_telemetry_protobuf 4 (message_bytes loose_message)
    ≡ ok (foldl set_message empty_payload loose_message)
unfolding message_bytes all_bytes message_field_bytes header_field_bytes status_field_bytes
    unknown_bytes wire_type payload_bytes encode_string_field encode_varint_field encode_tag
    encode_varint varint_loop
decode-message_bytes_example =
    decode-message_bytes loose_message 4 (omega arith) (omega arith) (omega arith)

All-drop : (k : ℕ) (xs : Bytes) → All (λ b. b < 128) xs → All (λ b. b < 128) (drop k xs)
All-drop zero xs h = h
All-drop (suc k) [] h = h
All-drop (suc k) (x ∷ xs) h = All-drop k xs h.1

-- Without a byte of 128 or more, a number is the byte that it stands at.
small_number :
    (r q : Reader) (n : ℕ)
    → All (λ b. b < 128) r.s
    → read_uvarint r ≡ ok (n, q)
    → (n < 128) × (q.s ≡ r.s)
unfolding read_uvarint uvarint_loop read_byte
small_number r q n small h = elim (List-cases (rest r)) [
  | inl e ↦ absurd (ground (arith, e, h))
  | inr (b, bs, e) ↦
      let low : b < 128 = (subst (λ z. All (λ c. c < 128) z) e (All-drop r.i r.s small)).0 in
      ground (arith, e, h, low)
]

ForwardSkips-small : (s : Bytes) → All (λ b. b < 128) s → ForwardSkips s
ForwardSkips-small s small i tag n q q' read two read' =
    let (a, same) = small_number (record { s = s; i = i }) q tag small read in
    let (b, same') =
      small_number q q' n (subst (λ z. All (λ b. b < 128) z) (sym same) small) read' in
    omega arith

decode_ends_example : decode_telemetry_protobuf 5 (10 ∷ 3 ∷ 10 ∷ 1 ∷ 65 ∷ []) ≢ unfinished
decode_ends_example =
    decode_ends (10 ∷ 3 ∷ 10 ∷ 1 ∷ 65 ∷ []) 5 (omega arith)
      (ForwardSkips-small (10 ∷ 3 ∷ 10 ∷ 1 ∷ 65 ∷ []) (omega arith)) (omega arith)

decode_never_ends_example : decode_telemetry_protobuf 1000 (backward_skip []) ≡ unfinished
decode_never_ends_example = decode_never_ends 1000 []

decode_panics_example : decode_telemetry_protobuf 1 (10 ∷ (encode_varint (2 ^ 62) ++ [])) ≡ panic
decode_panics_example = decode_panics (2 ^ 62) 0 [] (omega arith) (omega arith)
