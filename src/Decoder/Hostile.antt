-- ===== src/Decoder/Hostile.antt =====
-- Inputs on which the decoder of server/core/telemetry/proto_decoder.go does not answer.
use iot_server.Base.{ℕ, zero, suc, ◌^◌, ◌<◌, ◌≡◌, refl, ◌∷◌, ◌++◌, arith}
use iot_server.Base.Text.{Bytes}
use iot_server.Models.{TelemetryPayload}
use iot_server.Serializer.Wire.{encode_varint}
use iot_server.Decoder.Outcome.{ok, panic, unfinished}
use iot_server.Decoder.Reader.{
  new_reader, advance, max_alloc, uvarint_loop, read_uvarint, make_slice, read_delimited,
  skip_field, seek_current,
}
use iot_server.Decoder.Reads.{read_uvarint-encode_varint}
use iot_server.Decoder.Messages.{
  next, while_reading, payload_value, payload_field, empty_payload, decode_telemetry_protobuf,
}

-- Field 4, which the schema does not have, with a length of 2 ^ 64 - 11: as an int64, -11.
abbrev pub backward_skip : Bytes → Bytes
backward_skip tail = 34 ∷ 0xf5 ∷ 0xff ∷ 0xff ∷ 0xff ∷ 0xff ∷ 0xff ∷ 0xff ∷ 0xff ∷ 0xff ∷ 1 ∷ tail

-- The field is skipped back to where its tag stands.
skips_back :
    (fuel : ℕ) (tail : Bytes) (p : TelemetryPayload)
    → payload_field fuel (new_reader (backward_skip tail)) p
      ≡ ok (next (new_reader (backward_skip tail)) p)
unfolding payload_field payload_value skip_field seek_current read_uvarint uvarint_loop
skips_back fuel tail p = refl

loops_for_ever :
    (fuel rounds : ℕ) (tail : Bytes) (p : TelemetryPayload)
    → while_reading (payload_field fuel) rounds (new_reader (backward_skip tail)) p ≡ unfinished
unfolding while_reading
loops_for_ever fuel zero tail p = ground arith
loops_for_ever fuel (suc n) tail p =
    ground (arith, skips_back fuel tail p, loops_for_ever fuel n tail p)

-- The decoder never ends on a message that begins with `backward_skip`, whatever follows and
-- however many rounds its loop is given.
pub decode_never_ends :
    (fuel : ℕ) (tail : Bytes) → decode_telemetry_protobuf fuel (backward_skip tail) ≡ unfinished
unfolding decode_telemetry_protobuf
decode_never_ends fuel tail = loops_for_ever fuel fuel tail empty_payload

header_panics :
    (n fuel : ℕ) (tail : Bytes) (p : TelemetryPayload)
    → max_alloc < n
    → n < 2 ^ 64
    → payload_field fuel (new_reader (10 ∷ (encode_varint n ++ tail))) p ≡ panic
unfolding payload_field payload_value read_delimited make_slice
header_panics n fuel tail p large fits =
    let r = new_reader (10 ∷ (encode_varint n ++ tail)) in
    let tag : read_uvarint r ≡ ok (10, advance r 1) = unfold read_uvarint uvarint_loop in refl in
    ground (arith, tag, read_uvarint-encode_varint (advance r 1) n tail fits refl)

-- A message that begins with the tag of its header and a length above what Go can allot makes the
-- decoder panic, whatever follows: the length is not held against the bytes that are there.
pub decode_panics :
    (n fuel : ℕ) (tail : Bytes)
    → max_alloc < n
    → n < 2 ^ 64
    → decode_telemetry_protobuf (suc fuel) (10 ∷ (encode_varint n ++ tail)) ≡ panic
unfolding decode_telemetry_protobuf while_reading
decode_panics n fuel tail large fits =
    ground (arith, header_panics n (suc fuel) tail empty_payload large fits)
