-- ===== src/Decoder/Forms.antt =====
-- What a round of a loop over fields does at each form of field.
use iot_server.Base.{
  ℕ, ◌/◌, ◌%◌, ◌^◌, ◌≤◌, ◌<◌, ◌≡◌, ap, sym, ◌∙◌, ◌++◌, append_assoc, arith, length, length-append,
}
use iot_server.Base.Text.{Bytes}
use iot_server.Serializer.Wire.{
  encode_varint, encode_fixed32_float, encode_string_field, encode_varint_field, encode_float_field,
}
use iot_server.Decoder.Outcome.{Outcome, ok}
use iot_server.Decoder.Reader.{
  Reader, rest, advance, read_uvarint, read_fixed, read_delimited, skip_field, seek_current,
}
use iot_server.Decoder.Reads.{
  rest-advance, length-rest, advance-advance, read_uvarint-encode_varint, read_fixed_lem,
  read_delimited_lem, little_endian-encode_fixed32_float, length-encode_varint,
}
use iot_server.Decoder.Messages.{Round, next}
use iot_server.Decoder.Takes.{IsSlice, Takes, tag-Takes}
use iot_server.Decoder.Fields.{
  Payload, varint, fixed64, delimited, fixed32, wire_type, payload_bytes, IsPayload, unknown_bytes,
  IsText, IsUnknown,
}

-- A seek over bytes that are there.
seek_current_lem :
    (r : Reader) (xs tail : Bytes)
    → IsSlice r.s
    → r.i ≤ length r.s
    → rest r ≡ xs ++ tail
    → seek_current r (length xs) ≡ ok (advance r (length xs))
unfolding seek_current
seek_current_lem r xs tail slice inside e =
    ground (arith, length-rest r, ap length e, length-append xs tail)

-- `skipField` passes over what stands behind the tag of an unknown field, whatever its wire type.
skip_field-payload_bytes :
    (p : Payload) (r : Reader) (tail : Bytes)
    → IsPayload p
    → IsSlice r.s
    → rest r ≡ payload_bytes p ++ tail
    → skip_field r (wire_type p) ≡ ok (advance r (length (payload_bytes p)))
unfolding skip_field payload_bytes wire_type
skip_field-payload_bytes (varint v) r tail good slice e =
    ground (arith, read_uvarint-encode_varint r v tail good e)
skip_field-payload_bytes (fixed64 bytes) r tail good slice e =
    ground (arith, rw good at (read_fixed_lem r bytes tail e))
skip_field-payload_bytes (fixed32 bytes) r tail good slice e =
    ground (arith, rw good at (read_fixed_lem r bytes tail e))
skip_field-payload_bytes (delimited bytes) r tail good slice e =
    let size = encode_varint (length bytes) in
    let e' = e ∙ append_assoc size bytes tail in
    ground (
      arith,
      read_uvarint-encode_varint r (length bytes) (bytes ++ tail) (omega arith) e',
      seek_current_lem (advance r (length size)) bytes tail slice
          (omega (
            arith,
            length-rest r,
            ap length e',
            length-append {0} size (bytes ++ tail),
            length-encode_varint (length bytes),
          ))
          (rest-advance r size (bytes ++ tail) e'),
      advance-advance r (length size) (length bytes) (length (size ++ bytes))
          (sym (length-append size bytes)),
    )

wire_type-lt : (p : Payload) → wire_type p < 8
unfolding wire_type
wire_type-lt (varint v) = omega arith
wire_type-lt _ = omega arith

-- `body` reads a tag and hands its two parts to `value`.
module _ {ℓ} {M : Type ℓ} (body : Reader → M → Outcome (Round M))
    (value : ℕ → ℕ → Reader → M → Outcome (Round M))
    (tagged : (r r' : Reader) (tag : ℕ) (m : M)
      → read_uvarint r ≡ ok (tag, r')
      → body r m ≡ value (tag / 8) (tag % 8) r' m) where
  -- Behind the tag, `read` gives the number that is set.
  abbrev pub Sets : ℕ → ℕ → (Reader → Outcome (ℕ × Reader)) → M → (ℕ → M) → Type ℓ
  Sets field wire read m set =
      (r r' : Reader) (v : ℕ) → read r ≡ ok (v, r') → value field wire r m ≡ ok (next r' (set v))

  pub varint-Takes :
      (field v : ℕ) (m : M) (set : ℕ → M)
      → field < 2 ^ 29
      → v < 2 ^ 64
      → Sets field 0 read_uvarint m set
      → Takes body m (encode_varint_field field v) (set v)
  unfolding encode_varint_field
  varint-Takes field v m set hf small sets =
      tag-Takes body value tagged field 0 m (encode_varint v) (set v) hf (omega arith)
        λ r tail slice e. sets r _ v (read_uvarint-encode_varint r v tail small e)

  pub float-Takes :
      (field raw : ℕ) (m : M) (set : ℕ → M)
      → field < 2 ^ 29
      → raw < 2 ^ 32
      → Sets field 5 (λ r. read_fixed r 4) m set
      → Takes body m (encode_float_field field raw) (set raw)
  unfolding encode_float_field encode_fixed32_float
  float-Takes field raw m set hf small sets =
      tag-Takes body value tagged field 5 m (encode_fixed32_float raw) (set raw) hf (omega arith)
        λ r tail slice e. sets r _ raw (
          read_fixed_lem r (encode_fixed32_float raw) tail e
          ∙ ap (λ n. ok (n, advance r 4)) (little_endian-encode_fixed32_float raw small))

  pub string-Takes :
      (field : ℕ) (s : Bytes) (m m' : M)
      → field < 2 ^ 29
      → IsText s
      → ((r r' : Reader) → read_delimited r ≡ ok (s, r') → value field 2 r m ≡ ok (next r' m'))
      → Takes body m (encode_string_field field s) m'
  unfolding encode_string_field
  string-Takes field s m m' hf small sets =
      let size = encode_varint (length s) in
      tag-Takes body value tagged field 2 m (size ++ s) m' hf (omega arith) λ r tail slice e.
        sets r _ (read_delimited_lem r s tail small (e ∙ append_assoc size s tail))

  pub unknown-Takes :
      (known field : ℕ) (p : Payload) (m : M)
      → IsUnknown known field p
      → ((r r' : Reader) (wire : ℕ)
          → skip_field r wire ≡ ok r'
          → value field wire r m ≡ ok (next r' m))
      → Takes body m (unknown_bytes field p) m
  unfolding unknown_bytes
  unknown-Takes known field p m good skips =
      tag-Takes body value tagged field (wire_type p) m (payload_bytes p) m good.1 (wire_type-lt p)
        λ r tail slice e. skips r _ (wire_type p) (skip_field-payload_bytes p r tail good.2 slice e)
