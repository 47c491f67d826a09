-- ===== src/Serializer/Wire.antt =====
-- The field encoders of edge/middleware/serializer/protobuf_serializer.c.
use iot_server.Base.{ℕ, zero, suc, ◌+◌, ◌*◌, ◌/◌, ◌%◌, [], ◌∷◌, ◌++◌, length, ltb, if◌then◌else◌}
use iot_server.Base.Text.{Bytes}

-- The loop of `encode_varint`, for at most `k` bytes; a uint64 takes at most 10.
-- (value & 0x7F) | 0x80 is value % 128 + 128.
unfoldable pub varint_loop : ℕ → ℕ → Bytes
varint_loop zero v = []
varint_loop (suc k) v =
    let more = (v % 128 + 128) ∷ varint_loop k (v / 128) in if ltb v 128 then v ∷ [] else more

unfoldable pub encode_varint : ℕ → Bytes
encode_varint v = varint_loop 10 v

abbrev wire_varint : ℕ
wire_varint = 0

abbrev pub wire_length_delimited : ℕ
wire_length_delimited = 2

abbrev wire_fixed32 : ℕ
wire_fixed32 = 5

-- field_num << 3 | wire_type, for a wire type below 8.
unfoldable pub encode_tag : ℕ → ℕ → Bytes
encode_tag field_num wire_type = encode_varint (field_num * 8 + wire_type)

-- The four bytes of the pattern of a float, the lowest first.
unfoldable pub encode_fixed32_float : ℕ → Bytes
encode_fixed32_float raw =
    (raw % 256) ∷ (raw / 256 % 256) ∷ (raw / 65536 % 256) ∷ (raw / 16777216 % 256) ∷ []

unfoldable pub encode_string_field : ℕ → Bytes → Bytes
encode_string_field field_num str =
    encode_tag field_num wire_length_delimited ++ (encode_varint (length str) ++ str)

unfoldable pub encode_varint_field : ℕ → ℕ → Bytes
encode_varint_field field_num val = encode_tag field_num wire_varint ++ encode_varint val

unfoldable pub encode_float_field : ℕ → ℕ → Bytes
encode_float_field field_num val = encode_tag field_num wire_fixed32 ++ encode_fixed32_float val
