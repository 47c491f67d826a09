-- ===== src/Serializer/Sizes.antt =====
-- How long the fields of edge/middleware/serializer/protobuf_serializer.c are.
use iot_server.Base.{
  ℕ, zero, suc, ◌+◌, ◌*◌, ◌/◌, ◌^◌, ◌≤◌, ◌<◌, ◌≡◌, ◌++◌, arith, length, length-append,
}
use native.Mathlib.Nat.{pow-suc}
use iot_server.Base.Text.{Bytes}
use iot_server.Serializer.Wire.{
  varint_loop, encode_varint, encode_tag, encode_fixed32_float, encode_string_field,
  encode_varint_field, encode_float_field,
}

-- A number below 128 ^ (j + 1) takes at most j + 1 bytes.
length-varint_loop : (k j v : ℕ) → v < 128 ^ suc j → length (varint_loop k v) ≤ suc j
unfolding varint_loop
length-varint_loop zero j v h = omega arith
length-varint_loop (suc k) zero v h = ground arith
length-varint_loop (suc k) (suc j) v h =
    let p : 128 ^ suc (suc j) ≡ 128 ^ suc j * 128 = pow-suc 128 (suc j) in
    let small : v / 128 < 128 ^ suc j = omega arith in
    ground (arith, length-varint_loop k j (v / 128) small)

length-varint_loop-le : (k v : ℕ) → length (varint_loop k v) ≤ k
unfolding varint_loop
length-varint_loop-le zero v = omega arith
length-varint_loop-le (suc k) v = ground (arith, length-varint_loop-le k (v / 128))

length-encode_varint-le : (v : ℕ) → length (encode_varint v) ≤ 10
unfolding encode_varint
length-encode_varint-le v = length-varint_loop-le 10 v

-- one byte, and the five of a uint32
byte_varint : (v : ℕ) → v < 128 → length (encode_varint v) ≤ 1
unfolding encode_varint
byte_varint v h = length-varint_loop 10 0 v (omega arith)

uint32_varint : (v : ℕ) → v < 2 ^ 32 → length (encode_varint v) ≤ 5
unfolding encode_varint
uint32_varint v h = length-varint_loop 10 4 v (omega arith)

tag_byte : (n w : ℕ) → n < 8 → w < 8 → length (encode_tag n w) ≤ 1
unfolding encode_tag
tag_byte n w hn hw = byte_varint (n * 8 + w) (omega arith)

pub uint32_field : (n v : ℕ) → n < 8 → v < 2 ^ 32 → length (encode_varint_field n v) ≤ 6
unfolding encode_varint_field
uint32_field n v hn h = omega (
  arith,
  length-append {0} (encode_tag n 0) (encode_varint v),
  tag_byte n 0 hn (omega arith),
  uint32_varint v h,
)

pub uint64_field : (n v : ℕ) → n < 8 → length (encode_varint_field n v) ≤ 11
unfolding encode_varint_field
uint64_field n v hn = omega (
  arith,
  length-append {0} (encode_tag n 0) (encode_varint v),
  tag_byte n 0 hn (omega arith),
  length-encode_varint-le v,
)

pub float_field : (n v : ℕ) → n < 8 → length (encode_float_field n v) ≤ 5
unfolding encode_float_field encode_fixed32_float
float_field n v hn = omega (
  arith,
  length-append {0} (encode_tag n 5) (encode_fixed32_float v),
  tag_byte n 5 hn (omega arith),
)

pub string_field :
    (n : ℕ) (s : Bytes) → n < 8 → length s < 128 → length (encode_string_field n s) ≤ length s + 2
unfolding encode_string_field
string_field n s hn h = omega (
  arith,
  length-append {0} (encode_tag n 2) (encode_varint (length s) ++ s),
  length-append {0} (encode_varint (length s)) s,
  tag_byte n 2 hn (omega arith),
  byte_varint (length s) h,
)
