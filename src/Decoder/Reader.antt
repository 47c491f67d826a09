-- ===== src/Decoder/Reader.antt =====
-- Go's bytes.Reader as the decoder uses it, with encoding/binary's ReadUvarint and Read on it, and
-- the helpers `readString` and `skipField` of server/core/telemetry/proto_decoder.go.
use iot_server.Base.{
  ℕ, zero, suc, ◌+◌, ◌-◌, ◌*◌, ◌%◌, ◌^◌, Option, none, some, [], ◌∷◌, ◌&&◌, length, take, drop, ltb,
  leb, ◌==◌, if◌then◌else◌,
}
use iot_server.Base.Text.{Bytes}
use iot_server.Decoder.Outcome.{
  Outcome, ok, err, panic, ◌>>=◌, ◌>>◌, eof, unexpected_eof, overflow, negative_position,
  unsupported_wire_type,
}

-- bytes.Reader: the slice and the reading index, which may lie behind the end.
pub record Reader : Type 0 where
  pub s : Bytes
  pub i : ℕ

abbrev pub new_reader : Bytes → Reader
new_reader bytes = record { s = bytes; i = 0 }

abbrev pub rest : Reader → Bytes
rest r = drop r.i r.s

abbrev pub advance : Reader → ℕ → Reader
advance r n = record r { i = r.i + n }

-- reader.Len(): the bytes not read yet.
abbrev pub len : Reader → ℕ
len r = length r.s - r.i

-- ReadByte; `none` is io.EOF.
unfoldable pub read_byte : Reader → Option (ℕ × Reader)
read_byte r = elim (rest r) [ [] ↦ none | b ∷ bs ↦ some (b, advance r 1) ]

-- The loop of binary.ReadUvarint with `k` of its 10 rounds left. The groups of seven bits do not
-- overlap, so that its `|` is a sum.
unfoldable pub uvarint_loop : ℕ → Reader → ℕ → ℕ → Outcome (ℕ × Reader)
unfolding read_byte
uvarint_loop zero r x shift = err overflow
uvarint_loop (suc k) r x shift = elim (read_byte r) [
  | none ↦ err (if k == 9 then eof else unexpected_eof)
  | some (b, r') ↦
      let more = uvarint_loop k r' (x + b % 128 * 2 ^ shift) (shift + 7) in
      if ltb b 128
      then (if k == 0 && ltb 1 b then err overflow else ok (x + b * 2 ^ shift, r'))
      else more
]

unfoldable pub read_uvarint : Reader → Outcome (ℕ × Reader)
read_uvarint r = uvarint_loop 10 r 0 0

-- io.ReadFull into a buffer of `n` bytes.
unfoldable pub read_full : Reader → ℕ → Outcome (Bytes × Reader)
read_full r n =
    if n == 0
    then ok ([], r)
    else if len r == 0
    then err eof
    else if ltb (len r) n
    then err unexpected_eof
    else ok (take n (rest r), advance r n)

-- The largest size for which `make([]byte, n)` does not panic: the address space that Go's
-- runtime allots on 64-bit Linux. A failure of the system to provide the memory is not modelled.
abbrev pub max_alloc : ℕ
max_alloc = 2 ^ 48

unfoldable pub make_slice : ℕ → Outcome (Unit {0})
make_slice n = if ltb max_alloc n then panic else ok tt

-- A length, a buffer of that length, and the bytes for it.
unfoldable pub read_delimited : Reader → Outcome (Bytes × Reader)
read_delimited r = do (n, r') ← read_uvarint r; make_slice n; read_full r' n

unfoldable pub read_string : Reader → Outcome (Bytes × Reader)
read_string r = do (n, r') ← read_uvarint r; make_slice n; read_full r' n

-- The number that bytes stand for, the lowest first.
abbrev pub little_endian : Bytes → ℕ
little_endian [] = 0
little_endian (b ∷ bs) = b + 256 * little_endian bs

-- binary.Read of a uint32 or a uint64, of `n` bytes.
unfoldable pub read_fixed : Reader → ℕ → Outcome (ℕ × Reader)
read_fixed r n = do (bytes, r') ← read_full r n; ok (little_endian bytes, r')

-- r.Seek(int64(n), io.SeekCurrent) for a uint64 `n`: the sum wraps to an int64, and a negative one
-- is an error. A position behind the end is none.
unfoldable pub seek_current : Reader → ℕ → Outcome Reader
seek_current r n =
    let abs = (r.i + n) % 2 ^ 64 in
    if leb (2 ^ 63) abs then err negative_position else ok (record r { i = abs })

unfoldable pub skip_field : Reader → ℕ → Outcome Reader
skip_field r wire_type =
    if wire_type == 0
    then (do (v, r') ← read_uvarint r; ok r')
    else if wire_type == 1
    then (do (v, r') ← read_fixed r 8; ok r')
    else if wire_type == 2
    then (do (n, r') ← read_uvarint r; seek_current r' n)
    else if wire_type == 5
    then (do (v, r') ← read_fixed r 4; ok r')
    else err (unsupported_wire_type wire_type)
