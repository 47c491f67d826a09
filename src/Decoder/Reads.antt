-- ===== src/Decoder/Reads.antt =====
-- Each read of the decoder undoes the encoder of edge/middleware/serializer/protobuf_serializer.c
-- that writes the same form, and leaves the reader behind what it read.
use iot_server.Base.{
  ℕ, zero, suc, ◌+◌, ◌*◌, ◌/◌, ◌%◌, ◌^◌, ◌≤◌, ◌<◌, ◌≡◌, ap, refl, sym, ◌∙◌, some, [], ◌∷◌, ◌++◌,
  arith, length, length-append, length-drop, take, drop-add_length, take-length_append,
}
use native.Mathlib.Nat.{div-add-mod, pow-suc}
use native.Mathlib.Decide.{dec_lt}
use native.Mathlib.Numerals.{towards_suc}
use iot_server.Base.Text.{Bytes}
use iot_server.Serializer.Wire.{varint_loop, encode_varint, encode_fixed32_float}
use iot_server.Decoder.Outcome.{ok}
use iot_server.Decoder.Reader.{
  Reader, rest, advance, len, read_byte, uvarint_loop, read_uvarint, read_full, make_slice,
  max_alloc, read_delimited, read_string, little_endian, read_fixed,
}

-- What follows a part of the input that was read.
pub rest-advance :
    (r : Reader) (xs ys : Bytes) → rest r ≡ xs ++ ys → rest (advance r (length xs)) ≡ ys
rest-advance r xs ys e = drop-add_length r.i r.s xs ys e

pub length-rest : (r : Reader) → length (rest r) ≡ len r
length-rest r = length-drop r.i r.s

pub read_byte_lem :
    (r : Reader) (b : ℕ) (bs : Bytes) → rest r ≡ b ∷ bs → read_byte r ≡ some (b, advance r 1)
unfolding read_byte
read_byte_lem r b bs e = rw (e, read_byte)

-- Two steps of a reader are one.
pub advance-advance : (r : Reader) (m n k : ℕ) → m + n ≡ k → advance (advance r m) n ≡ advance r k
advance-advance r m n k e =
    ap (λ j. record r { i = j }) (let e' : r.i + m + n ≡ r.i + k = omega arith in e')

shift_seven : (s : ℕ) → 2 ^ (s + 7) ≡ 128 * 2 ^ s
shift_seven s = simp towards_suc (omega arith)

-- The lowest group of `v` and the rest, both shifted.
split_group : (v s x : ℕ) → x + v % 128 * 2 ^ s + v / 128 * 2 ^ (s + 7) ≡ x + v * 2 ^ s
split_group v s x = omega (
  arith,
  ap (λ (t : ℕ). t * 2 ^ s) (div-add-mod v 128),
  ap (λ (t : ℕ). v / 128 * t) (shift_seven s),
)

-- `k` more rounds than one are enough for `v`, and the last byte of ten is at most 1.
abbrev Fits : ℕ → ℕ → Type 0
Fits k v = v < 2 * 128 ^ k

last_round :
    (k : ℕ) (r : Reader) (x s v : ℕ) (tail : Bytes)
    → v < 128
    → Fits k v
    → rest r ≡ v ∷ tail
    → uvarint_loop (suc k) r x s ≡ ok (x + v * 2 ^ s, advance r 1)
unfolding uvarint_loop
last_round zero r x s v tail small fits e = ground (arith, read_byte_lem r v tail e)
last_round (suc k) r x s v tail small fits e = ground (arith, read_byte_lem r v tail e)

inner_round :
    (k : ℕ) (r : Reader) (x s g : ℕ) (tail : Bytes)
    → g < 128
    → rest r ≡ (g + 128) ∷ tail
    → uvarint_loop (suc k) r x s ≡ uvarint_loop k (advance r 1) (x + g * 2 ^ s) (s + 7)
unfolding uvarint_loop
inner_round k r x s g tail small e = ground (arith, read_byte_lem r (g + 128) tail e)

varint_loop_small : (k v : ℕ) → v < 128 → varint_loop (suc k) v ≡ v ∷ []
unfolding varint_loop
varint_loop_small k v h = ground arith

varint_loop_large :
    (k v : ℕ) → 128 ≤ v → varint_loop (suc k) v ≡ (v % 128 + 128) ∷ varint_loop k (v / 128)
unfolding varint_loop
varint_loop_large k v h = ground arith

Fits-div : (k v : ℕ) → Fits (suc k) v → Fits k (v / 128)
Fits-div k v fits = let p : 128 ^ suc k ≡ 128 ^ k * 128 = pow-suc 128 k in omega arith

small_case :
    (k : ℕ) (r : Reader) (x s v : ℕ) (tail : Bytes)
    → v < 128
    → Fits k v
    → rest r ≡ varint_loop (suc k) v ++ tail
    → uvarint_loop (suc k) r x s ≡ ok (x + v * 2 ^ s, advance r (length (varint_loop (suc k) v)))
small_case k r x s v tail small fits e =
    rw (varint_loop_small k v small)
      (last_round k r x s v tail small fits (rw (varint_loop_small k v small) at e))

uvarint_loop-varint_loop :
    (k : ℕ) (r : Reader) (x s v : ℕ) (tail : Bytes)
    → Fits k v
    → rest r ≡ varint_loop (suc k) v ++ tail
    → uvarint_loop (suc k) r x s ≡ ok (x + v * 2 ^ s, advance r (length (varint_loop (suc k) v)))
uvarint_loop-varint_loop zero r x s v tail fits e =
    small_case zero r x s v tail (omega arith) fits e
uvarint_loop-varint_loop (suc k) r x s v tail fits e = elim (dec_lt v 128) [
  | yes small ↦ small_case (suc k) r x s v tail small fits e
  | no large ↦
      let split = varint_loop_large (suc k) v (omega arith) in
      let more = varint_loop (suc k) (v / 128) in
      let e' = e ∙ ap (λ zs. zs ++ tail) split in
      let there =
        uvarint_loop-varint_loop k (advance r 1) (x + v % 128 * 2 ^ s) (s + 7) (v / 128) tail
          (Fits-div k v fits) (rest-advance r ((v % 128 + 128) ∷ []) (more ++ tail) e') in
      rw split (
        inner_round (suc k) r x s (v % 128) (more ++ tail) (omega arith) e' ∙ there ∙ (λ i. ok (
          split_group v s x i,
          advance-advance r 1 (length more) (suc (length more)) (omega arith) i,
        )))
]

-- `binary.ReadUvarint` reads every uint64 that `encode_varint` wrote.
pub read_uvarint-encode_varint :
    (r : Reader) (v : ℕ) (tail : Bytes)
    → v < 2 ^ 64
    → rest r ≡ encode_varint v ++ tail
    → read_uvarint r ≡ ok (v, advance r (length (encode_varint v)))
unfolding read_uvarint encode_varint
read_uvarint-encode_varint r v tail fits e =
    uvarint_loop-varint_loop 9 r 0 0 v tail (omega arith) e
    ∙ ap (λ n. ok (n, advance r (length (varint_loop 10 v)))) (omega arith)

read_full_lem :
    (r : Reader) (xs tail : Bytes)
    → rest r ≡ xs ++ tail
    → read_full r (length xs) ≡ ok (xs, advance r (length xs))
unfolding read_full
read_full_lem r [] tail e =
    let same : r.i ≡ r.i + 0 = omega arith in λ i. ok ([], record r { i = same i })
read_full_lem r (x ∷ xs) tail e = ground (
  arith,
  length-rest r,
  ap length e,
  length-append xs tail,
  ap (take (length (x ∷ xs))) e ∙ take-length_append (x ∷ xs) tail,
)

pub read_delimited_lem :
    (r : Reader) (xs tail : Bytes)
    → length xs ≤ max_alloc
    → rest r ≡ encode_varint (length xs) ++ (xs ++ tail)
    → read_delimited r ≡ ok (xs, advance r (length (encode_varint (length xs) ++ xs)))
unfolding read_delimited make_slice
read_delimited_lem r xs tail small e =
    let n = length (encode_varint (length xs)) in
    let r' = advance r n in
    let e' = rest-advance r (encode_varint (length xs)) (xs ++ tail) e in
    ground (
      arith,
      read_uvarint-encode_varint r (length xs) (xs ++ tail) (omega arith) e,
      read_full_lem r' xs tail e',
      advance-advance r n (length xs) (length (encode_varint (length xs) ++ xs))
          (sym (length-append (encode_varint (length xs)) xs)),
    )

pub read_string-read_delimited : (r : Reader) → read_string r ≡ read_delimited r
unfolding read_string read_delimited
read_string-read_delimited r = refl

pub read_fixed_lem :
    (r : Reader) (xs tail : Bytes)
    → rest r ≡ xs ++ tail
    → read_fixed r (length xs) ≡ ok (little_endian xs, advance r (length xs))
unfolding read_fixed
read_fixed_lem r xs tail e = rw (read_full_lem r xs tail e)

pub little_endian-encode_fixed32_float :
    (raw : ℕ) → raw < 2 ^ 32 → little_endian (encode_fixed32_float raw) ≡ raw
unfolding encode_fixed32_float
little_endian-encode_fixed32_float raw h = omega arith

pub length-encode_varint : (v : ℕ) → 1 ≤ length (encode_varint v)
unfolding encode_varint varint_loop
length-encode_varint v = ground arith
