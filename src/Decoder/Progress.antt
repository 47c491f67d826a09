-- ===== src/Decoder/Progress.antt =====
-- Each read of the decoder moves its reader forward over the same input, and none runs on for ever.
use iot_server.Base.{
  ℕ, zero, suc, ◌+◌, ◌*◌, ◌%◌, ◌^◌, ◌≤◌, ◌<◌, ◌≡◌, ◌≢◌, refl, ap, ◌∙◌, arith, length, take, some,
  ltb, subst, inl, inr, List-cases, Option-cases, Bool-cases,
}
use iot_server.Base.Text.{Bytes}
use iot_server.Decoder.Outcome.{ok, unfinished, >>=-eq-ok, >>=-ne-unfinished}
use iot_server.Decoder.Reader.{
  Reader, rest, read_byte, uvarint_loop, read_uvarint, read_full, make_slice, read_delimited,
  read_fixed, seek_current, skip_field,
}
use iot_server.Decoder.Reads.{length-rest}
use iot_server.Decoder.Takes.{IsSlice}

-- `r'` stands behind `r` in the same input, and within it.
pub record Read (r r' : Reader) : Type 0 where
  pub same : r'.s ≡ r.s
  pub forward : r.i < r'.i
  pub inside : r'.i ≤ length r.s

-- `r'` stands at or behind `r` in the same input.
pub record Onward (r r' : Reader) : Type 0 where
  pub same : r'.s ≡ r.s
  pub forward : r.i ≤ r'.i

read_byte-Read : (r r' : Reader) (b : ℕ) → read_byte r ≡ some (b, r') → Read r r'
unfolding read_byte
read_byte-Read r r' b e = elim (List-cases (rest r)) [
  | inl none_left ↦ ground (arith, none_left)
  | inr (a, as', some_left) ↦ ground (arith, some_left, length-rest r, ap length some_left)
]

Read-trans : {r r' r'' : Reader} → Read r r' → Read r' r'' → Read r r''
Read-trans p q = record {
  same = q.same ∙ p.same;
  forward = omega (arith, p.forward, q.forward);
  inside = omega (arith, ap length p.same, q.inside);
}

uvarint_loop-Read :
    (k : ℕ) (r r' : Reader) (x s v : ℕ) → uvarint_loop k r x s ≡ ok (v, r') → Read r r'
unfolding uvarint_loop
uvarint_loop-Read zero r r' x s v e = cc
uvarint_loop-Read (suc k) r r' x s v e = elim (Option-cases (read_byte r)) [
  | inl end ↦ ground (arith, end)
  | inr ((b, q), byte) ↦
      let step = read_byte-Read r q b byte in
      elim (Bool-cases (ltb b 128)) [
        | inl last ↦ subst (λ z. Read r z) (ground arith) step
        | inr more ↦
            Read-trans step
              (uvarint_loop-Read k q r' (x + b % 128 * 2 ^ s) (s + 7) v (ground arith))
      ]
]

pub read_uvarint-Read : (r r' : Reader) (v : ℕ) → read_uvarint r ≡ ok (v, r') → Read r r'
unfolding read_uvarint
read_uvarint-Read r r' v e = uvarint_loop-Read 10 r r' 0 0 v e

uvarint_loop-ne-unfinished : (k : ℕ) (r : Reader) (x s : ℕ) → uvarint_loop k r x s ≢ unfinished
unfolding uvarint_loop
uvarint_loop-ne-unfinished zero r x s = λ e. cc
uvarint_loop-ne-unfinished (suc k) r x s = λ e. elim (Option-cases (read_byte r)) [
  | inl end ↦ ground (arith, end)
  | inr ((b, q), byte) ↦
      ground (arith, byte, uvarint_loop-ne-unfinished k q (x + b % 128 * 2 ^ s) (s + 7))
]

pub read_uvarint-ne-unfinished : (r : Reader) → read_uvarint r ≢ unfinished
unfolding read_uvarint
read_uvarint-ne-unfinished r = uvarint_loop-ne-unfinished 10 r 0 0

read_full-Onward : (r r' : Reader) (n : ℕ) (xs : Bytes) → read_full r n ≡ ok (xs, r') → Onward r r'
unfolding read_full
read_full-Onward r r' n xs e = ground arith

read_full-eq-take :
    (r r' : Reader) (n : ℕ) (xs : Bytes) → read_full r n ≡ ok (xs, r') → xs ≡ take n (rest r)
unfolding read_full
read_full-eq-take r r' zero xs e = ground arith
read_full-eq-take r r' (suc n) xs e = ground arith

read_full-ne-unfinished : (r : Reader) (n : ℕ) → read_full r n ≢ unfinished
unfolding read_full
read_full-ne-unfinished r n = λ e. ground arith

pub read_fixed-Onward : (r r' : Reader) (n v : ℕ) → read_fixed r n ≡ ok (v, r') → Onward r r'
unfolding read_fixed
read_fixed-Onward r r' n v e =
    let ((xs, q), full, last) = >>=-eq-ok (read_full r n) _ e in
    subst (λ z. Onward r z) (ground arith) (read_full-Onward r q n xs full)

pub read_fixed-ne-unfinished : (r : Reader) (n : ℕ) → read_fixed r n ≢ unfinished
unfolding read_fixed
read_fixed-ne-unfinished r n =
    >>=-ne-unfinished (read_full r n) _ (read_full-ne-unfinished r n) λ a e p. cc

-- What is read is a piece of the input that begins where the length ends.
pub record Piece (r r' : Reader) (xs : Bytes) : Type 0 where
  pub onward : Onward r r'
  pub at : Reader
  pub size : ℕ
  pub same : at.s ≡ r.s
  pub piece : xs ≡ take size (rest at)

pub read_delimited-Piece :
    (r r' : Reader) (xs : Bytes) → read_delimited r ≡ ok (xs, r') → Piece r r' xs
unfolding read_delimited make_slice
read_delimited-Piece r r' xs e =
    let ((n, q), size, more) = >>=-eq-ok (read_uvarint r) _ e in
    let (unit, small, full) = >>=-eq-ok (make_slice n) _ more in
    let step = read_uvarint-Read r q n size in
    let rest_step = read_full-Onward q r' n xs full in
    record {
      onward = record {
        same = rest_step.same ∙ step.same;
        forward = omega (arith, step.forward, rest_step.forward);
      };
      at = q;
      size = n;
      same = step.same;
      piece = read_full-eq-take q r' n xs full;
    }

pub read_delimited-ne-unfinished : (r : Reader) → read_delimited r ≢ unfinished
unfolding read_delimited make_slice
read_delimited-ne-unfinished r =
    >>=-ne-unfinished (read_uvarint r) _ (read_uvarint-ne-unfinished r) λ (n, q) e.
      >>=-ne-unfinished (make_slice n) _ (λ p. ground arith) λ u d. read_full-ne-unfinished q n

seek_current-Onward :
    (r r' : Reader) (n : ℕ) → r.i < 2 ^ 63 → n < 2 ^ 63 → seek_current r n ≡ ok r' → Onward r r'
unfolding seek_current
seek_current-Onward r r' n inside small e = ground arith

-- `skipField` moves forward unless it seeks over a length of 2 ^ 63 or more.
pub skip_field-Onward :
    (r r' : Reader) (wire : ℕ)
    → IsSlice r.s
    → ((n : ℕ) (q : Reader) → wire ≡ 2 → read_uvarint r ≡ ok (n, q) → n < 2 ^ 63)
    → skip_field r wire ≡ ok r'
    → Onward r r'
unfolding skip_field
skip_field-Onward r r' zero slice small e =
    let ((v, q), read, last) = >>=-eq-ok (read_uvarint r) _ e in
    let step = read_uvarint-Read r q v read in
    let over : Onward r q = record { same = step.same; forward = omega (arith, step.forward) } in
    subst (λ z. Onward r z) (ground arith) over
skip_field-Onward r r' (suc zero) slice small e =
    let ((v, q), read, last) = >>=-eq-ok (read_fixed r 8) _ e in
    subst (λ z. Onward r z) (ground arith) (read_fixed-Onward r q 8 v read)
skip_field-Onward r r' (suc (suc zero)) slice small e =
    let ((n, q), read, seek) = >>=-eq-ok (read_uvarint r) _ e in
    let step = read_uvarint-Read r q n read in
    let over = seek_current-Onward q r' n (omega (arith, step.inside)) (small n q refl read) seek in
    record { same = over.same ∙ step.same; forward = omega (arith, step.forward, over.forward) }
skip_field-Onward r r' (suc (suc (suc (suc (suc zero))))) slice small e =
    let ((v, q), read, last) = >>=-eq-ok (read_fixed r 4) _ e in
    subst (λ z. Onward r z) (ground arith) (read_fixed-Onward r q 4 v read)
skip_field-Onward r r' _ slice small e = ground arith

pub skip_field-ne-unfinished : (r : Reader) (wire : ℕ) → skip_field r wire ≢ unfinished
unfolding skip_field seek_current
skip_field-ne-unfinished r wire e = ground (
  arith,
  read_uvarint-ne-unfinished r,
  read_fixed-ne-unfinished r 8,
  read_fixed-ne-unfinished r 4,
)
