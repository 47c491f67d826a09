-- ===== src/Decoder/Takes.antt =====
-- Sequences of fields: what a loop over the fields of a message makes of an input that consists of
-- whole fields.
use mathlib.Core.List.{foldl}
use iot_server.Base.{
  ℕ, zero, suc, ◌+◌, ◌*◌, ◌/◌, ◌%◌, ◌^◌, ◌≤◌, ◌<◌, ◌≡◌, ap, sym, ◌∙◌, List, [], ◌∷◌, ◌++◌,
  append_assoc, arith, length, length-append, All,
}
use iot_server.Base.Text.{Bytes}
use iot_server.Serializer.Wire.{encode_varint, encode_tag}
use iot_server.Decoder.Outcome.{Outcome, ok}
use iot_server.Decoder.Reader.{Reader, rest, advance, len, read_uvarint}
use iot_server.Decoder.Reads.{
  rest-advance, length-rest, advance-advance, read_uvarint-encode_varint, length-encode_varint,
}
use iot_server.Decoder.Messages.{Round, next, while_reading}

-- One round of the loop.
module _ {ℓ} {M : Type ℓ} (body : Reader → M → Outcome (Round M)) where
  while_reading_end :
      (fuel : ℕ) (r : Reader) (m : M) → len r ≡ 0 → while_reading body fuel r m ≡ ok m
  unfolding while_reading
  while_reading_end zero r m e = ground arith
  while_reading_end (suc fuel) r m e = ground arith

  while_reading_next :
      (fuel : ℕ) (r r' : Reader) (m m' : M)
      → 0 < len r
      → body r m ≡ ok (next r' m')
      → while_reading body (suc fuel) r m ≡ while_reading body fuel r' m'
  unfolding while_reading
  while_reading_next fuel r r' m m' h e = ground arith

-- A Go slice is shorter than 2 ^ 63.
abbrev pub IsSlice : Bytes → Type 0
IsSlice s = length s < 2 ^ 63

module _ {ℓ} {M : Type ℓ} where
  -- A round of the loop at the bytes `xs` takes these, and `m` becomes `m'`.
  pub record Takes (body : Reader → M → Outcome (Round M)) (m : M) (xs : Bytes) (m' : M)
      : Type ℓ where
    pub nonempty : 0 < length xs
    pub round :
        (r : Reader) (tail : Bytes)
        → IsSlice r.s
        → rest r ≡ xs ++ tail
        → body r m ≡ ok (next (advance r (length xs)) m')

  -- What comes after the tag, at the bytes `xs`.
  abbrev pub TakesValue : (ℕ → ℕ → Reader → M → Outcome (Round M)) → ℕ → ℕ → M → Bytes → M → Type ℓ
  TakesValue value field wire m xs m' =
      (r : Reader) (tail : Bytes)
      → IsSlice r.s
      → rest r ≡ xs ++ tail
      → value field wire r m ≡ ok (next (advance r (length xs)) m')

module _ {ℓ} {M : Type ℓ} (body : Reader → M → Outcome (Round M))
    (value : ℕ → ℕ → Reader → M → Outcome (Round M))
    (tagged : (r r' : Reader) (tag : ℕ) (m : M)
      → read_uvarint r ≡ ok (tag, r')
      → body r m ≡ value (tag / 8) (tag % 8) r' m) where
  pub tag-Takes :
      (field wire : ℕ) (m : M) (xs : Bytes) (m' : M)
      → field < 2 ^ 29
      → wire < 8
      → TakesValue value field wire m xs m'
      → Takes body m (encode_tag field wire ++ xs) m'
  unfolding encode_tag
  tag-Takes field wire m xs m' hf hw takes =
      let tag = encode_varint (field * 8 + wire) in
      record {
        nonempty = omega (arith, length-append {0} tag xs, length-encode_varint (field * 8 + wire));
        round = λ r tail slice e.
            let e' = e ∙ append_assoc tag xs tail in
            let r' = advance r (length tag) in
            let field_eq : (field * 8 + wire) / 8 ≡ field = omega arith in
            let wire_eq : (field * 8 + wire) % 8 ≡ wire = omega arith in
            tagged r r' (field * 8 + wire) m
              (read_uvarint-encode_varint r (field * 8 + wire) (xs ++ tail) (omega arith) e')
            ∙ (λ i. value (field_eq i) (wire_eq i) r' m)
            ∙ takes r' tail slice (rest-advance r tag (xs ++ tail) e')
            ∙ (λ i. ok (
                next
                  (advance-advance r (length tag) (length xs) (length (tag ++ xs))
                    (sym (length-append tag xs)) i)
                  m'));
      }

-- The bytes of fields, one after the other.
unfoldable pub all_bytes {ℓ} : {F : Type ℓ} → (F → Bytes) → List F → Bytes
all_bytes bytes [] = []
all_bytes bytes (f ∷ fs) = bytes f ++ all_bytes bytes fs

module _ {ℓ κ} {F : Type κ} {M : Type ℓ} (IsField : F → Type 0) (bytes : F → Bytes)
    (set : M → F → M) (body : Reader → M → Outcome (Round M)) (Inv : M → Type 0)
    (keeps : (f : F) (m : M) → Inv m → Inv (set m f))
    (takes : (f : F) (m : M) → Inv m → IsField f → Takes body m (bytes f) (set m f)) where
  -- The loop makes one round for each field, and ends with the last.
  pub while_reading-all_bytes :
      (fs : List F) (fuel : ℕ) (r : Reader) (m : M)
      → Inv m
      → All IsField fs
      → length fs ≤ fuel
      → IsSlice r.s
      → rest r ≡ all_bytes bytes fs
      → while_reading body fuel r m ≡ ok (foldl set m fs)
  unfolding all_bytes
  while_reading-all_bytes [] fuel r m inv good enough slice e =
      while_reading_end body fuel r m (omega (arith, length-rest r, ap length e))
  while_reading-all_bytes (f ∷ fs) zero r m inv good enough slice e = absurd (omega arith)
  while_reading-all_bytes (f ∷ fs) (suc fuel) r m inv good enough slice e =
      let t = takes f m inv good.0 in
      let more = all_bytes bytes fs in
      while_reading_next body fuel r (advance r (length (bytes f))) m (set m f)
        (omega (arith, length-rest r, ap length e, length-append {0} (bytes f) more, t.nonempty))
        (t.round r more slice e)
      ∙ while_reading-all_bytes fs fuel (advance r (length (bytes f))) (set m f) (keeps f m inv)
          good.1 (omega arith) slice (rest-advance r (bytes f) more e)
