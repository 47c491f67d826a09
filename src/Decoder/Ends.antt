-- ===== src/Decoder/Ends.antt =====
-- `DecodeTelemetryProtobuf` of server/core/telemetry/proto_decoder.go ends on every input whose
-- unknown fields do not claim 2 ^ 63 bytes or more.
use iot_server.Base.{
  ℕ, ◌/◌, ◌%◌, ◌≤◌, ◌≡◌, ◌≢◌, refl, ap, sym, ◌∙◌, arith, length, length-take, length-drop, ◌==◌,
  subst,
}
use iot_server.Base.Text.{Bytes}
use iot_server.Models.{TelemetryPayload}
use iot_server.Decoder.Outcome.{Outcome, ok, err, panic, unfinished, ◌>>=◌}
use iot_server.Decoder.Reader.{Reader, new_reader, rest, read_uvarint, read_delimited, skip_field}
use iot_server.Decoder.Messages.{
  next, payload_value, payload_field, parse_header, parse_metrics, parse_status, with_status,
  empty_payload, decode_telemetry_protobuf,
}
use iot_server.Decoder.Takes.{IsSlice}
use iot_server.Decoder.Progress.{
  Onward, read_uvarint-Read, read_uvarint-ne-unfinished, read_delimited-Piece,
  read_delimited-ne-unfinished,
}
use iot_server.Decoder.Moves.{RoundMoves, skip-RoundMoves, skip_field-SkipMoves, if-RoundMoves}
use iot_server.Decoder.Termination.{
  ForwardSkips, ForwardSkips-piece, Shortens, while_reading-ends, behind_tag, tag-SmallSkip, Moving,
  header_ends, metrics_ends, with_status_ends,
}

-- A delimited part that is parsed by a call that ends.
module _ {ℓ κ} {M : Type ℓ} {A : Type κ} (r : Reader) (parse : Bytes → Outcome A)
    (set : A → M) where
  sub_message-RoundMoves :
      (o : Outcome (Bytes × Reader))
      → o ≢ unfinished
      → ((xs : Bytes) (q : Reader) → o ≡ ok (xs, q) → Onward r q × (parse xs ≢ unfinished))
      → RoundMoves r (o >>= λ a. parse a.0 >>= λ x. ok (next a.1 (set x)))
  sub_message-RoundMoves (ok (xs, q)) h k = then_next (parse xs) (k xs q refl).0 (k xs q refl).1
    where
      then_next :
          (y : Outcome A)
          → Onward r q
          → y ≢ unfinished
          → RoundMoves r (y >>= λ x. ok (next q (set x)))
      then_next (ok x) on ends = on
      then_next (err x) on ends = tt
      then_next panic on ends = tt
      then_next unfinished on ends = ends refl
  sub_message-RoundMoves (err x) h k = tt
  sub_message-RoundMoves panic h k = tt
  sub_message-RoundMoves unfinished h k = h refl

-- What a delimited part is, in an input with forward skips only.
piece_facts :
    (s : Bytes) (r q : Reader) (xs : Bytes)
    → r.s ≡ s
    → IsSlice s
    → ForwardSkips s
    → read_delimited r ≡ ok (xs, q)
    → Onward r q × IsSlice xs × ForwardSkips xs × (length xs ≤ length s)
piece_facts s r q xs e slice forward read =
    let p = read_delimited-Piece r q xs read in
    let short : length xs ≤ length s = omega (
      arith,
      ap length p.piece,
      length-take p.size (rest p.at),
      length-drop p.at.i p.at.s,
      ap length p.same,
      ap length e,
    ) in
    (
      p.onward,
      omega arith,
      subst ForwardSkips (sym p.piece)
          (ForwardSkips-piece p.at p.size (subst ForwardSkips (sym (p.same ∙ e)) forward)),
      short,
    )

payload_value-Moving :
    (s : Bytes) (fuel : ℕ)
    → IsSlice s
    → ForwardSkips s
    → length s ≤ fuel
    → Moving (payload_value fuel) s
unfolding Moving payload_value
payload_value-Moving s fuel slice forward enough field wire r p e small =
    if-RoundMoves r (field == 1) _ _
      (sub_message-RoundMoves r (λ xs. parse_header fuel xs p.header) (λ h. record p { header = h })
        (read_delimited r) (read_delimited-ne-unfinished r)
        λ xs q read.
          let f = piece_facts s r q xs e slice forward read in
          (f.0, header_ends xs fuel p.header f.1 f.2 (omega (arith, f.3))))
      (if-RoundMoves r (field == 2) _ _
        (sub_message-RoundMoves r (λ xs. parse_metrics fuel xs p.metrics)
          (λ m. record p { metrics = m }) (read_delimited r) (read_delimited-ne-unfinished r)
          λ xs q read.
            let f = piece_facts s r q xs e slice forward read in
            (f.0, metrics_ends xs fuel p.metrics f.1 f.2 (omega (arith, f.3))))
        (if-RoundMoves r (field == 3) _ _
          (sub_message-RoundMoves r (λ xs. with_status (parse_status fuel xs) p) (λ p'. p')
            (read_delimited r) (read_delimited-ne-unfinished r)
            λ xs q read.
              let f = piece_facts s r q xs e slice forward read in
              (f.0, with_status_ends xs fuel p f.1 f.2 (omega (arith, f.3))))
          (skip-RoundMoves r (skip_field r wire) p
            (skip_field-SkipMoves r wire (subst IsSlice (sym e) slice) small))))

payload_field-Shortens :
    (fuel : ℕ) (r : Reader) (p : TelemetryPayload)
    → IsSlice r.s
    → ForwardSkips r.s
    → length r.s ≤ fuel
    → (o : Outcome (ℕ × Reader)) → read_uvarint r ≡ o
    → Shortens r.s r (payload_field fuel r p)
unfolding payload_field Moving
payload_field-Shortens fuel r p slice forward enough (ok (tag, q)) e =
    let step = read_uvarint-Read r q tag e in
    rw (e, payload_field)
      (behind_tag _ r q step (
        payload_value-Moving r.s fuel slice forward enough (tag / 8) (tag % 8) q p step.same
          (tag-SmallSkip r q tag forward e)))
payload_field-Shortens fuel r p slice forward enough (err x) e = ground (arith, e)
payload_field-Shortens fuel r p slice forward enough panic e = rw (e, payload_field) tt
payload_field-Shortens fuel r p slice forward enough unfinished e =
    absurd (read_uvarint-ne-unfinished r e)

-- The decoder ends on every input with forward skips only: rounds for its bytes are enough for each
-- of its loops, whatever else the input holds.
pub decode_ends :
    (bytes : Bytes) (fuel : ℕ)
    → IsSlice bytes
    → ForwardSkips bytes
    → length bytes ≤ fuel
    → decode_telemetry_protobuf fuel bytes ≢ unfinished
unfolding decode_telemetry_protobuf
decode_ends bytes fuel slice forward enough =
    while_reading-ends bytes (payload_field fuel)
      (λ r p e.
        subst (λ z. Shortens z r (payload_field fuel r p)) e
          (payload_field-Shortens fuel r p (subst IsSlice (sym e) slice)
            (subst ForwardSkips (sym e) forward) (subst (λ z. length z ≤ fuel) (sym e) enough)
            (read_uvarint r) refl))
      fuel (new_reader bytes) empty_payload refl (omega arith)
