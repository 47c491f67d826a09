-- ===== src/Decoder/Termination.antt =====
-- When the loops of server/core/telemetry/proto_decoder.go end.
use iot_server.Base.{
  ℕ, zero, suc, ◌+◌, ◌/◌, ◌%◌, ◌^◌, ◌≤◌, ◌<◌, ◌≡◌, ◌≢◌, refl, ap, sym, ◌∙◌, arith, length, take,
  subst, inl, inr, Option-cases,
}
use iot_server.Base.Text.{Bytes}
use iot_server.Models.{MessageHeader, MetricsData, DeviceStatus, TelemetryPayload}
use iot_server.Decoder.Outcome.{Outcome, ok, err, panic, unfinished}
use iot_server.Decoder.Reader.{Reader, new_reader, rest, advance, read_uvarint}
use iot_server.Decoder.Messages.{
  Round, next, stop, while_reading, with_tag, header_value, metrics_value, status_value,
  parse_header, parse_metrics, parse_status, with_status,
}
use iot_server.Decoder.Takes.{IsSlice}
use iot_server.Decoder.Progress.{Read, read_uvarint-Read}
use iot_server.Decoder.Prefix.{piece-Extends, read_uvarint-Follows}
use iot_server.Decoder.Moves.{
  RoundMoves, SmallSkip, header_value-RoundMoves, metrics_value-RoundMoves, status_value-RoundMoves,
}

-- Wherever a number of wire type 2 could be read as a tag, the length behind it is below 2 ^ 63.
abbrev pub ForwardSkips : Bytes → Type 0
ForwardSkips s =
    (i tag n : ℕ) (q q' : Reader)
    → read_uvarint (record { s = s; i = i }) ≡ ok (tag, q)
    → tag % 8 ≡ 2
    → read_uvarint q ≡ ok (n, q')
    → n < 2 ^ 63

pub ForwardSkips-piece : (at : Reader) (n : ℕ) → ForwardSkips at.s → ForwardSkips (take n (rest at))
ForwardSkips-piece at n forward i tag m q q' read two read' =
    let (more, ext) = piece-Extends at n i in
    let (p, tag_read, f) =
      read_uvarint-Follows (record { s = take n (rest at); i = i }) q (advance at i) tag more ext
        read in
    let (p', size_read, f') = read_uvarint-Follows q q' p m more f.extends read' in
    forward (at.i + i) tag m p p' tag_read two size_read

-- A round of a loop at a reader over `s` ends, and takes something of it.
abbrev pub Shortens {ℓ} : {M : Type ℓ} → Bytes → Reader → Outcome (Round M) → Type 0
Shortens s r (ok (next q m)) = (q.s ≡ s) × (r.i < q.i)
Shortens s r unfinished = ⊥
Shortens s r _ = Unit

module _ {ℓ} {M : Type ℓ} (s : Bytes) (body : Reader → M → Outcome (Round M))
    (shortens : (r : Reader) (m : M) → r.s ≡ s → Shortens s r (body r m)) where
  round_ends :
      (o : Outcome (Round M)) (fuel : ℕ) (r : Reader) (m : M)
      → body r m ≡ o
      → Shortens s r o
      → ((q : Reader) (m' : M) → q.s ≡ s → r.i < q.i → while_reading body fuel q m' ≢ unfinished)
      → while_reading body (suc fuel) r m ≢ unfinished
  unfolding while_reading
  round_ends (ok (next q m')) fuel r m e h k = ground (arith, k q m')
  round_ends (ok (stop m')) fuel r m e h k = λ p. ground arith
  round_ends (err x) fuel r m e h k = λ p. ground arith
  round_ends panic fuel r m e h k = λ p. ground arith
  round_ends unfinished fuel r m e h k = absurd h

  -- Fuel for the bytes that are left is enough.
  pub while_reading-ends :
      (fuel : ℕ) (r : Reader) (m : M)
      → r.s ≡ s
      → length s ≤ fuel + r.i
      → while_reading body fuel r m ≢ unfinished
  while_reading-ends zero r m e h = unfold while_reading in λ p. ground (arith, ap length e)
  while_reading-ends (suc fuel) r m e h =
      round_ends (body r m) fuel r m refl (shortens r m e)
        λ q m' same more. while_reading-ends fuel q m' same (omega arith)

-- What moves on behind the tag shortens the input.
pub behind_tag {ℓ} :
    {M : Type ℓ} (o : Outcome (Round M)) (r q : Reader)
    → Read r q
    → RoundMoves q o
    → Shortens r.s r o
behind_tag (ok (next z m)) r q step h = (h.same ∙ step.same, omega (arith, step.forward, h.forward))
behind_tag (ok (stop m)) r q step h = tt
behind_tag (err x) r q step h = tt
behind_tag panic r q step h = tt
behind_tag unfinished r q step h = h

-- Behind a tag in such an input, no length of 2 ^ 63 or more is skipped.
pub tag-SmallSkip :
    (r q : Reader) (tag : ℕ)
    → ForwardSkips r.s
    → read_uvarint r ≡ ok (tag, q)
    → SmallSkip q (tag % 8)
tag-SmallSkip r q tag forward read n q' two size = forward r.i tag n q q' read two size

unfoldable pub Moving {ℓ} : {M : Type ℓ} → (ℕ → ℕ → Reader → M → Outcome (Round M)) → Bytes → Type ℓ
Moving {M} value s =
    (field wire : ℕ) (r : Reader) (m : M)
    → r.s ≡ s
    → SmallSkip r wire
    → RoundMoves r (value field wire r m)

module _ {ℓ} {M : Type ℓ} (value : ℕ → ℕ → Reader → M → Outcome (Round M)) (r : Reader) (m : M)
    (forward : ForwardSkips r.s) (moving : Moving value r.s) where
  with_tag-Shortens :
      (o : Outcome (ℕ × Reader)) → read_uvarint r ≡ o → Shortens r.s r (with_tag value r m)
  unfolding Moving
  with_tag-Shortens (ok (tag, q)) e =
      let step = read_uvarint-Read r q tag e in
      rw (e, with_tag)
        (behind_tag _ r q step
          (moving (tag / 8) (tag % 8) q m step.same (tag-SmallSkip r q tag forward e)))
  with_tag-Shortens (err x) e = rw (e, with_tag) tt
  with_tag-Shortens panic e = rw (e, with_tag) tt
  with_tag-Shortens unfinished e = rw (e, with_tag) tt

-- A part of the message, over an input with forward skips only.
part_ends {ℓ} :
    {M : Type ℓ} (value : ℕ → ℕ → Reader → M → Outcome (Round M)) (s : Bytes) (fuel : ℕ) (m : M)
    → Moving value s
    → ForwardSkips s
    → length s ≤ fuel
    → while_reading (with_tag value) fuel (new_reader s) m ≢ unfinished
part_ends value s fuel m moving forward enough =
    while_reading-ends s (with_tag value)
      (λ r x e.
        subst (λ z. Shortens z r (with_tag value r x)) e
          (with_tag-Shortens value r x (subst ForwardSkips (sym e) forward)
            (subst (Moving value) (sym e) moving) (read_uvarint r) refl))
      fuel (new_reader s) m refl (omega arith)

pub header_ends :
    (s : Bytes) (fuel : ℕ) (h : MessageHeader)
    → IsSlice s
    → ForwardSkips s
    → length s ≤ fuel
    → parse_header fuel s h ≢ unfinished
unfolding parse_header Moving
header_ends s fuel h slice forward enough =
    part_ends header_value s fuel h
      (λ f w r m e small. header_value-RoundMoves f w r m (subst IsSlice (sym e) slice) small)
      forward enough

pub metrics_ends :
    (s : Bytes) (fuel : ℕ) (m : MetricsData)
    → IsSlice s
    → ForwardSkips s
    → length s ≤ fuel
    → parse_metrics fuel s m ≢ unfinished
unfolding parse_metrics Moving
metrics_ends s fuel m slice forward enough =
    part_ends metrics_value s fuel m
      (λ f w r m' e small. metrics_value-RoundMoves f w r m' (subst IsSlice (sym e) slice) small)
      forward enough

status_ends :
    (s : Bytes) (fuel : ℕ) (x : DeviceStatus)
    → IsSlice s
    → ForwardSkips s
    → length s ≤ fuel
    → parse_status fuel s x ≢ unfinished
unfolding parse_status Moving
status_ends s fuel x slice forward enough =
    part_ends status_value s fuel x
      (λ f w r m e small. status_value-RoundMoves f w r m (subst IsSlice (sym e) slice) small)
      forward enough

pub with_status_ends :
    (s : Bytes) (fuel : ℕ) (p : TelemetryPayload)
    → IsSlice s
    → ForwardSkips s
    → length s ≤ fuel
    → with_status (parse_status fuel s) p ≢ unfinished
with_status_ends s fuel p slice forward enough = elim (Option-cases p.status) [
  | inl e ↦ λ q. ground (arith, e)
  | inr (x, e) ↦ λ q. ground (arith, e, status_ends s fuel x slice forward enough)
]
