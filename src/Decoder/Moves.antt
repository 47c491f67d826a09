-- ===== src/Decoder/Moves.antt =====
-- Each round of the loops over fields of server/core/telemetry/proto_decoder.go ends, and moves its
-- reader onward unless it skips a length of 2 ^ 63 or more.
use iot_server.Base.{
  ℕ, ◌%◌, ◌^◌, ◌<◌, ◌≡◌, ◌≢◌, refl, sym, Bool, true, false, arith, ◌==◌, if◌then◌else◌, subst,
}
use iot_server.Base.Text.{Bytes}
use iot_server.Base.Int.{signed}
use iot_server.Base.Float.{float32_from_bits}
use iot_server.Models.{MessageHeader, MetricsData, DeviceStatus}
use iot_server.Decoder.Outcome.{Outcome, ok, err, panic, unfinished, ◌>>=◌}
use iot_server.Decoder.Reader.{
  Reader, read_uvarint, read_delimited, read_string, read_fixed, skip_field,
}
use iot_server.Decoder.Reads.{read_string-read_delimited}
use iot_server.Decoder.Messages.{Round, next, header_value, metrics_value, status_value, state_name}
use iot_server.Decoder.Takes.{IsSlice}
use iot_server.Decoder.Progress.{
  Onward, read_uvarint-Read, read_uvarint-ne-unfinished, read_fixed-Onward,
  read_fixed-ne-unfinished, read_delimited-Piece, read_delimited-ne-unfinished, skip_field-Onward,
  skip_field-ne-unfinished,
}

-- A read ends, and onward if it succeeds.
abbrev pub Moves {ℓ} : {A : Type ℓ} → Reader → Outcome (A × Reader) → Type 0
Moves r (ok (v, q)) = Onward r q
Moves r unfinished = ⊥
Moves r _ = Unit

-- So with a skip, and with a round of a loop.
abbrev pub SkipMoves : Reader → Outcome Reader → Type 0
SkipMoves r (ok q) = Onward r q
SkipMoves r unfinished = ⊥
SkipMoves r _ = Unit

abbrev pub RoundMoves {ℓ} : {M : Type ℓ} → Reader → Outcome (Round M) → Type 0
RoundMoves r (ok (next q m)) = Onward r q
RoundMoves r unfinished = ⊥
RoundMoves r _ = Unit

Moves-intro {ℓ} :
    {A : Type ℓ} (r : Reader) (o : Outcome (A × Reader))
    → o ≢ unfinished
    → ((v : A) (q : Reader) → o ≡ ok (v, q) → Onward r q)
    → Moves r o
Moves-intro r (ok (v, q)) h k = k v q refl
Moves-intro r (err e) h k = tt
Moves-intro r panic h k = tt
Moves-intro r unfinished h k = h refl

SkipMoves-intro :
    (r : Reader) (o : Outcome Reader)
    → o ≢ unfinished
    → ((q : Reader) → o ≡ ok q → Onward r q)
    → SkipMoves r o
SkipMoves-intro r (ok q) h k = k q refl
SkipMoves-intro r (err e) h k = tt
SkipMoves-intro r panic h k = tt
SkipMoves-intro r unfinished h k = h refl

read_uvarint-Moves : (r : Reader) → Moves r (read_uvarint r)
read_uvarint-Moves r = Moves-intro r (read_uvarint r) (read_uvarint-ne-unfinished r) λ v q e.
    let step = read_uvarint-Read r q v e in
    record { same = step.same; forward = omega (arith, step.forward) }

read_fixed-Moves : (r : Reader) (n : ℕ) → Moves r (read_fixed r n)
read_fixed-Moves r n =
    Moves-intro r (read_fixed r n) (read_fixed-ne-unfinished r n)
      λ v q e. read_fixed-Onward r q n v e

read_delimited-Moves : (r : Reader) → Moves r (read_delimited r)
read_delimited-Moves r =
    Moves-intro r (read_delimited r) (read_delimited-ne-unfinished r)
      λ xs q e. (read_delimited-Piece r q xs e).onward

read_string-Moves : (r : Reader) → Moves r (read_string r)
read_string-Moves r = subst (Moves r) (sym (read_string-read_delimited r)) (read_delimited-Moves r)

-- No length of 2 ^ 63 or more stands at the reader, if the wire type is 2.
abbrev pub SmallSkip : Reader → ℕ → Type 0
SmallSkip r wire = (n : ℕ) (q : Reader) → wire ≡ 2 → read_uvarint r ≡ ok (n, q) → n < 2 ^ 63

pub skip_field-SkipMoves :
    (r : Reader) (wire : ℕ) → IsSlice r.s → SmallSkip r wire → SkipMoves r (skip_field r wire)
skip_field-SkipMoves r wire slice small =
    SkipMoves-intro r (skip_field r wire) (skip_field-ne-unfinished r wire)
      λ q e. skip_field-Onward r q wire slice small e

module _ {ℓ} {M : Type ℓ} (r : Reader) where
  bind-RoundMoves {κ} :
      {A : Type κ} (o : Outcome (A × Reader)) (set : A → M)
      → Moves r o
      → RoundMoves r (o >>= λ a. ok (next a.1 (set a.0)))
  bind-RoundMoves (ok (v, q)) set h = h
  bind-RoundMoves (err e) set h = tt
  bind-RoundMoves panic set h = tt
  bind-RoundMoves unfinished set h = h

  pub skip-RoundMoves :
      (o : Outcome Reader) (m : M) → SkipMoves r o → RoundMoves r (o >>= λ q. ok (next q m))
  skip-RoundMoves (ok q) m h = h
  skip-RoundMoves (err e) m h = tt
  skip-RoundMoves panic m h = tt
  skip-RoundMoves unfinished m h = h

  pub if-RoundMoves :
      (b : Bool) (x y : Outcome (Round M))
      → RoundMoves r x
      → RoundMoves r y
      → RoundMoves r (if b then x else y)
  if-RoundMoves true x y hx hy = hx
  if-RoundMoves false x y hx hy = hy

pub header_value-RoundMoves :
    (field wire : ℕ) (r : Reader) (h : MessageHeader)
    → IsSlice r.s
    → SmallSkip r wire
    → RoundMoves r (header_value field wire r h)
unfolding header_value
header_value-RoundMoves field wire r h slice small =
    let number =
      λ (set : ℕ → MessageHeader). bind-RoundMoves r (read_uvarint r) set (read_uvarint-Moves r) in
    let text = λ (set : Bytes → MessageHeader).
      bind-RoundMoves r (read_string r) set (read_string-Moves r) in
    let skip = skip-RoundMoves r (skip_field r wire) h (skip_field-SkipMoves r wire slice small) in
    if-RoundMoves r (field == 1) _ _ (text (λ v. record h { device_id = v })) (
      if-RoundMoves r (field == 2) _ _ (number (λ v. record h { timestamp = signed 64 v })) (
        if-RoundMoves r (field == 3) _ _ (number (λ v. record h { seq_no = v % 2 ^ 32 })) (
          if-RoundMoves r (field == 4) _ _ (text (λ v. record h { firmware_version = v })) (
            if-RoundMoves r (field == 5) _ _ (number (λ v. record h { boot_count = v % 2 ^ 32 }))
              skip))))

pub metrics_value-RoundMoves :
    (field wire : ℕ) (r : Reader) (m : MetricsData)
    → IsSlice r.s
    → SmallSkip r wire
    → RoundMoves r (metrics_value field wire r m)
unfolding metrics_value
metrics_value-RoundMoves field wire r m slice small =
    let number =
      λ (set : ℕ → MetricsData). bind-RoundMoves r (read_uvarint r) set (read_uvarint-Moves r) in
    let float =
      λ (set : ℕ → MetricsData). bind-RoundMoves r (read_fixed r 4) set (read_fixed-Moves r 4) in
    let skip = skip-RoundMoves r (skip_field r wire) m (skip_field-SkipMoves r wire slice small) in
    if-RoundMoves r (field == 1) _ _ (float (λ v. record m { temperature = float32_from_bits v })) (
      if-RoundMoves r (field == 2) _ _ (float (λ v. record m { humidity = float32_from_bits v })) (
        if-RoundMoves r (field == 3) _ _
          (float (λ v. record m { battery_voltage = float32_from_bits v }))
          (if-RoundMoves r (field == 4) _ _
            (number (λ v. record m { battery_level_pct = v % 2 ^ 32 }))
            (if-RoundMoves r (field == 5) _ _ (number (λ v. record m { rssi = signed 32 v })) (
              if-RoundMoves r (field == 6) _ _
                (number (λ v. record m { interval_sec = v % 2 ^ 32 })) skip)))))

pub status_value-RoundMoves :
    (field wire : ℕ) (r : Reader) (s : DeviceStatus)
    → IsSlice r.s
    → SmallSkip r wire
    → RoundMoves r (status_value field wire r s)
unfolding status_value
status_value-RoundMoves field wire r s slice small =
    let number =
      λ (set : ℕ → DeviceStatus). bind-RoundMoves r (read_uvarint r) set (read_uvarint-Moves r) in
    let skip = skip-RoundMoves r (skip_field r wire) s (skip_field-SkipMoves r wire slice small) in
    if-RoundMoves r (field == 1) _ _ (number (λ v. record s { state = state_name v })) (
      if-RoundMoves r (field == 2) _ _ (number (λ v. record s { uptime_sec = v % 2 ^ 32 })) (
        if-RoundMoves r (field == 3) _ _ (number (λ v. record s { free_heap_bytes = v % 2 ^ 32 }))
          skip))
