-- ===== src/Edge/Conserved.antt =====
-- What the sending of edge/app/src/app_state_machine.c does with the messages of the buffer. The
-- program gets to it with an emptied buffer only (Edge/Reached).
use iot_server.Base.{
  ℕ, zero, suc, ◌≡◌, ◌≢◌, ◌⊎◌, inl, inr, refl, sym, ap, ◌∙◌, subst, Bool, true, false, some, List,
  [], ◌∷◌, ◌++◌, length, arith, if◌then◌else◌, Bool-cases,
}
use iot_server.Serializer.Telemetry.{TelemetryData}
use iot_server.Edge.Buffer.{
  RingBuffer, stored, telemetry_buffer_push, telemetry_buffer_peek, telemetry_buffer_pop,
  telemetry_buffer_is_empty, telemetry_buffer_count,
}
use iot_server.Edge.Queue.{
  init-IsValid, IsValid, contents, enqueue, first_of, is_empty, without_first,
  telemetry_buffer_push-enqueue, telemetry_buffer_peek-first_of, telemetry_buffer_pop-without_first,
  length-contents,
}
use iot_server.Edge.Loop.{
  app_state_machine_init, Hal, App, Flush, interrupted, unfinished, transmit_telemetry_item, flush,
  transmit,
}

-- What a loop over the buffer sends is at the front of it, and it leaves the rest.
abbrev IsFlush : {W : Type 0} → RingBuffer → Flush × List TelemetryData × RingBuffer × W → Type 0
IsFlush buf (end, items, buf', w) =
    IsValid buf' × (items ++ contents buf' ≡ contents buf) × (end ≢ unfinished)

pub one_more :
    (ts : List TelemetryData) (n : ℕ)
    → length ts ≡ suc n
    → (t : TelemetryData) × (rest : List TelemetryData) × (ts ≡ t ∷ rest) × (length rest ≡ n)
one_more [] n e = absurd (omega arith)
one_more (t ∷ rest) n e = (t, rest, refl, omega arith)

pub no_more : (ts : List TelemetryData) → length ts ≡ 0 → is_empty ts ≡ true
no_more [] e = refl
no_more (t ∷ rest) e = absurd (omega arith)

module _ {W : Type 0} (hal : Hal W) where
  flush-IsFlush :
      (n : ℕ) (buf : RingBuffer) (w : W)
      → IsValid buf
      → length (contents buf) ≡ n
      → IsFlush buf (flush hal n buf w)
  unfolding flush
  flush-IsFlush zero buf w v e =
      let empty : telemetry_buffer_is_empty buf ≡ true =
        (telemetry_buffer_peek-first_of buf).0 ∙ no_more (contents buf) e in
      (v, refl, λ h. ground (arith, h, empty))
  flush-IsFlush (suc n) buf w v e =
      let (t, rest, is, many) = one_more (contents buf) n e in
      let peeked : telemetry_buffer_peek buf ≡ some t =
        (telemetry_buffer_peek-first_of buf).1 ∙ ap first_of is in
      let (popped, left, there) = telemetry_buffer_pop-without_first buf v in
      let left' : contents (telemetry_buffer_pop buf).1 ≡ rest = left ∙ ap without_first is in
      let w' = (transmit_telemetry_item hal t w).0 in
      elim (Bool-cases (transmit_telemetry_item hal t w).1) [
        | inr failed ↦
            let is_flush : flush hal (suc n) buf w ≡ (interrupted, [], buf, w') =
              ground (arith, peeked, failed) in
            subst (IsFlush buf) (sym is_flush) (v, refl, λ h. ground (arith, h))
        | inl good ↦
            let (v', split, ends) =
              flush-IsFlush n (telemetry_buffer_pop buf).1 w' popped (ap length left' ∙ many) in
            let more = flush hal n (telemetry_buffer_pop buf).1 w' in
            let is_flush : flush hal (suc n) buf w ≡ (more.0, t ∷ more.1, more.2, more.3) =
              ground (arith, peeked, good) in
            subst (IsFlush buf) (sym is_flush)
              (v', ap (λ ts. t ∷ ts) (split ∙ left') ∙ sym is, ends)
      ]

-- Where the messages are behind a wake-up: those of the buffer that were sent, in order, and the
-- rest, in order, are what the buffer had; and the message of this time was sent behind them, or
-- is in the buffer behind the rest.
pub record IsConserved (current : TelemetryData) (before after sent : List TelemetryData)
    : Type 0 where
  pub first : List TelemetryData
  pub rest : List TelemetryData
  pub all : first ++ rest ≡ before
  pub last :
      ((sent ≡ first ++ (current ∷ [])) × (after ≡ rest))
      ⊎ ((sent ≡ first) × (after ≡ enqueue (stored current) rest))

module _ {W : Type 0} (hal : Hal W) where
  transmit-IsConserved :
      (current : TelemetryData) (buf : RingBuffer) (w : W)
      → IsValid buf
      → let x = transmit hal current buf w in
        IsConserved current (contents buf) (contents x.1) x.0 × IsValid x.1
  unfolding transmit
  transmit-IsConserved current buf w v =
      let (v', split, ends) =
        flush-IsFlush hal (telemetry_buffer_count buf) buf w v (length-contents buf) in
      let f = flush hal (telemetry_buffer_count buf) buf w in
      let (pushed, behind) = telemetry_buffer_push-enqueue current f.2 v' in
      let w' = (transmit_telemetry_item hal current f.3).0 in
      let Both = λ (x : List TelemetryData × RingBuffer × W).
        IsConserved current (contents buf) (contents x.1) x.0 × IsValid x.1 in
      elim (Bool-cases (transmit_telemetry_item hal current f.3).1) [
        | inl good ↦
            let is : transmit hal current buf w ≡ (f.1 ++ (current ∷ []), f.2, w') =
              ground (arith, good) in
            subst Both (sym is) (
              record { first = f.1; rest = contents f.2; all = split; last = inl (refl, refl) },
              v',
            )
        | inr failed ↦
            let is : transmit hal current buf w ≡ (f.1, telemetry_buffer_push current f.2, w') =
              ground (arith, failed) in
            subst Both (sym is) (
              record { first = f.1; rest = contents f.2; all = split; last = inr (refl, behind) },
              pushed,
            )
      ]

  -- With the network and without.
  online-IsConserved :
      (current : TelemetryData) (buf : RingBuffer) (w : W) (online : Bool)
      → IsValid buf
      → let x =
          if online
          then transmit hal current buf w
          else ([], telemetry_buffer_push current buf, w) in
        IsConserved current (contents buf) (contents x.1) x.0 × IsValid x.1
  online-IsConserved current buf w true v = transmit-IsConserved current buf w v
  online-IsConserved current buf w false v =
      let (pushed, behind) = telemetry_buffer_push-enqueue current buf v in
      (record { first = []; rest = contents buf; all = refl; last = inr (refl, behind) }, pushed)

-- Starting the state machine again forgets the messages that a wake-up has kept.
app_state_machine_init-forgets :
    (app : App) → contents (app_state_machine_init true app).0.offline_buffer ≡ []
unfolding app_state_machine_init
app_state_machine_init-forgets app = init-IsValid.1
