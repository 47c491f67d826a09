-- ===== src/Edge/Queue.antt =====
-- The buffer of edge/middleware/telemetry/telemetry_buffer.c is a queue of at most 32 messages
-- that drops the oldest one for a new one.
use iot_server.Base.{
  ℕ, zero, suc, ◌+◌, ◌-◌, ◌%◌, ◌≤◌, ◌<◌, ◌≡◌, ◌≢◌, refl, sym, ap, ◌∙◌, subst, Bool, true, false,
  Option, none, some, List, [], ◌∷◌, ◌++◌, length, arith, ◌==◌, if◌then◌else◌, not,
}
use iot_server.Serializer.Telemetry.{TelemetryData}
use iot_server.Edge.Window.{length-set, length-window, window, window-set, window_unfold}
use iot_server.Edge.Buffer.{
  RingBuffer, set, get_or, zero_data, stored, make_room, telemetry_buffer_init,
  telemetry_buffer_push, telemetry_buffer_peek, telemetry_buffer_pop, telemetry_buffer_is_empty,
  telemetry_buffer_count,
}

pub record IsValid (buf : RingBuffer) : Type 0 where
  pub size : length buf.items ≡ 32
  pub head_in : buf.head < 32
  pub tail_after : buf.tail ≡ (buf.head + buf.count) % 32
  pub count_in : buf.count ≤ 32

unfoldable pub contents : RingBuffer → List TelemetryData
contents buf = window buf.items buf.head buf.count

-- The queue: a message behind the others, of which a full queue drops the first.
abbrev pub without_first : List TelemetryData → List TelemetryData
without_first [] = []
without_first (t ∷ ts) = ts

unfoldable pub enqueue : TelemetryData → List TelemetryData → List TelemetryData
enqueue t ts = (if length ts == 32 then without_first ts else ts) ++ (t ∷ [])

pub init-IsValid : IsValid telemetry_buffer_init × (contents telemetry_buffer_init ≡ [])
unfolding telemetry_buffer_init contents
init-IsValid = (
  record { size = refl; head_in = omega arith; tail_after = omega arith; count_in = omega arith },
  refl,
)

-- Giving up the oldest message.
first_out :
    (buf : RingBuffer)
    → IsValid buf
    → buf.count ≢ 0
    → IsValid (record buf { head = (buf.head + 1) % 32; count = buf.count - 1 })
      × (contents (record buf { head = (buf.head + 1) % 32; count = buf.count - 1 })
          ≡ without_first (contents buf))
unfolding contents
first_out buf v some_in =
    let tail_after = v.tail_after in
    let inside = v.head_in in
    let few = v.count_in in
    (
      record {
        size = v.size;
        head_in = omega arith;
        tail_after = omega arith;
        count_in = omega arith;
      },
      ap without_first (sym (window_unfold buf.items buf.head buf.count some_in)),
    )

make_room-IsValid :
    (buf : RingBuffer)
    → IsValid buf
    → IsValid (make_room buf)
      × ((make_room buf).count < 32)
      × (contents (make_room buf)
          ≡ (if buf.count == 32 then without_first (contents buf) else contents buf))
unfolding make_room
make_room-IsValid buf v = go (buf.count == 32) refl
  where
    go :
        (full : Bool)
        → (buf.count == 32) ≡ full
        → IsValid
            (if full then record buf { head = (buf.head + 1) % 32; count = buf.count - 1 } else buf)
          × ((if full
                then record buf { head = (buf.head + 1) % 32; count = buf.count - 1 }
                else buf).count
              < 32)
          × (contents (
                if full
                then record buf { head = (buf.head + 1) % 32; count = buf.count - 1 }
                else buf)
              ≡ (if full then without_first (contents buf) else contents buf))
    go true e =
        let (valid, out) = first_out buf v (ground (arith, e)) in
        let few = v.count_in in (valid, omega arith, out)
    go false e = let few = v.count_in in (v, ground (arith, e), refl)

-- Writing a message behind the others of a buffer that has room.
put_behind :
    (t : TelemetryData) (buf : RingBuffer)
    → IsValid buf
    → buf.count < 32
    → IsValid (record buf {
      items = set buf.items buf.tail t;
      tail = (buf.tail + 1) % 32;
      count = buf.count + 1;
    })
      × (contents (record buf {
        items = set buf.items buf.tail t;
        tail = (buf.tail + 1) % 32;
        count = buf.count + 1;
      })
          ≡ contents buf ++ (t ∷ []))
unfolding contents
put_behind t buf v room =
    let inside = v.head_in in
    let tail_after = v.tail_after in
    let more : suc buf.count ≡ buf.count + 1 = omega arith in
    let put =
      subst
        (λ i.
          window (set buf.items i t) buf.head (suc buf.count)
          ≡ window buf.items buf.head buf.count ++ (t ∷ []))
        (sym tail_after) (window-set buf.items buf.head buf.count t v.size inside room) in
    (
      record {
        size = length-set buf.items buf.tail t ∙ v.size;
        head_in = inside;
        tail_after = omega arith;
        count_in = omega arith;
      },
      subst
          (λ n.
            window (set buf.items buf.tail t) buf.head n
            ≡ window buf.items buf.head buf.count ++ (t ∷ []))
          more put,
    )

-- A message is put behind the others, and the oldest of 32 is lost.
pub telemetry_buffer_push-enqueue :
    (t : TelemetryData) (buf : RingBuffer)
    → IsValid buf
    → IsValid (telemetry_buffer_push t buf)
      × (contents (telemetry_buffer_push t buf) ≡ enqueue (stored t) (contents buf))
unfolding telemetry_buffer_push enqueue
telemetry_buffer_push-enqueue t buf v =
    let (w, room, out) = make_room-IsValid buf v in
    let (valid, behind) = put_behind (stored t) (make_room buf) w room in
    let many : buf.count ≡ length (contents buf) =
      sym (unfold contents in length-window buf.items buf.head buf.count) in
    let out' =
      subst
        (λ n.
          contents (make_room buf)
          ≡ (if n == 32 then without_first (contents buf) else contents buf))
        many out in
    (valid, behind ∙ ap (λ ts. ts ++ (stored t ∷ [])) out')

abbrev pub first_of : List TelemetryData → Option TelemetryData
first_of [] = none
first_of (t ∷ ts) = some t

abbrev pub is_empty : List TelemetryData → Bool
is_empty [] = true
is_empty (t ∷ ts) = false

nothing_first : (ts : List TelemetryData) → is_empty ts ≡ true → ts ≡ without_first ts
nothing_first [] h = refl
nothing_first (t ∷ ts) h = ground arith

-- Whether there is a message, the oldest one, and the buffer without it.
pub telemetry_buffer_peek-first_of :
    (buf : RingBuffer)
    → (telemetry_buffer_is_empty buf ≡ is_empty (contents buf))
      × (telemetry_buffer_peek buf ≡ first_of (contents buf))
unfolding telemetry_buffer_peek telemetry_buffer_is_empty contents
telemetry_buffer_peek-first_of buf = go buf.count
  where
    go :
        (n : ℕ)
        → ((n == 0) ≡ is_empty (window buf.items buf.head n))
          × ((if n == 0 then none else some (get_or buf.items buf.head zero_data))
              ≡ first_of (window buf.items buf.head n))
    go zero = (refl, refl)
    go (suc n) = (ground arith, ground arith)

abbrev IsPopped : RingBuffer → Bool × RingBuffer → Type 0
IsPopped buf (there, buf') =
    IsValid buf'
    × (contents buf' ≡ without_first (contents buf))
    × (there ≡ not (is_empty (contents buf)))

pub telemetry_buffer_pop-without_first :
    (buf : RingBuffer)
    → IsValid buf
    → IsValid (telemetry_buffer_pop buf).1
      × (contents (telemetry_buffer_pop buf).1 ≡ without_first (contents buf))
      × ((telemetry_buffer_pop buf).0 ≡ not (is_empty (contents buf)))
unfolding telemetry_buffer_pop
telemetry_buffer_pop-without_first buf v = go (buf.count == 0) refl
  where
    go :
        (empty : Bool)
        → (buf.count == 0) ≡ empty
        → IsPopped buf (
            if empty
            then (false, buf)
            else (true, record buf { head = (buf.head + 1) % 32; count = buf.count - 1 }))
    go true e =
        let same : true ≡ is_empty (contents buf) =
          sym e ∙ unfold telemetry_buffer_is_empty in (telemetry_buffer_peek-first_of buf).0 in
        (v, nothing_first (contents buf) (sym same), ap not same)
    go false e =
        let (w, out) = first_out buf v (ground (arith, e)) in
        (
          w,
          out,
          ap not
              (sym e ∙ unfold telemetry_buffer_is_empty in (telemetry_buffer_peek-first_of buf).0),
        )

pub length-contents : (buf : RingBuffer) → length (contents buf) ≡ telemetry_buffer_count buf
unfolding contents telemetry_buffer_count
length-contents buf = length-window buf.items buf.head buf.count
