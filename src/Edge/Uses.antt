-- ===== src/Edge/Uses.antt =====
-- The buffer of edge/middleware/telemetry/telemetry_buffer.c answers like a queue, over any
-- sequence of calls.
use iot_server.Base.{
  ℕ, ◌≡◌, refl, sym, ap, ◌∙◌, subst, Bool, true, Option, none, some, List, [], ◌∷◌, length, take,
  not, arith,
}
use iot_server.Base.Text.{Bytes}
use iot_server.Serializer.Telemetry.{TelemetryData}
use iot_server.Edge.Buffer.{
  RingBuffer, stored, strncpy, telemetry_buffer_init, telemetry_buffer_push, telemetry_buffer_peek,
  telemetry_buffer_pop, telemetry_buffer_is_empty, telemetry_buffer_count,
}
use iot_server.Edge.Queue.{
  IsValid, contents, enqueue, first_of, is_empty, without_first, init-IsValid,
  telemetry_buffer_push-enqueue, telemetry_buffer_peek-first_of, telemetry_buffer_pop-without_first,
  length-contents,
}

-- A call, and what it answers.
pub data Use : Type 0 where
  push : TelemetryData → Use
  peek : Use
  pop : Use
  ask_empty : Use
  ask_count : Use

pub data Answer : Type 0 where
  truth : Bool → Answer
  message : Option TelemetryData → Answer
  number : ℕ → Answer

abbrev pub use_buffer : Use → RingBuffer → Answer × RingBuffer
use_buffer (push t) buf = (truth true, telemetry_buffer_push t buf)
use_buffer peek buf = (message (telemetry_buffer_peek buf), buf)
use_buffer pop buf = let (there, buf') = telemetry_buffer_pop buf in (truth there, buf')
use_buffer ask_empty buf = (truth (telemetry_buffer_is_empty buf), buf)
use_buffer ask_count buf = (number (telemetry_buffer_count buf), buf)

-- A message whose texts are cut to the size of the arrays of a slot, less the 0 behind them.
abbrev cut : ℕ → Option Bytes → Option Bytes
cut n none = none
cut n (some text) = some (take n text)

abbrev kept : TelemetryData → TelemetryData
kept t = record {
  device_id = cut 31 t.device_id;
  timestamp = t.timestamp;
  seq_no = t.seq_no;
  firmware_version = cut 15 t.firmware_version;
  boot_count = t.boot_count;
  temperature = t.temperature;
  humidity = t.humidity;
  battery_voltage = t.battery_voltage;
  battery_level_pct = t.battery_level_pct;
  rssi = t.rssi;
  interval_sec = t.interval_sec;
  state = cut 15 t.state;
  uptime_sec = t.uptime_sec;
  free_heap_bytes = t.free_heap_bytes;
}

cut-strncpy : (n : ℕ) (text : Option Bytes) → strncpy n text ≡ cut n text
cut-strncpy n none = refl
cut-strncpy n (some text) = refl

stored-kept : (t : TelemetryData) → stored t ≡ kept t
unfolding stored
stored-kept t =
    ground
      (arith, cut-strncpy 31 t.device_id, cut-strncpy 15 t.firmware_version, cut-strncpy 15 t.state)

abbrev pub use_queue : Use → List TelemetryData → Answer × List TelemetryData
use_queue (push t) ts = (truth true, enqueue (kept t) ts)
use_queue peek ts = (message (first_of ts), ts)
use_queue pop ts = (truth (not (is_empty ts)), without_first ts)
use_queue ask_empty ts = (truth (is_empty ts), ts)
use_queue ask_count ts = (number (length ts), ts)

abbrev pub answers {ℓ} : {S : Type ℓ} → (Use → S → Answer × S) → List Use → S → List Answer
answers step [] s = []
answers step (u ∷ us) s = (step u s).0 ∷ answers step us (step u s).1

one_use :
    (u : Use) (buf : RingBuffer)
    → IsValid buf
    → IsValid (use_buffer u buf).1
      × ((use_buffer u buf).0 ≡ (use_queue u (contents buf)).0)
      × (contents (use_buffer u buf).1 ≡ (use_queue u (contents buf)).1)
one_use (push t) buf v =
    let (w, same) = telemetry_buffer_push-enqueue t buf v in
    (w, refl, same ∙ ap (λ x. enqueue x (contents buf)) (stored-kept t))
one_use peek buf v = (v, ap message (telemetry_buffer_peek-first_of buf).1, refl)
one_use pop buf v =
    let (w, same, there) = telemetry_buffer_pop-without_first buf v in (w, ap truth there, same)
one_use ask_empty buf v = (v, ap truth (telemetry_buffer_peek-first_of buf).0, refl)
one_use ask_count buf v = (v, ap number (sym (length-contents buf)), refl)

answers_from :
    (us : List Use) (buf : RingBuffer)
    → IsValid buf
    → answers use_buffer us buf ≡ answers use_queue us (contents buf)
answers_from [] buf v = refl
answers_from (u ∷ us) buf v =
    let (w, same, left) = one_use u buf v in
    let more = answers_from us (use_buffer u buf).1 w in
    let more' : answers use_buffer us (use_buffer u buf).1
        ≡ answers use_queue us (use_queue u (contents buf)).1 =
      subst (λ ts. answers use_buffer us (use_buffer u buf).1 ≡ answers use_queue us ts) left
        more in
    (λ i. same i ∷ more' i)

-- From the emptied offline buffer of the device on, any sequence of calls is answered as by a
-- queue of messages that drops its oldest message when a 33rd one is put in, and whose messages
-- have their texts cut to the size of the arrays of a slot.
pub answers-use_buffer :
    (us : List Use) → answers use_buffer us telemetry_buffer_init ≡ answers use_queue us []
answers-use_buffer us =
    let (valid, empty) = init-IsValid in
    answers_from us telemetry_buffer_init valid ∙ ap (answers use_queue us) empty
