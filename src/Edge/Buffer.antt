-- ===== src/Edge/Buffer.antt =====
-- The offline buffer of edge/middleware/telemetry/telemetry_buffer.c: a ring of 32 messages. The
-- texts of a message are copied into the slot's own arrays, so that a slot holds them by value.
-- Pointers are not nil.
use iot_server.Base.{
  ℕ, zero, suc, ◌+◌, ◌-◌, ◌%◌, Bool, true, false, Option, none, some, List, [], ◌∷◌, take, ◌==◌,
  if◌then◌else◌,
}
use iot_server.Base.Text.{Bytes}
use iot_server.Base.Int.{pos}
use iot_server.Serializer.Telemetry.{TelemetryData}

abbrev pub telemetry_buffer_capacity : ℕ
telemetry_buffer_capacity = 32

-- memset(…, 0, …)
abbrev pub zero_data : TelemetryData
zero_data = record {
  device_id = none;
  timestamp = 0;
  seq_no = 0;
  firmware_version = none;
  boot_count = 0;
  temperature = 0;
  humidity = 0;
  battery_voltage = 0;
  battery_level_pct = 0;
  rssi = pos 0;
  interval_sec = 0;
  state = none;
  uptime_sec = 0;
  free_heap_bytes = 0;
}

pub record RingBuffer : Type 0 where
  pub items : List TelemetryData
  pub head : ℕ
  pub tail : ℕ
  pub count : ℕ

-- C arrays.
module _ {ℓ} {A : Type ℓ} where
  abbrev pub replicate : ℕ → A → List A
  replicate zero x = []
  replicate (suc n) x = x ∷ replicate n x

  abbrev pub set : List A → ℕ → A → List A
  set [] i x = []
  set (y ∷ ys) zero x = x ∷ ys
  set (y ∷ ys) (suc i) x = y ∷ set ys i x

  abbrev pub get_or : List A → ℕ → A → A
  get_or [] i d = d
  get_or (y ∷ ys) zero d = y
  get_or (y ∷ ys) (suc i) d = get_or ys i d

unfoldable pub telemetry_buffer_init : RingBuffer
telemetry_buffer_init = record {
  items = replicate telemetry_buffer_capacity zero_data;
  head = 0;
  tail = 0;
  count = 0;
}

-- strncpy of at most `n` bytes into an array of one more, whose last byte stays 0.
abbrev pub strncpy : ℕ → Option Bytes → Option Bytes
strncpy n none = none
strncpy n (some text) = some (take n text)

-- What a slot holds of a message.
unfoldable pub stored : TelemetryData → TelemetryData
stored t = record t {
  device_id = strncpy 31 t.device_id;
  firmware_version = strncpy 15 t.firmware_version;
  state = strncpy 15 t.state;
}

-- A full buffer gives up its oldest message.
unfoldable pub make_room : RingBuffer → RingBuffer
make_room buf =
    if buf.count == telemetry_buffer_capacity
    then record buf { head = (buf.head + 1) % telemetry_buffer_capacity; count = buf.count - 1 }
    else buf

unfoldable pub telemetry_buffer_push : TelemetryData → RingBuffer → RingBuffer
telemetry_buffer_push t buf =
    let buf' = make_room buf in
    record buf' {
      items = set buf'.items buf'.tail (stored t);
      tail = (buf'.tail + 1) % telemetry_buffer_capacity;
      count = buf'.count + 1;
    }

unfoldable pub telemetry_buffer_peek : RingBuffer → Option TelemetryData
telemetry_buffer_peek buf =
    if buf.count == 0 then none else some (get_or buf.items buf.head zero_data)

unfoldable pub telemetry_buffer_pop : RingBuffer → Bool × RingBuffer
telemetry_buffer_pop buf = if buf.count == 0 then (false, buf) else (
  true,
  record buf { head = (buf.head + 1) % telemetry_buffer_capacity; count = buf.count - 1 },
)

unfoldable pub telemetry_buffer_is_empty : RingBuffer → Bool
telemetry_buffer_is_empty buf = buf.count == 0

unfoldable pub telemetry_buffer_count : RingBuffer → ℕ
telemetry_buffer_count buf = buf.count
