-- ===== src/Edge/Loop.antt =====
-- `app_main_event_loop` of edge/app/src/app_state_machine.c, which handles one event when the
-- device wakes up, and the calls that it makes. `serialize_telemetry_json` formats by snprintf and
-- is a parameter, as is the HAL; the log is left out.
use iot_server.Base.{
  ℕ, zero, suc, ◌+◌, ◌-◌, ◌*◌, ◌/◌, ◌%◌, ◌^◌, Bool, true, false, Option, none, some, List, [], ◌∷◌,
  ◌++◌, ltb, ◌==◌, if◌then◌else◌,
}
use iot_server.Base.Text.{Bytes, utf8}
use iot_server.Base.Int.{ℤ}
use iot_server.Serializer.Telemetry.{TelemetryData}
use iot_server.Edge.Buffer.{
  RingBuffer, telemetry_buffer_init, telemetry_buffer_push, telemetry_buffer_peek,
  telemetry_buffer_pop, telemetry_buffer_is_empty, telemetry_buffer_count, zero_data,
}

-- What the clock and the sensors give: the time since the start in milliseconds, the voltage of
-- the battery in millivolts with `(float)mv / 1000.0f`, and the signal.
pub record Readings : Type 0 where
  pub time_ms : ℕ
  pub mv : ℕ
  pub volts : ℕ
  pub rssi : ℤ

-- The HAL over what is outside: `https_post` gives the status code if it succeeds, `connect`
-- whether it does. `sleep` disconnects, arms the timer for so many seconds and the button, and
-- enters the deep sleep. `serialize` is the JSON of a message, if it has a length above 0 and fits
-- the buffer.
pub record Hal (W : Type 0) : Type 0 where
  pub readings : W → Readings
  pub connect : W → W × Bool
  pub https_post : Bytes → W → W × Option ℕ
  pub sleep : ℕ → W → W
  pub serialize : TelemetryData → Option Bytes

pub data AppState : Type 0 where
  boot sensing connecting transmitting ota_processing prepare_sleep sleeping : AppState

-- The static variables.
pub record App : Type 0 where
  pub current_state : AppState
  pub offline_buffer : RingBuffer
  pub seq_no : ℕ
  pub boot_count : ℕ
  pub next_sleep_sec : ℕ

-- `app_state_machine_init`, where `created` is whether the event queue is made: its result is that
-- too.
unfoldable pub app_state_machine_init : Bool → App → App × Bool
app_state_machine_init created app =
    if created
    then (record app { current_state = boot; offline_buffer = telemetry_buffer_init }, true)
    else (app, false)

-- The level of the battery in percent. The product stays below 2 ^ 32.
unfoldable pub battery_level_pct : ℕ → ℕ
battery_level_pct mv =
    if ltb 4000 mv then 100 else if ltb 3300 mv then (mv - 3300) * 100 % 2 ^ 32 / 700 else 0

-- The message of this time. 25.4f and 58.2f are given by their bits.
unfoldable pub current_telemetry : Readings → App → TelemetryData
current_telemetry x app = record zero_data {
  device_id = some (utf8 "DEV-ESP32-001");
  timestamp = x.time_ms / 1000;
  seq_no = app.seq_no;
  firmware_version = some (utf8 "1.0.0");
  boot_count = app.boot_count;
  state = some (utf8 "NORMAL");
  uptime_sec = x.time_ms / 1000;
  free_heap_bytes = 48000;
  battery_voltage = x.volts;
  battery_level_pct = battery_level_pct x.mv;
  temperature = 1103835955;
  humidity = 1114164429;
  rssi = x.rssi;
}

-- How the loop over the buffer ends, or that it has not ended with its fuel.
pub data Flush : Type 0 where
  flushed interrupted unfinished : Flush

module _ {W : Type 0} (hal : Hal W) where
  unfoldable pub transmit_telemetry_item : TelemetryData → W → W × Bool
  transmit_telemetry_item item w = elim (hal.serialize item) [
    | none ↦ (w, false)
    | some payload ↦
        let (w', status) = hal.https_post payload w in
        elim status [ none ↦ (w', false) | some code ↦ (w', code == 200) ]
  ]

  -- The loop, with the messages that were sent: the oldest one is taken from the buffer once it is
  -- sent.
  unfoldable pub flush : ℕ → RingBuffer → W → Flush × List TelemetryData × RingBuffer × W
  flush zero buf w = (if telemetry_buffer_is_empty buf then flushed else unfinished, [], buf, w)
  flush (suc n) buf w = elim (telemetry_buffer_peek buf) [
    | none ↦ (flushed, [], buf, w)
    | some old_item ↦
        let (w', sent) = transmit_telemetry_item old_item w in
        elim sent [
          | false ↦ (interrupted, [], buf, w')
          | true ↦
              let (end, items, buf', w'') = flush n (telemetry_buffer_pop buf).1 w' in
              (end, old_item ∷ items, buf', w'')
        ]
  ]

  -- `STATE_TRANSMITTING`: the messages of the buffer, then the one of this time.
  unfoldable pub transmit : TelemetryData → RingBuffer → W → List TelemetryData × RingBuffer × W
  transmit current buf w =
      let (end, items, buf', w') = flush (telemetry_buffer_count buf) buf w in
      let (w'', sent) = transmit_telemetry_item current w' in
      if sent
      then (items ++ (current ∷ []), buf', w'')
      else (items, telemetry_buffer_push current buf', w'')

  -- The case `STATE_BOOT`: what was sent, and the state behind it.
  unfoldable pub handle_boot : App → W → List TelemetryData × App × W
  handle_boot app w =
      let current = current_telemetry (hal.readings w) app in
      let (w1, online) = hal.connect w in
      let (sent, buf, w2) =
        if online
        then transmit current app.offline_buffer w1
        else ([], telemetry_buffer_push current app.offline_buffer, w1) in
      (
        sent,
        record app {
          current_state = sleeping;
          offline_buffer = buf;
          seq_no = (app.seq_no + 1) % 2 ^ 32;
        },
        hal.sleep app.next_sleep_sec w2,
      )

  -- The switch on an event: any other state takes it and does nothing.
  unfoldable pub wake_up : App → W → List TelemetryData × App × W
  wake_up app w = elim app.current_state [ boot ↦ handle_boot app w | _ ↦ ([], app, w) ]
