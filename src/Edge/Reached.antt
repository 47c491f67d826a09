-- ===== src/Edge/Reached.antt =====
-- The states that the event loop of edge/app/src/app_state_machine.c gets to, and what an event does
-- in them.
use iot_server.Base.{
  ◌+◌, ◌-◌, ◌*◌, ◌/◌, ◌%◌, ◌^◌, ◌≡◌, ◌⊎◌, inl, inr, refl, ap, sym, subst, ◌∙◌, ◌↔◌, true, none,
  some, List, [], ◌∷◌, arith, if◌then◌else◌, ltb, Bool-cases, Option-cases,
}
use iot_server.Base.Text.{Bytes, utf8}
use iot_server.Serializer.Telemetry.{TelemetryData}
use iot_server.Edge.Buffer.{
  stored, telemetry_buffer_init, telemetry_buffer_push, telemetry_buffer_count,
  telemetry_buffer_is_empty,
}
use iot_server.Edge.Queue.{contents, enqueue, init-IsValid, telemetry_buffer_push-enqueue}
use iot_server.Edge.Loop.{
  boot, sleeping, App, Readings, Hal, app_state_machine_init, battery_level_pct, current_telemetry,
  transmit_telemetry_item, flush, transmit, handle_boot, wake_up,
}

-- The static variables and the world behind a start of the state machine and any events.
pub data Reached {W : Type 0} (hal : Hal W) : App → W → Type 0 where
  started : (app : App) (w : W) → Reached hal (app_state_machine_init true app).0 w
  woken :
      {app : App} {w : W}
      → Reached hal app w
      → Reached hal (wake_up hal app w).1 (wake_up hal app w).2

-- The message of this time.
abbrev pub measured : Readings → App → TelemetryData
measured x app = record {
  device_id = some (utf8 "DEV-ESP32-001");
  timestamp = x.time_ms / 1000;
  seq_no = app.seq_no;
  firmware_version = some (utf8 "1.0.0");
  boot_count = app.boot_count;
  temperature = 1103835955;
  humidity = 1114164429;
  battery_voltage = x.volts;
  battery_level_pct =
      if ltb 4000 x.mv
      then 100
      else if ltb 3300 x.mv
      then (x.mv - 3300) * 100 % 2 ^ 32 / 700
      else 0;
  rssi = x.rssi;
  interval_sec = 0;
  state = some (utf8 "NORMAL");
  uptime_sec = x.time_ms / 1000;
  free_heap_bytes = 48000;
}

module _ {W : Type 0} (hal : Hal W) where
  -- The network connects, the message has a JSON text, and the server answers it with 200.
  abbrev pub IsTaken : App → W → Type 0
  IsTaken app w =
      ((hal.connect w).1 ≡ true)
      × ((payload : Bytes) × (hal.serialize (measured (hal.readings w) app) ≡ some payload)
          × ((hal.https_post payload (hal.connect w).0).1 ≡ some 200))

  -- What is outside behind the one request that the device makes, if the network connects and the
  -- message has a JSON text.
  abbrev asked : App → W → W
  asked app w =
      let (w1, online) = hal.connect w in
      if online
      then elim (hal.serialize (measured (hal.readings w) app)) [
        | none ↦ w1
        | some payload ↦ (hal.https_post payload w1).0
      ]
      else w1

  -- What an event does at the start: the message of this time is all that is sent, or all that the
  -- buffer holds then.
  pub record IsHandled (app : App) (w : W) (sent : List TelemetryData) (after : App) (w' : W)
      : Type 0 where
    pub empty : contents app.offline_buffer ≡ []
    pub message :
        (IsTaken app w
          × (sent ≡ measured (hal.readings w) app ∷ [])
          × (contents after.offline_buffer ≡ []))
        ⊎ ((¬ IsTaken app w)
            × (sent ≡ [])
            × (contents after.offline_buffer ≡ measured (hal.readings w) app ∷ []))
    pub sleeps : after.current_state ≡ sleeping
    pub rests : w' ≡ hal.sleep app.next_sleep_sec (asked app w)
    pub next : after.seq_no ≡ (app.seq_no + 1) % 2 ^ 32

  current_telemetry-measured : (x : Readings) (app : App) → current_telemetry x app ≡ measured x app
  unfolding current_telemetry battery_level_pct
  current_telemetry-measured x app = refl

  stored-measured : (x : Readings) (app : App) → stored (measured x app) ≡ measured x app
  unfolding stored
  stored-measured x app = refl

  transmit-init :
      (m : TelemetryData) (w : W)
      → let (w', sent) = transmit_telemetry_item hal m w in
        transmit hal m telemetry_buffer_init w ≡ (
          if sent
          then (m ∷ [], telemetry_buffer_init, w')
          else ([], telemetry_buffer_push m telemetry_buffer_init, w'))
  unfolding transmit flush telemetry_buffer_count telemetry_buffer_is_empty telemetry_buffer_init
  transmit-init m w = refl

  transmit_telemetry_item_iff :
      (m : TelemetryData) (w : W)
      → ((transmit_telemetry_item hal m w).1 ≡ true) ↔ (
          (payload : Bytes) × (hal.serialize m ≡ some payload)
          × ((hal.https_post payload w).1 ≡ some 200))
  unfolding transmit_telemetry_item
  transmit_telemetry_item_iff m w = elim (Option-cases (hal.serialize m)) [
    | inl no_text ↦ (
      λ h. absurd (ground (arith, h, no_text)),
      λ (payload, is, good). absurd (ground (arith, is, no_text)),
    )
    | inr (text, there) ↦ (
      λ h. elim (Option-cases (hal.https_post text w).1) [
        | inl lost ↦ absurd (ground (arith, h, there, lost))
        | inr (code, got) ↦ (text, there, ground (arith, h, there, got))
      ],
      λ (payload, is, good).
          let same : text ≡ payload = ground (arith, is, there) in
          let good' : (hal.https_post text w).1 ≡ some 200 =
            subst (λ z. (hal.https_post z w).1 ≡ some 200) (sym same) good in
          ground (arith, there, good'),
    )
  ]

  transmit_telemetry_item-asked :
      (m : TelemetryData) (w : W)
      → (transmit_telemetry_item hal m w).0
        ≡ elim (hal.serialize m) [ none ↦ w | some payload ↦ (hal.https_post payload w).0 ]
  unfolding transmit_telemetry_item
  transmit_telemetry_item-asked m w = elim (Option-cases (hal.serialize m)) [
    | inl no_text ↦ ground (arith, no_text)
    | inr (text, there) ↦ elim (Option-cases (hal.https_post text w).1) [
      | inl lost ↦ ground (arith, there, lost)
      | inr (code, got) ↦ ground (arith, there, got)
    ]
  ]

  kept_alone :
      (m : TelemetryData) → contents (telemetry_buffer_push m telemetry_buffer_init) ≡ stored m ∷ []
  unfolding enqueue
  kept_alone m =
      let (valid, none_in) = init-IsValid in
      (telemetry_buffer_push-enqueue m telemetry_buffer_init valid).1
      ∙ ap (enqueue (stored m)) none_in

  handle_boot-IsHandled :
      (app : App) (w : W)
      → app.offline_buffer ≡ telemetry_buffer_init
      → IsHandled app w
          (handle_boot hal app w).0
          (handle_boot hal app w).1
          (handle_boot hal app w).2
  unfolding handle_boot
  handle_boot-IsHandled app w e =
      let m = measured (hal.readings w) app in
      let same = current_telemetry-measured (hal.readings w) app in
      let (w1, online) = hal.connect w in
      let iff = transmit_telemetry_item_iff m w1 in
      let sends = transmit-init m w1 in
      let alone : contents (telemetry_buffer_push m telemetry_buffer_init) ≡ m ∷ [] =
        kept_alone m ∙ ap (λ z. z ∷ []) (stored-measured (hal.readings w) app) in
      record {
        empty = ap contents e ∙ init-IsValid.1;
        message = elim (Bool-cases online) [
          | inr off ↦ inr (
            λ (on, taken). ground (arith, on, off),
            ground (arith, off),
            ground (arith, off, e, same, alone),
          )
          | inl on ↦ elim (Bool-cases (transmit_telemetry_item hal m w1).1) [
            | inl sent ↦ inl (
              (on, iff.0 sent),
              ground (arith, on, e, same, sends, sent),
              ground (arith, on, e, same, sends, sent, init-IsValid.1),
            )
            | inr lost ↦ inr (
              λ (up, taken). ground (arith, iff.1 taken, lost),
              ground (arith, on, e, same, sends, lost),
              ground (arith, on, e, same, sends, lost, alone),
            )
          ]
        ];
        sleeps = refl;
        rests = ap (hal.sleep app.next_sleep_sec) (elim (Bool-cases online) [
          | inr off ↦ ground (arith, off)
          | inl on ↦ elim (Bool-cases (transmit_telemetry_item hal m w1).1) [
            | inl sent ↦
                ground (arith, on, e, same, sends, sent, transmit_telemetry_item-asked m w1)
            | inr lost ↦
                ground (arith, on, e, same, sends, lost, transmit_telemetry_item-asked m w1)
          ]
        ]);
        next = refl;
      }

  IsStarting : App → Type 0
  IsStarting app =
      ((app.current_state ≡ boot) × (app.offline_buffer ≡ telemetry_buffer_init))
      ⊎ (app.current_state ≡ sleeping)

  Reached-IsStarting : {app : App} {w : W} → Reached hal app w → IsStarting app
  unfolding IsStarting app_state_machine_init wake_up handle_boot
  Reached-IsStarting (started app w) = inl (refl, refl)
  Reached-IsStarting (woken {app} {w} r) = elim (Reached-IsStarting r) [
    | inl (starts, e) ↦ inr (ground (arith, starts))
    | inr sleeps ↦ inr (ground (arith, sleeps))
  ]

  -- In whatever state that the state machine gets to, an event of the firmware does one of two
  -- things. At the start, with an emptied buffer, the device sends its message, exactly if the
  -- network connects, the message has a JSON text and the server answers 200, and keeps it in the
  -- buffer otherwise; it makes no other request, then sleeps for its interval, and its next message
  -- has the next number. When it sleeps, nothing happens.
  pub wake_up-IsHandled :
      {app : App} {w : W}
      → Reached hal app w
      → let x = wake_up hal app w in
        ((app.current_state ≡ boot) × IsHandled app w x.0 x.1 x.2)
        ⊎ ((app.current_state ≡ sleeping) × (x ≡ ([], app, w)))
  unfolding wake_up IsStarting
  wake_up-IsHandled {app} {w} r = elim (Reached-IsStarting r) [
    | inl (starts, e) ↦
        let is : wake_up hal app w ≡ handle_boot hal app w = ground (arith, starts) in
        inl (
          starts,
          subst (λ (x : List TelemetryData × App × W). IsHandled app w x.0 x.1 x.2) (sym is)
              (handle_boot-IsHandled app w e),
        )
    | inr sleeps ↦ inr (sleeps, ground (arith, sleeps))
  ]
