-- ===== src/Storage/Memory/History.antt =====
-- What the repository of server/storage/repository.go holds after a history of calls: lists for
-- each device, made from the calls alone.
use mathlib.Core.List.{map-append}
use iot_server.Base.{
  ℕ, ◌≡◌, ◌+◌, ◌%◌, ◌^◌, refl, sym, ap, ◌∙◌, Option, none, some, List, [], ◌∷◌, ◌++◌, map, arith,
  inl, inr, Bool-cases, Option-cases, if◌then◌else◌,
}
use iot_server.Base.Text.{Bytes, utf8, bytes_eq, bytes_eq_iff}
use iot_server.Base.Assoc.{Assoc, lookup, insert, lookup-insert}
use iot_server.Models.{TelemetryPayload, EventPayload, DeviceCommand, DeviceState}
use iot_server.Storage.Memory.{
  InMemoryRepository, new_in_memory_repository, fresh_device, touch, get_slice, find_or_create,
  without_command, device_of, get_pending_commands,
}
use iot_server.Storage.Memory
use iot_server.Storage.Memory.Heap.{IsValid, others-IsValid}
use iot_server.Storage.Memory.Devices.{
  device_or_fresh, save_telemetry-IsValid, device_of-save_telemetry,
}

-- The calls that write, with the clock where the result depends on it.
pub data Call : Type 0 where
  save_telemetry : ℕ → TelemetryPayload → Call
  save_event : EventPayload → Call
  queue_command : Bytes → DeviceCommand → Call
  ack_command : Bytes → Bytes → Call

abbrev pub step : Call → InMemoryRepository → InMemoryRepository
step (save_telemetry now t) r = (Memory.save_telemetry now t r).0
step (save_event e) r = (Memory.save_event 0 e r).0
step (queue_command k c) r = (Memory.queue_command 0 k c r).0
step (ack_command k id) r = (Memory.ack_command 0 k id [] r).0

-- The state after the calls of a history, the latest first.
unfoldable pub run : List Call → InMemoryRepository
run [] = new_in_memory_repository
run (c ∷ cs) = step c (run cs)

-- The messages of one device, each with the time at which it was saved, the earliest first.
unfoldable pub saved : Bytes → List Call → List (ℕ × TelemetryPayload)
saved k [] = []
saved k (save_telemetry now t ∷ cs) =
    let earlier = saved k cs in
    if bytes_eq t.header.device_id k then earlier ++ ((now, t) ∷ []) else earlier
saved k (_ ∷ cs) = saved k cs

-- The events of one device.
unfoldable pub recorded : Bytes → List Call → List EventPayload
recorded k [] = []
recorded k (save_event e ∷ cs) =
    let earlier = recorded k cs in
    if bytes_eq e.header.device_id k then earlier ++ (e ∷ []) else earlier
recorded k (_ ∷ cs) = recorded k cs

-- The commands but those with an identifier.
abbrev unacknowledged : Bytes → List DeviceCommand → List DeviceCommand
unacknowledged id [] = []
unacknowledged id (c ∷ cs) =
    let rest = unacknowledged id cs in if bytes_eq c.command_id id then rest else c ∷ rest

without_command-unacknowledged :
    (id : Bytes) (cs : List DeviceCommand) → without_command id cs ≡ unacknowledged id cs
unfolding without_command
without_command-unacknowledged id [] = refl
without_command-unacknowledged id (c ∷ cs) = ground (arith, without_command-unacknowledged id cs)

-- The commands of one device that were queued and not acknowledged since.
unfoldable pub waiting : Bytes → List Call → List DeviceCommand
waiting k [] = []
waiting k (queue_command j c ∷ cs) =
    let earlier = waiting k cs in if bytes_eq j k then earlier ++ (c ∷ []) else earlier
waiting k (ack_command j id ∷ cs) =
    let earlier = waiting k cs in if bytes_eq j k then unacknowledged id earlier else earlier
waiting k (_ ∷ cs) = waiting k cs

-- A device behind a message; before its first one it has its identifier only.
abbrev pub after_message : Bytes → ℕ → TelemetryPayload → Option DeviceState → DeviceState
after_message k now t none = record {
  device_id = k;
  firmware_version = t.header.firmware_version;
  last_seen_at = now;
  last_seq_no = t.header.seq_no;
  last_metrics = t.metrics;
  last_status = t.status;
  status = utf8 "ONLINE";
  total_telemetries = 1;
  pending_commands_count = 0;
  current_interval_sec = 0;
}
after_message k now t (some d) = record {
  device_id = d.device_id;
  firmware_version = t.header.firmware_version;
  last_seen_at = now;
  last_seq_no = t.header.seq_no;
  last_metrics = t.metrics;
  last_status = t.status;
  status = utf8 "ONLINE";
  total_telemetries = (d.total_telemetries + 1) % 2 ^ 64;
  pending_commands_count = d.pending_commands_count;
  current_interval_sec = d.current_interval_sec;
}

touch-after_message :
    (k : Bytes) (now : ℕ) (t : TelemetryPayload) (d : Option DeviceState)
    → touch now t (device_or_fresh k d) ≡ after_message k now t d
touch-after_message k now t none = ground arith
touch-after_message k now t (some d) = refl

-- A device as the messages leave it, one after the other; there is none before the first.
unfoldable pub device_after :
    Bytes → List (ℕ × TelemetryPayload) → Option DeviceState → Option DeviceState
device_after k [] d = d
device_after k ((now, t) ∷ ms) d = device_after k ms (some (after_message k now t d))

get_slice-insert {ℓ} :
    {A : Type ℓ} (j k : Bytes) (xs : List A) (m : Assoc (List A))
    → get_slice k (insert j xs m) ≡ (if bytes_eq j k then xs else get_slice k m)
unfolding get_slice
get_slice-insert j k xs m = ground (arith, lookup-insert j k xs m)

pub run-IsValid : (cs : List Call) → IsValid (run cs)
unfolding run Memory.save_event Memory.queue_command Memory.ack_command
run-IsValid [] = record { owned = λ k at e. unfold lookup in cc }
run-IsValid (save_telemetry now t ∷ cs) = save_telemetry-IsValid (run cs) now t (run-IsValid cs)
run-IsValid (save_event e ∷ cs) = others-IsValid (run cs) _ _ _ (run-IsValid cs)
run-IsValid (queue_command k c ∷ cs) = others-IsValid (run cs) _ _ _ (run-IsValid cs)
run-IsValid (ack_command k id ∷ cs) = others-IsValid (run cs) _ _ _ (run-IsValid cs)

device_after-append :
    (k : Bytes) (ms : List (ℕ × TelemetryPayload)) (now : ℕ) (t : TelemetryPayload)
    (d : Option DeviceState)
    → device_after k (ms ++ ((now, t) ∷ [])) d
      ≡ some (touch now t (device_or_fresh k (device_after k ms d)))
unfolding device_after
device_after-append k [] now t d = ap some (sym (touch-after_message k now t d))
device_after-append k (m ∷ ms) now t d =
    device_after-append k ms now t (some (after_message k m.0 m.1 d))

-- What the maps of the repository hold for a device.
pub record Holds (r : InMemoryRepository) (k : Bytes) (cs : List Call) : Type 0 where
  pub telemetries : get_slice k r.telemetries ≡ map (λ (m : ℕ × TelemetryPayload). m.1) (saved k cs)
  pub device : device_of k r ≡ device_after k (saved k cs) none
  pub events : get_slice k r.events ≡ recorded k cs
  pub commands : get_slice k r.commands ≡ waiting k cs

-- Finding a device's cell leaves the other maps as they are.
pub find_or_create-others :
    (id : Bytes) (r : InMemoryRepository)
    → ((find_or_create id r).1.telemetries ≡ r.telemetries)
      × ((find_or_create id r).1.events ≡ r.events)
      × ((find_or_create id r).1.commands ≡ r.commands)
unfolding find_or_create
find_or_create-others id r = elim (Option-cases (lookup id r.devices)) [
  | inl e ↦ ground (arith, e)
  | inr (at, e) ↦ ground (arith, e)
]

save_telemetry-Holds :
    (now : ℕ) (t : TelemetryPayload) (r : InMemoryRepository) (k : Bytes) (cs : List Call)
    → IsValid r
    → Holds r t.header.device_id cs
    → Holds r k cs
    → Holds (Memory.save_telemetry now t r).0 k (save_telemetry now t ∷ cs)
unfolding Memory.save_telemetry saved recorded waiting
save_telemetry-Holds now t r k cs v own h =
    let id = t.header.device_id in
    let (same_t, same_e, same_c) = find_or_create-others id r in
    let xs = get_slice id (find_or_create id r).1.telemetries ++ (t ∷ []) in
    let put = get_slice-insert id k xs (find_or_create id r).1.telemetries in
    record {
      telemetries = elim (Bool-cases (bytes_eq id k)) [
        | inl same ↦ ground (
          arith,
          same,
          put,
          ap (get_slice id) same_t,
          own.telemetries,
          (bytes_eq_iff id k).0 same,
          map-append (λ (m : ℕ × TelemetryPayload). m.1) (saved k cs) ((now, t) ∷ []),
        )
        | inr other ↦ ground (arith, other, put, same_t, h.telemetries)
      ];
      device = elim (Bool-cases (bytes_eq id k)) [
        | inl same ↦ ground (
          arith,
          same,
          device_of-save_telemetry r now t v k,
          own.device,
          (bytes_eq_iff id k).0 same,
          device_after-append k (saved k cs) now t none,
        )
        | inr other ↦ ground (arith, other, device_of-save_telemetry r now t v k, h.device)
      ];
      events = ap (get_slice k) same_e ∙ h.events;
      commands = ap (get_slice k) same_c ∙ h.commands;
    }

-- The repository refines lists for each device: whatever the calls, it holds for every device the
-- messages that were saved, in order, the device as these messages leave it, the events that were
-- recorded, and the commands that were queued and not acknowledged since.
pub run-Holds : (cs : List Call) (k : Bytes) → Holds (run cs) k cs
unfolding run saved recorded waiting device_of Memory.save_event Memory.queue_command
    Memory.ack_command
run-Holds [] k = record {
  telemetries = unfold get_slice lookup in refl;
  device = unfold device_after lookup in refl;
  events = unfold get_slice lookup in refl;
  commands = unfold get_slice lookup in refl;
}
run-Holds (save_telemetry now t ∷ cs) k =
    save_telemetry-Holds now t (run cs) k cs (run-IsValid cs) (run-Holds cs t.header.device_id)
      (run-Holds cs k)
run-Holds (save_event e ∷ cs) k =
    let j = e.header.device_id in
    let h = run-Holds cs k in
    let put = get_slice-insert j k (get_slice j (run cs).events ++ (e ∷ [])) (run cs).events in
    record {
      telemetries = h.telemetries;
      device = h.device;
      events = ground (arith, put, bytes_eq_iff j k, h.events);
      commands = h.commands;
    }
run-Holds (queue_command j c ∷ cs) k =
    let h = run-Holds cs k in
    let put = get_slice-insert j k (get_slice j (run cs).commands ++ (c ∷ [])) (run cs).commands in
    record {
      telemetries = h.telemetries;
      device = h.device;
      events = h.events;
      commands = ground (arith, put, bytes_eq_iff j k, h.commands);
    }
run-Holds (ack_command j id ∷ cs) k =
    let h = run-Holds cs k in
    let left = without_command id (get_slice j (run cs).commands) in
    let put = get_slice-insert j k left (run cs).commands in
    record {
      telemetries = h.telemetries;
      device = h.device;
      events = h.events;
      commands = ground (
        arith,
        put,
        bytes_eq_iff j k,
        h.commands,
        without_command-unacknowledged id (get_slice j (run cs).commands),
      );
    }
