-- ===== src/Storage/Sql/Contents.antt =====
-- What the database of server/storage/sql_repository.go holds after a history of calls, without a
-- fault: the lists of Storage/Memory/History, as rows.
use iot_server.Base.{
  ℕ, ◌≡◌, refl, Option, none, some, List, [], ◌∷◌, ◌++◌, map, arith, inl, inr, Bool-cases,
  Option-cases, ltb, ◌+◌, ◌==◌, if◌then◌else◌,
}
use mathlib.Core.List.{map-append}
use iot_server.Base.Text.{Bytes, utf8, bytes_eq, bytes_eq_iff}
use iot_server.Models.{TelemetryPayload, EventPayload}
use iot_server.Storage.Memory.History.{Call, saved, recorded}
use iot_server.Storage.Sql.Tables.{
  Engine, DeviceRow, TelemetryRow, EventRow, telemetry_row, device_row, event_row, upsert_device,
  find_device,
}
use iot_server.Storage.Sql.Repository.{
  SqlDatabase, migrate, no_faults, insert_telemetry, upsert, save_telemetry, save_event,
  queue_command, ack_command,
}

-- The rows of one device, in the order of the table.
module _ {ℓ} {A : Type ℓ} (device : A → Bytes) (k : Bytes) where
  unfoldable pub where_device : List A → List A
  where_device [] = []
  where_device (r ∷ rs) =
      let more = where_device rs in if bytes_eq (device r) k then r ∷ more else more

  where_device-append :
      (rs : List A) (r : A)
      → where_device (rs ++ (r ∷ []))
        ≡ (if bytes_eq (device r) k then where_device rs ++ (r ∷ []) else where_device rs)
  unfolding where_device
  where_device-append [] r = refl
  where_device-append (s ∷ rs) r = ground (arith, where_device-append rs r)

-- What an UPSERT makes of the row that is there.
abbrev pub upserted : DeviceRow → Option DeviceRow → DeviceRow
upserted row none = row
upserted row (some r) = record {
  device_id = r.device_id;
  firmware_version = row.firmware_version;
  status = utf8 "ONLINE";
  last_seq_no = row.last_seq_no;
  last_seen_at = row.last_seen_at;
  total_telemetries = r.total_telemetries + 1;
  last_temp = row.last_temp;
  last_humidity = row.last_humidity;
  last_voltage = row.last_voltage;
  last_battery_pct = row.last_battery_pct;
  last_rssi = row.last_rssi;
  current_interval_sec =
      if ltb 0 row.current_interval_sec then row.current_interval_sec else r.current_interval_sec;
  created_at = r.created_at;
}

-- The row of a device behind its first message.
abbrev new_device : Engine → ℕ → TelemetryPayload → DeviceRow
new_device e now t = record {
  device_id = t.header.device_id;
  firmware_version = t.header.firmware_version;
  status = utf8 "ONLINE";
  last_seq_no = t.header.seq_no;
  last_seen_at = now;
  total_telemetries = 1;
  last_temp = e.store_real t.metrics.temperature;
  last_humidity = e.store_real t.metrics.humidity;
  last_voltage = e.store_real t.metrics.battery_voltage;
  last_battery_pct = t.metrics.battery_level_pct;
  last_rssi = t.metrics.rssi;
  current_interval_sec = if t.metrics.interval_sec == 0 then 60 else t.metrics.interval_sec;
  created_at = now;
}

-- The row of a message and that of an event.
abbrev pub row_of_message : Engine → ℕ × TelemetryPayload → TelemetryRow
row_of_message e (now, t) = record {
  device_id = t.header.device_id;
  timestamp = t.header.timestamp;
  seq_no = t.header.seq_no;
  firmware_version = t.header.firmware_version;
  boot_count = t.header.boot_count;
  temperature = e.store_real t.metrics.temperature;
  humidity = e.store_real t.metrics.humidity;
  battery_voltage = e.store_real t.metrics.battery_voltage;
  battery_level_pct = t.metrics.battery_level_pct;
  rssi = t.metrics.rssi;
  state = elim t.status [ none ↦ utf8 "NORMAL" | some s ↦ s.state ];
  uptime_sec = elim t.status [ none ↦ 0 | some s ↦ s.uptime_sec ];
  free_heap_bytes = elim t.status [ none ↦ 0 | some s ↦ s.free_heap_bytes ];
  custom_values_json = e.json.marshal t.metrics.custom_values;
  created_at = now;
}

abbrev pub row_of_event : Engine → ℕ → EventPayload → EventRow
row_of_event e now p = record {
  device_id = p.header.device_id;
  timestamp = p.header.timestamp;
  event_type = p.event.event_type;
  severity = p.event.severity;
  message = p.event.message;
  details_json = e.json.marshal p.event.details;
  created_at = now;
}

-- An UPSERT changes the row of one device.
find_device-upsert_device :
    (k : Bytes) (row : DeviceRow) (rs : List DeviceRow)
    → find_device k (upsert_device row rs) ≡ (
        if bytes_eq row.device_id k
        then some (upserted row (find_device row.device_id rs))
        else find_device k rs)
unfolding find_device upsert_device
find_device-upsert_device k row [] = refl
find_device-upsert_device k row (r ∷ rs) = ground (
  arith,
  bytes_eq_iff row.device_id k,
  bytes_eq_iff r.device_id row.device_id,
  bytes_eq_iff r.device_id k,
  find_device-upsert_device k row rs,
)

module _ (e : Engine) where
  unfoldable pub step : Call → SqlDatabase → SqlDatabase
  step (Call.save_telemetry now t) db = (save_telemetry e no_faults now t db).0
  step (Call.save_event p) db = (save_event e no_faults 0 p db).0
  step (Call.queue_command k c) db = (queue_command e no_faults 0 k c db).0
  step (Call.ack_command k id) db = (ack_command e no_faults 0 k id [] db).0

  -- The database after the calls of a history, the latest first.
  unfoldable pub run : List Call → SqlDatabase
  run [] = migrate
  run (c ∷ cs) = step c (run cs)

-- The row of a device as its messages leave it, one after the other.
unfoldable pub row_after :
    Engine → List (ℕ × TelemetryPayload) → Option DeviceRow → Option DeviceRow
row_after e [] r = r
row_after e ((now, t) ∷ ms) r = row_after e ms (some (upserted (new_device e now t) r))

row_after-append :
    (e : Engine) (ms : List (ℕ × TelemetryPayload)) (now : ℕ) (t : TelemetryPayload)
    (r : Option DeviceRow)
    → row_after e (ms ++ ((now, t) ∷ [])) r
      ≡ some (upserted (device_row e now t) (row_after e ms r))
unfolding row_after
row_after-append e [] now t r = refl
row_after-append e (m ∷ ms) now t r =
    row_after-append e ms now t (some (upserted (device_row e m.0 m.1) r))

telemetry_row-row_of_message :
    (e : Engine) (m : ℕ × TelemetryPayload) → telemetry_row e m.0 m.1 ≡ row_of_message e m
telemetry_row-row_of_message e (now, t) = elim (Option-cases t.status) [
  | inl nil ↦ ground (arith, nil)
  | inr (s, there) ↦ ground (arith, there)
]

-- What the tables hold for a device.
pub record Holds (e : Engine) (db : SqlDatabase) (k : Bytes) (cs : List Call) : Type 0 where
  pub telemetries :
      where_device (λ (r : TelemetryRow). r.device_id) k db.telemetries
      ≡ map (row_of_message e) (saved k cs)
  pub device : find_device k db.devices ≡ row_after e (saved k cs) none
  pub events :
      where_device (λ (r : EventRow). r.device_id) k db.events
      ≡ map (row_of_event e 0) (recorded k cs)

save_telemetry-Holds :
    (e : Engine) (now : ℕ) (t : TelemetryPayload) (db : SqlDatabase) (k : Bytes) (cs : List Call)
    → Holds e db t.header.device_id cs
    → Holds e db k cs
    → Holds e (save_telemetry e no_faults now t db).0 k (Call.save_telemetry now t ∷ cs)
unfolding save_telemetry insert_telemetry upsert saved recorded
save_telemetry-Holds e now t db k cs own h =
    let id = t.header.device_id in
    record {
      telemetries = ground (
        arith,
        where_device-append (λ (r : TelemetryRow). r.device_id) k db.telemetries
            (telemetry_row e now t),
        h.telemetries,
        telemetry_row-row_of_message e (now, t),
        map-append (row_of_message e) (saved k cs) ((now, t) ∷ []),
      );
      device = elim (Bool-cases (bytes_eq id k)) [
        | inl same ↦ ground (
          arith,
          same,
          find_device-upsert_device k (device_row e now t) db.devices,
          own.device,
          (bytes_eq_iff id k).0 same,
          row_after-append e (saved k cs) now t none,
        )
        | inr other ↦
            ground
              (arith, other, find_device-upsert_device k (device_row e now t) db.devices, h.device)
      ];
      events = h.events;
    }

-- The database refines the same lists as the repository in memory, as rows: whatever the calls, it
-- holds for every device a row for each message that was saved, in order, the row of the device as
-- these messages leave it, and a row for each event.
pub sql_run-Holds : (e : Engine) (cs : List Call) (k : Bytes) → Holds e (run e cs) k cs
unfolding run step save_event queue_command ack_command saved recorded
sql_run-Holds e [] k = record {
  telemetries = unfold saved where_device in refl;
  device = unfold saved row_after find_device in refl;
  events = unfold recorded where_device in refl;
}
sql_run-Holds e (Call.save_telemetry now t ∷ cs) k =
    save_telemetry-Holds e now t (run e cs) k cs (sql_run-Holds e cs t.header.device_id)
      (sql_run-Holds e cs k)
sql_run-Holds e (Call.save_event p ∷ cs) k =
    let h = sql_run-Holds e cs k in
    record {
      telemetries = h.telemetries;
      device = h.device;
      events = ground (
        arith,
        where_device-append (λ (r : EventRow). r.device_id) k (run e cs).events (event_row e 0 p),
        h.events,
        map-append (row_of_event e 0) (recorded k cs) (p ∷ []),
      );
    }
sql_run-Holds e (Call.queue_command j c ∷ cs) k =
    let h = sql_run-Holds e cs k in
    record { telemetries = h.telemetries; device = h.device; events = h.events }
sql_run-Holds e (Call.ack_command j id ∷ cs) k =
    let h = sql_run-Holds e cs k in
    record { telemetries = h.telemetries; device = h.device; events = h.events }
