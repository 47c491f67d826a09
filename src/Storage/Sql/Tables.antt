-- ===== src/Storage/Sql/Tables.antt =====
-- The tables `telemetries`, `devices` and `events` of server/storage/sql_repository.go. Every
-- column that is written is bound to a value, so only a float can be NULL: what the engine makes of
-- one is a parameter, as is encoding/json.
use iot_server.Base.{ℕ, ◌+◌, Option, none, some, List, [], ◌∷◌, ltb, ◌==◌, if◌then◌else◌}
use iot_server.Base.Text.{Bytes, utf8, bytes_eq}
use iot_server.Base.Int.{ℤ}
use iot_server.Base.Float.{Float64}
use iot_server.Storage.Sql.Commands.{ParamsJson}
use iot_server.Models.{TelemetryPayload, EventPayload, DeviceStatus}

-- `store_real` is what a REAL column gives back of a float, `none` if it holds NULL. `json` is
-- encoding/json on maps, with its errors dropped.
pub record Engine : Type 0 where
  pub store_real : Float64 → Option Float64
  pub json : ParamsJson

pub record TelemetryRow : Type 0 where
  pub device_id : Bytes
  pub timestamp : ℤ
  pub seq_no : ℕ
  pub firmware_version : Bytes
  pub boot_count : ℕ
  pub temperature : Option Float64
  pub humidity : Option Float64
  pub battery_voltage : Option Float64
  pub battery_level_pct : ℕ
  pub rssi : ℤ
  pub state : Bytes
  pub uptime_sec : ℕ
  pub free_heap_bytes : ℕ
  pub custom_values_json : Bytes
  pub created_at : ℕ

pub record DeviceRow : Type 0 where
  pub device_id : Bytes
  pub firmware_version : Bytes
  pub status : Bytes
  pub last_seq_no : ℕ
  pub last_seen_at : ℕ
  pub total_telemetries : ℕ
  pub last_temp : Option Float64
  pub last_humidity : Option Float64
  pub last_voltage : Option Float64
  pub last_battery_pct : ℕ
  pub last_rssi : ℤ
  pub current_interval_sec : ℕ
  pub created_at : ℕ

pub record EventRow : Type 0 where
  pub device_id : Bytes
  pub timestamp : ℤ
  pub event_type : Bytes
  pub severity : Bytes
  pub message : Bytes
  pub details_json : Bytes
  pub created_at : ℕ

-- The status that a message without one is stored with.
abbrev pub status_columns : Option DeviceStatus → DeviceStatus
status_columns none = record { state = utf8 "NORMAL"; uptime_sec = 0; free_heap_bytes = 0 }
status_columns (some s) = s

-- The values of the INSERT INTO telemetries.
abbrev pub telemetry_row : Engine → ℕ → TelemetryPayload → TelemetryRow
telemetry_row e now t =
    let s = status_columns t.status in
    record {
      device_id = t.header.device_id;
      timestamp = t.header.timestamp;
      seq_no = t.header.seq_no;
      firmware_version = t.header.firmware_version;
      boot_count = t.header.boot_count;
      temperature = e.store_real t.metrics.temperature;
      humidity = e.store_real t.metrics.humidity;
      battery_voltage = e.store_real t.metrics.battery_voltage;
      battery_level_pct = t.metrics.battery_level_pct;
      rssi = t.metrics.rssi;
      state = s.state;
      uptime_sec = s.uptime_sec;
      free_heap_bytes = s.free_heap_bytes;
      custom_values_json = e.json.marshal t.metrics.custom_values;
      created_at = now;
    }

-- The values of the INSERT INTO devices.
abbrev pub device_row : Engine → ℕ → TelemetryPayload → DeviceRow
device_row e now t = record {
  device_id = t.header.device_id;
  firmware_version = t.header.firmware_version;
  status = utf8 "ONLINE";
  last_seq_no = t.header.seq_no;
  last_seen_at = now;
  total_telemetries = 1;
  last_temp = e.store_real t.metrics.temperature;
  last_humidity = e.store_real t.metrics.humidity;
  last_voltage = e.store_real t.metrics.battery_voltage;
  last_battery_pct = t.metrics.battery_level_pct;
  last_rssi = t.metrics.rssi;
  current_interval_sec = if t.metrics.interval_sec == 0 then 60 else t.metrics.interval_sec;
  created_at = now;
}

-- DO UPDATE SET: `excluded` is the row that was to be inserted.
abbrev pub merge_row : DeviceRow → DeviceRow → DeviceRow
merge_row excluded devices = record devices {
  firmware_version = excluded.firmware_version;
  status = utf8 "ONLINE";
  last_seq_no = excluded.last_seq_no;
  last_seen_at = excluded.last_seen_at;
  total_telemetries = devices.total_telemetries + 1;
  last_temp = excluded.last_temp;
  last_humidity = excluded.last_humidity;
  last_voltage = excluded.last_voltage;
  last_battery_pct = excluded.last_battery_pct;
  last_rssi = excluded.last_rssi;
  current_interval_sec =
      if ltb 0 excluded.current_interval_sec
      then excluded.current_interval_sec
      else devices.current_interval_sec;
}

-- INSERT INTO devices … ON CONFLICT(device_id) DO UPDATE
unfoldable pub upsert_device : DeviceRow → List DeviceRow → List DeviceRow
upsert_device row [] = row ∷ []
upsert_device row (r ∷ rs) =
    let more = r ∷ upsert_device row rs in
    if bytes_eq r.device_id row.device_id then merge_row row r ∷ rs else more

-- FROM devices WHERE device_id = ?
unfoldable pub find_device : Bytes → List DeviceRow → Option DeviceRow
find_device device_id [] = none
find_device device_id (r ∷ rs) =
    let more = find_device device_id rs in if bytes_eq r.device_id device_id then some r else more

-- The values of the INSERT INTO events.
abbrev pub event_row : Engine → ℕ → EventPayload → EventRow
event_row e now p = record {
  device_id = p.header.device_id;
  timestamp = p.header.timestamp;
  event_type = p.event.event_type;
  severity = p.event.severity;
  message = p.event.message;
  details_json = e.json.marshal p.event.details;
  created_at = now;
}
