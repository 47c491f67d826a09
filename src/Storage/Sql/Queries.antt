-- ===== src/Storage/Sql/Queries.antt =====
-- What the queries of server/storage/sql_repository.go read from the tables of devices and
-- messages.
use iot_server.Base.{ℕ, Option, none, some, List, [], ◌∷◌, ltb, ◌==◌, if◌then◌else◌}
use iot_server.Base.Text.{Bytes, bytes_eq}
use iot_server.Base.Int.{ltb_ℤ}
use iot_server.Base.Float.{Float64, zero_float}
use iot_server.Models.{TelemetryPayload, DeviceState}
use iot_server.Storage.Sql.Tables.{TelemetryRow, DeviceRow}

-- The float of a NullFloat64: 0 for NULL.
abbrev pub null_float : Option Float64 → Float64
null_float none = zero_float
null_float (some x) = x

-- What `GetDevice` and `ListDevices` make of a row. A number of commands is counted by
-- `ListDevices` only.
unfoldable pub state_of_row : DeviceRow → ℕ → DeviceState
state_of_row r pending_count =
    let interval = if r.current_interval_sec == 0 then 60 else r.current_interval_sec in
    record {
      device_id = r.device_id;
      firmware_version = r.firmware_version;
      last_seen_at = r.last_seen_at;
      last_seq_no = r.last_seq_no;
      last_metrics = record {
        temperature = null_float r.last_temp;
        humidity = null_float r.last_humidity;
        battery_voltage = null_float r.last_voltage;
        battery_level_pct = r.last_battery_pct;
        rssi = r.last_rssi;
        interval_sec = interval;
        custom_values = none;
      };
      last_status = none;
      status = r.status;
      total_telemetries = r.total_telemetries;
      pending_commands_count = pending_count;
      current_interval_sec = interval;
    }

-- ORDER BY last_seen_at DESC; devices seen at the same time stay in the order of the table.
unfoldable pub insert_device : DeviceRow → List DeviceRow → List DeviceRow
insert_device r [] = r ∷ []
insert_device r (s ∷ rs) =
    let later = s ∷ insert_device r rs in
    if ltb r.last_seen_at s.last_seen_at then later else r ∷ s ∷ rs

unfoldable pub order_devices : List DeviceRow → List DeviceRow
order_devices [] = []
order_devices (r ∷ rs) = insert_device r (order_devices rs)

-- WHERE device_id = ? ORDER BY timestamp DESC; messages of the same time stay in the order of the
-- table.
unfoldable pub insert_message : TelemetryRow → List TelemetryRow → List TelemetryRow
insert_message r [] = r ∷ []
insert_message r (s ∷ rs) =
    let later = s ∷ insert_message r rs in
    if ltb_ℤ r.timestamp s.timestamp then later else r ∷ s ∷ rs

unfoldable pub messages_of : Bytes → List TelemetryRow → List TelemetryRow
messages_of device_id [] = []
messages_of device_id (r ∷ rs) =
    let more = messages_of device_id rs in
    if bytes_eq r.device_id device_id then insert_message r more else more

infixl 5 ◌>>=◌
abbrev ◌>>=◌ {ℓ κ} : {A : Type ℓ} {B : Type κ} → Option A → (A → Option B) → Option B
none >>= f = none
some a >>= f = f a

-- rows.Scan of a message into the fields of a payload: an error if a float is NULL.
unfoldable pub scan_message : Bytes → TelemetryRow → Option TelemetryPayload
scan_message device_id r = do
  temperature ← r.temperature
  humidity ← r.humidity
  battery_voltage ← r.battery_voltage
  some (record {
    header = record {
      device_id = device_id;
      timestamp = r.timestamp;
      seq_no = r.seq_no;
      firmware_version = r.firmware_version;
      boot_count = r.boot_count;
    };
    metrics = record {
      temperature = temperature;
      humidity = humidity;
      battery_voltage = battery_voltage;
      battery_level_pct = r.battery_level_pct;
      rssi = r.rssi;
      interval_sec = 0;
      custom_values = none;
    };
    status = some (record {
      state = r.state;
      uptime_sec = r.uptime_sec;
      free_heap_bytes = r.free_heap_bytes;
    });
  })

-- The loop over the rows, which goes on behind a row that cannot be scanned.
unfoldable pub scan_messages : Bytes → List TelemetryRow → List TelemetryPayload
scan_messages device_id [] = []
scan_messages device_id (r ∷ rs) =
    let more = scan_messages device_id rs in
    elim (scan_message device_id r) [ none ↦ more | some t ↦ t ∷ more ]
