-- ===== src/Tests/Database.antt =====
-- The theorems on the database at a concrete history of calls.
use mathlib.Core.List.{Perm}
use iot_server.Base.{
  not, ◌&&◌, if◌then◌else◌, ◌≡◌, refl, true, false, none, some, List, [], map, arith,
}
use iot_server.Base.Text.{utf8, bytes_eq}
use iot_server.Base.Int.{pos}
use iot_server.Models.{TelemetryPayload}
use iot_server.Storage.Interface.{ok}
use iot_server.Storage.Memory.{get_device, get_telemetry_history}
use iot_server.Storage.Memory.History.{saved}
use iot_server.Storage.Memory.History
use iot_server.Storage.Sql.Tables.{Engine}
use iot_server.Storage.Sql.Repository.{
  SqlDatabase, Faults, no_faults, list_devices, insert_telemetry, upsert, migrate,
}
use iot_server.Storage.Sql.Repository
use iot_server.Storage.Sql.Contents.{Holds, sql_run-Holds}
use iot_server.Storage.Sql.Contents
use iot_server.Storage.Sql.Agrees.{found, get_device-agrees}
use iot_server.Storage.Sql.Messages.{as_stored}
use iot_server.Storage.Sql.Newest.{IsNewestFirst}
use iot_server.Storage.Sql.Histories.{get_telemetry_history-agrees}
use iot_server.Storage.Sql.Listing.{listed, IsLatestFirst, list_devices-orders}
use iot_server.Alerting.Rules.{default_thresholds}
use iot_server.Api.Requests.{failure}
use iot_server.Api.Handlers.{ApiState, accept}
use iot_server.Api.Failures.{sql_handler, accept-save_telemetry}
use iot_server.Tests.Samples.{reading, sleep_command, calls}
use iot_server.Tests.Server.{device, webhook, fixed_json, no_range}

-- Columns that keep every float, and one map in JSON.
abbrev engine : Engine
engine = record {
  store_real = λ x. some x;
  json = record { marshal = λ p. utf8 "{}"; unmarshal = λ s. sleep_command.params };
}

sql_run-Holds_example : Holds engine (Contents.run engine calls) device calls
sql_run-Holds_example = sql_run-Holds engine calls device

get_device-agrees_example :
    found (get_device device (History.run calls))
    ≡ found (Repository.get_device engine no_faults device (Contents.run engine calls))
unfolding saved bytes_eq
get_device-agrees_example =
    get_device-agrees engine calls device ((refl, refl, refl), ((refl, refl, refl), tt))

get_telemetry_history-agrees_example :
    (ms ts : List TelemetryPayload) × (get_telemetry_history device (pos 50) (History.run calls)
      ≡ ok ms)
    × (Repository.get_telemetry_history engine no_faults device (pos 50) (Contents.run engine calls)
        ≡ ok ts)
    × Perm ts (map as_stored ms)
    × IsNewestFirst ts
unfolding saved bytes_eq
get_telemetry_history-agrees_example =
    get_telemetry_history-agrees engine calls device 50 (omega arith) (omega arith)
      ((refl, refl, refl), ((refl, refl, refl), tt))

-- The row of the device cannot be written.
abbrev locked : Faults
locked = record {
  transaction = λ db. record { begins = true; inserts = true; upserts = false; commits = true };
  succeeds = λ db. true;
  update_fails = λ db command_id. false;
}

abbrev state : ApiState SqlDatabase
state = record {
  outside = record { store = Contents.run engine calls; outbox = [] };
  device_sleep_configs = [];
}

accept-save_telemetry_example :
    accept fixed_json no_range
      (sql_handler engine locked none default_thresholds webhook)
      60
      device
      reading
      state
    ≡ (
      state,
      if not (bytes_eq device []) && not (bytes_eq reading.header.device_id device)
          then failure 403 (utf8 "UNAUTHORIZED")
          else failure 500 (utf8 "STORAGE_ERROR"),
    )
accept-save_telemetry_example =
    accept-save_telemetry fixed_json no_range engine locked none default_thresholds webhook 60
      device reading state refl

list_devices-orders_example :
    let db = Contents.run engine calls in
    Perm (list_devices engine no_faults db) (map (listed db.commands) db.devices)
    × IsLatestFirst (list_devices engine no_faults db)
list_devices-orders_example = list_devices-orders engine no_faults (Contents.run engine calls) refl
