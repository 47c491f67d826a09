-- ===== src/Storage/Sql/Repository.antt =====
-- `SQLRepository` of server/storage/sql_repository.go, over the tables. A method is one step: the
-- pool has one connection for SQLite. What the database does with a statement beyond the tables is
-- given: `Faults` says which calls fail.
use iot_server.Base.{
  ℕ, ◌+◌, Bool, true, false, Option, none, some, List, [], ◌∷◌, ◌++◌, map, take, not, ◌==◌,
  if◌then◌else◌,
}
use iot_server.Base.Text.{Bytes}
use iot_server.Base.Int.{ℤ, pos, negsuc}
use iot_server.Models.{TelemetryPayload, EventPayload, DeviceCommand, DeviceState}
use iot_server.Storage.Interface.{
  StorageError, device_not_found, database_error, Result, ok, err, Repository,
}
use iot_server.Storage.Sql.Commands.{CommandRow, waits_for}
use iot_server.Storage.Sql.Commands
use iot_server.Storage.Sql.Tables.{
  Engine, TelemetryRow, DeviceRow, EventRow, telemetry_row, device_row, event_row, upsert_device,
  find_device,
}
use iot_server.Storage.Sql.Queries.{state_of_row, order_devices, messages_of, scan_messages}

pub record SqlDatabase : Type 0 where
  pub devices : List DeviceRow
  pub telemetries : List TelemetryRow
  pub events : List EventRow
  pub commands : List CommandRow

-- The tables that `migrate` creates.
abbrev pub migrate : SqlDatabase
migrate = record { devices = []; telemetries = []; events = []; commands = [] }

-- What the database does with the steps of the transaction of `SaveTelemetry`: whether each
-- succeeds.
pub record Transaction : Type 0 where
  pub begins : Bool
  pub inserts : Bool
  pub upserts : Bool
  pub commits : Bool

-- What the database does with the calls: the transactions, the single statements, and the UPDATEs of
-- `GetPendingCommands`, by the identifiers of their commands.
pub record Faults : Type 0 where
  pub transaction : SqlDatabase → Transaction
  pub succeeds : SqlDatabase → Bool
  pub update_fails : SqlDatabase → Bytes → Bool

abbrev pub no_faults : Faults
no_faults = record {
  transaction = λ db. record { begins = true; inserts = true; upserts = true; commits = true };
  succeeds = λ db. true;
  update_fails = λ db command_id. false;
}

-- `tx.Rollback()` of a transaction that began at `before`.
abbrev pub rollback : SqlDatabase → SqlDatabase → SqlDatabase
rollback before tx = before

-- The two statements of the transaction.
unfoldable pub insert_telemetry : Engine → ℕ → TelemetryPayload → SqlDatabase → SqlDatabase
insert_telemetry e now t db = record db {
  telemetries = db.telemetries ++ (telemetry_row e now t ∷ []);
}

unfoldable pub upsert : Engine → ℕ → TelemetryPayload → SqlDatabase → SqlDatabase
upsert e now t db = record db { devices = upsert_device (device_row e now t) db.devices }

-- SELECT COUNT(*) FROM commands c WHERE c.device_id = d.device_id AND c.status = 'PENDING'
unfoldable pub pending_count : Bytes → List CommandRow → ℕ
pending_count device_id [] = 0
pending_count device_id (c ∷ cs) =
    (if waits_for device_id c then 1 else 0) + pending_count device_id cs

-- `if limit <= 0 { limit = 50 }`
abbrev pub history_limit : ℤ → ℕ
history_limit (pos n) = if n == 0 then 50 else n
history_limit (negsuc n) = 50

module _ (e : Engine) (f : Faults) where
  -- Every return behind `Begin` runs the deferred `tx.Rollback()`, which does nothing behind
  -- `Commit`.
  unfoldable pub save_telemetry :
      ℕ → TelemetryPayload → SqlDatabase → SqlDatabase × Option StorageError
  save_telemetry now t db =
      let does = f.transaction db in
      let tx = insert_telemetry e now t db in
      let tx' = upsert e now t tx in
      if not does.begins
      then (db, some database_error)
      else if not does.inserts
      then (rollback db db, some database_error)
      else if not does.upserts
      then (rollback db tx, some database_error)
      else if not does.commits
      then (rollback db tx', some database_error)
      else (tx', none)

  unfoldable pub save_event : ℕ → EventPayload → SqlDatabase → SqlDatabase × Option StorageError
  save_event now p db =
      if f.succeeds db
      then (record db { events = db.events ++ (event_row e now p ∷ []) }, none)
      else (db, some database_error)

  unfoldable pub get_device : Bytes → SqlDatabase → Result DeviceState
  get_device device_id db =
      if f.succeeds db
      then elim (find_device device_id db.devices) [
        | none ↦ err device_not_found
        | some r ↦ ok (state_of_row r 0)
      ]
      else err database_error

  unfoldable pub list_devices : SqlDatabase → List DeviceState
  list_devices db =
      if f.succeeds db
      then map (λ (r : DeviceRow). state_of_row r (pending_count r.device_id db.commands))
          (order_devices db.devices)
      else []

  unfoldable pub get_telemetry_history : Bytes → ℤ → SqlDatabase → Result (List TelemetryPayload)
  get_telemetry_history device_id limit db =
      if f.succeeds db
      then ok (
          scan_messages device_id
            (take (history_limit limit) (messages_of device_id db.telemetries)))
      else err database_error

  unfoldable pub queue_command :
      ℕ → Bytes → DeviceCommand → SqlDatabase → SqlDatabase × Option StorageError
  queue_command now device_id cmd db =
      if f.succeeds db
      then (let (rows, violated) = Commands.queue_command e.json now device_id cmd db.commands in
          (record db { commands = rows }, if violated then some database_error else none))
      else (db, some database_error)

  -- The errors of the updates are dropped.
  unfoldable pub get_pending_commands :
      ℕ → Bytes → SqlDatabase → SqlDatabase × Result (List DeviceCommand)
  get_pending_commands now device_id db =
      if f.succeeds db
      then (let (rows, cmds) =
            Commands.get_pending_commands e.json (f.update_fails db) now device_id db.commands in
          (record db { commands = rows }, ok cmds))
      else (db, err database_error)

  unfoldable pub ack_command :
      ℕ → Bytes → Bytes → Bytes → SqlDatabase → SqlDatabase × Option StorageError
  ack_command now device_id command_id result db =
      if f.succeeds db
      then (
        record db { commands = Commands.ack_command now device_id command_id db.commands },
        none,
      )
      else (db, some database_error)

  -- The implementation of the interface.
  abbrev pub sql_repository : Repository SqlDatabase
  sql_repository = record {
    save_telemetry = save_telemetry;
    get_device = get_device;
    list_devices = list_devices;
    save_event = save_event;
    get_telemetry_history = get_telemetry_history;
    queue_command = queue_command;
    get_pending_commands = get_pending_commands;
    ack_command = ack_command;
  }
