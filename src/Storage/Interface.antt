-- ===== src/Storage/Interface.antt =====
-- The interface `Repository` of server/storage/repository.go. `S` is the state behind it. A call
-- that may write returns the new state beside its result.
use iot_server.Base.{ℕ, Option, List}
use iot_server.Base.Text.{Bytes}
use iot_server.Base.Int.{ℤ}
use iot_server.Models.{TelemetryPayload, EventPayload, DeviceCommand, DeviceState}

-- `database_error` stands for the errors of the database driver.
pub data StorageError : Type 0 where
  device_not_found : StorageError
  database_error : StorageError

pub data Result {ℓ} (A : Type ℓ) : Type ℓ where
  ok : A → Result A
  err : StorageError → Result A

-- A call that is made for its effect: `none` is Go's nil error. `now` is the clock, in Unix
-- seconds.
pub record Repository (S : Type 0) : Type 0 where
  pub save_telemetry : (now : ℕ) → TelemetryPayload → S → S × Option StorageError
  pub get_device : Bytes → S → Result DeviceState
  pub list_devices : S → List DeviceState
  pub save_event : (now : ℕ) → EventPayload → S → S × Option StorageError
  pub get_telemetry_history : Bytes → ℤ → S → Result (List TelemetryPayload)
  pub queue_command : (now : ℕ) → Bytes → DeviceCommand → S → S × Option StorageError
  pub get_pending_commands : (now : ℕ) → Bytes → S → S × Result (List DeviceCommand)
  pub ack_command : (now : ℕ) → Bytes → Bytes → Bytes → S → S × Option StorageError
