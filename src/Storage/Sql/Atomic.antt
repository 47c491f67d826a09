-- ===== src/Storage/Sql/Atomic.antt =====
-- The transaction of `SaveTelemetry` in server/storage/sql_repository.go.
use iot_server.Base.{ℕ, ◌≡◌, ◌⊎◌, inl, inr, none, some, Bool, true, false, arith, ◌&&◌, Bool-cases}
use iot_server.Models.{TelemetryPayload}
use iot_server.Storage.Interface.{database_error}
use iot_server.Storage.Sql.Tables.{Engine}
use iot_server.Storage.Sql.Repository.{
  SqlDatabase, Transaction, Faults, insert_telemetry, upsert, save_telemetry,
}

-- Whether every step succeeds.
abbrev pub all_succeed : Transaction → Bool
all_succeed t = t.begins && t.inserts && t.upserts && t.commits

-- The transaction is atomic: if all its steps succeed, the message is a new row and the row of its
-- device is updated, and the result is no error; if one fails, the result is an error and the
-- tables are as they were.
pub save_telemetry-atomic :
    (e : Engine) (f : Faults) (now : ℕ) (t : TelemetryPayload) (db : SqlDatabase)
    → ((all_succeed (f.transaction db) ≡ true)
        × (save_telemetry e f now t db ≡ (upsert e now t (insert_telemetry e now t db), none)))
      ⊎ ((all_succeed (f.transaction db) ≡ false)
          × (save_telemetry e f now t db ≡ (db, some database_error)))
unfolding save_telemetry
save_telemetry-atomic e f now t db = elim (Bool-cases (all_succeed (f.transaction db))) [
  | inl good ↦ inl (good, ground (arith, good))
  | inr bad ↦ inr (bad, ground (arith, bad))
]
