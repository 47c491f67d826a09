-- ===== src/Api/Failures.antt =====
-- `HandleTelemetry` of server/api/handlers/telemetry_handler.go over the repository of
-- server/storage/sql_repository.go, where the database fails.
use iot_server.Base.{
  ℕ, ◌≡◌, [], Option, false, some, arith, inl, inr, if◌then◌else◌, Bool-cases, not, ◌&&◌,
}
use iot_server.Base.Text.{Bytes, utf8, bytes_eq}
use iot_server.Base.Float.{Float64}
use iot_server.Models.{TelemetryPayload, OtaInfo}
use iot_server.Storage.Sql.Tables.{Engine}
use iot_server.Storage.Sql.Repository.{SqlDatabase, Faults, sql_repository}
use iot_server.Storage.Sql.Atomic.{all_succeed, save_telemetry-atomic}
use iot_server.Alerting.Rules.{RuleThresholds}
use iot_server.Api.Requests.{Json, failure}
use iot_server.Api.Handlers.{ApiHandler, ApiState, accept}

-- The handlers of a server with the database.
abbrev pub sql_handler :
    Engine → Faults → Option OtaInfo → RuleThresholds → Bytes → ApiHandler SqlDatabase
sql_handler e f ota th url = record {
  repo = sql_repository e f;
  available_ota = ota;
  rule_engine = record { thresholds = th; webhook_url = url; repo = some (sql_repository e f) };
}

-- A message that the database does not store changes nothing: where a step of the transaction
-- fails, the answer is 403 where the client is authenticated as another device than that of the
-- message, and 500 otherwise, no alert is evaluated,
-- no command is taken as sent, and all state is as it was.
pub accept-save_telemetry :
    (json : Json) (out : Float64 → ℕ) (e : Engine) (f : Faults) (ota : Option OtaInfo)
    (th : RuleThresholds) (url : Bytes) (now : ℕ) (id : Bytes) (p : TelemetryPayload)
    (st : ApiState SqlDatabase)
    → all_succeed (f.transaction st.outside.store) ≡ false
    → accept json out (sql_handler e f ota th url) now id p st ≡ (
      st,
      if not (bytes_eq id []) && not (bytes_eq p.header.device_id id)
          then failure 403 (utf8 "UNAUTHORIZED")
          else failure 500 (utf8 "STORAGE_ERROR"),
    )
unfolding accept
accept-save_telemetry json out e f ota th url now id p st fails =
    elim (Bool-cases (not (bytes_eq id []) && not (bytes_eq p.header.device_id id))) [
      | inl other ↦ ground (arith, other)
      | inr same ↦ elim (save_telemetry-atomic e f now p st.outside.store) [
        | inl (good, saved) ↦ absurd (ground (arith, good, fails))
        | inr (bad, saved) ↦ ground (arith, same, saved)
      ]
    ]
