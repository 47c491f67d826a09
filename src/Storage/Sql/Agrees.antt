-- ===== src/Storage/Sql/Agrees.antt =====
-- The two implementations of `Repository`: server/storage/repository.go and
-- server/storage/sql_repository.go report the same of a device.
use iot_server.Base.{
  ℕ, ◌+◌, ◌%◌, ◌^◌, ◌≡◌, refl, sym, ap, ◌∙◌, Bool, true, false, Option, none, some, List, [], ◌∷◌,
  ◌++◌, arith, All, All-append, if◌then◌else◌,
}
use iot_server.Base.Text.{Bytes, bytes_eq, bytes_eq_iff}
use iot_server.Base.Int.{ℤ}
use iot_server.Base.Float.{Float64}
use iot_server.Models.{TelemetryPayload, DeviceState}
use iot_server.Storage.Interface.{Result, ok, err, device_not_found}
use iot_server.Storage.Memory.{get_device}
use iot_server.Storage.Memory.History.{Call, saved, after_message, device_after, run-Holds}
use iot_server.Storage.Memory.History
use iot_server.Storage.Sql.Tables.{Engine, DeviceRow, device_row}
use iot_server.Storage.Sql.Queries.{state_of_row}
use iot_server.Storage.Sql.Repository.{no_faults}
use iot_server.Storage.Sql.Repository
use iot_server.Storage.Sql.Contents.{row_after, upserted, sql_run-Holds}
use iot_server.Storage.Sql.Contents

-- What both report of a device. The repository in memory counts modulo 2 ^ 64.
pub record DeviceView : Type 0 where
  pub device_id : Bytes
  pub firmware_version : Bytes
  pub status : Bytes
  pub last_seen_at : ℕ
  pub last_seq_no : ℕ
  pub temperature : Float64
  pub humidity : Float64
  pub battery_voltage : Float64
  pub battery_level_pct : ℕ
  pub rssi : ℤ
  pub total_telemetries : ℕ

abbrev pub view_of : DeviceState → DeviceView
view_of d = record {
  device_id = d.device_id;
  firmware_version = d.firmware_version;
  status = d.status;
  last_seen_at = d.last_seen_at;
  last_seq_no = d.last_seq_no;
  temperature = d.last_metrics.temperature;
  humidity = d.last_metrics.humidity;
  battery_voltage = d.last_metrics.battery_voltage;
  battery_level_pct = d.last_metrics.battery_level_pct;
  rssi = d.last_metrics.rssi;
  total_telemetries = d.total_telemetries % 2 ^ 64;
}

-- The device that was found; `none` is the error.
abbrev pub found : Result DeviceState → Option DeviceView
found (ok d) = some (view_of d)
found (err e) = none

-- A float that a REAL column keeps.
abbrev pub Keeps : Engine → Float64 → Type 0
Keeps e x = e.store_real x ≡ some x

-- A message with floats that are kept.
abbrev pub IsKept : Engine → ℕ × TelemetryPayload → Type 0
IsKept e (now, t) =
    Keeps e t.metrics.temperature × Keeps e t.metrics.humidity × Keeps e t.metrics.battery_voltage

abbrev pub IsOf : Bytes → ℕ × TelemetryPayload → Type 0
IsOf k (now, t) = t.header.device_id ≡ k

abbrev Agree : Option DeviceState → Option DeviceRow → Type 0
Agree none none = Unit
Agree (some d) (some r) = view_of d ≡ view_of (state_of_row r 0)
Agree _ _ = ⊥

Agree-message :
    (e : Engine) (k : Bytes) (now : ℕ) (t : TelemetryPayload) (d : Option DeviceState)
    (r : Option DeviceRow)
    → IsOf k (now, t)
    → IsKept e (now, t)
    → Agree d r
    → Agree (some (after_message k now t d)) (some (upserted (device_row e now t) r))
unfolding state_of_row
Agree-message e k now t none none named kept h = ground arith
Agree-message e k now t (some d) (some r) named kept h =
    let same_id = ap (λ (v : DeviceView). v.device_id) h in
    let same_total = ap (λ (v : DeviceView). v.total_telemetries) h in
    let counted : (d.total_telemetries + 1) % 2 ^ 64 % 2 ^ 64 ≡ (r.total_telemetries + 1) % 2 ^ 64 =
      omega (arith, same_total) in
    ground (arith, same_id, counted)
Agree-message e k now t none (some r) named kept h = absurd h
Agree-message e k now t (some d) none named kept h = absurd h

Agree-after :
    (e : Engine) (k : Bytes) (ms : List (ℕ × TelemetryPayload)) (d : Option DeviceState)
    (r : Option DeviceRow)
    → All (IsOf k) ms
    → All (IsKept e) ms
    → Agree d r
    → Agree (device_after k ms d) (row_after e ms r)
unfolding device_after row_after
Agree-after e k [] d r named kept h = h
Agree-after e k ((now, t) ∷ ms) d r named kept h =
    Agree-after e k ms (some (after_message k now t d)) (some (upserted (device_row e now t) r))
      named.1 kept.1 (Agree-message e k now t d r named.0 kept.0 h)

-- The messages of a device are of that device.
pub saved-IsOf : (k : Bytes) (cs : List Call) → All (IsOf k) (saved k cs)
unfolding saved
saved-IsOf k [] = tt
saved-IsOf k (Call.save_telemetry now t ∷ cs) =
    go (bytes_eq t.header.device_id k) refl (saved k cs) (saved-IsOf k cs)
  where
    go :
        (b : Bool)
        → bytes_eq t.header.device_id k ≡ b
        → (ms : List (ℕ × TelemetryPayload)) → All (IsOf k) ms
        → All (IsOf k) (if b then ms ++ ((now, t) ∷ []) else ms)
    go true e ms h =
        All-append (IsOf k) ms ((now, t) ∷ []) h ((bytes_eq_iff t.header.device_id k).0 e, tt)
    go false e ms h = h
saved-IsOf k (Call.save_event p ∷ cs) = saved-IsOf k cs
saved-IsOf k (Call.queue_command j c ∷ cs) = saved-IsOf k cs
saved-IsOf k (Call.ack_command j id ∷ cs) = saved-IsOf k cs

found-Agree :
    (k : Bytes) (d : Option DeviceState) (r : Option DeviceRow) (m : Result DeviceState)
    (q : Result DeviceState)
    → Agree d r
    → m ≡ elim d [ none ↦ err device_not_found | some x ↦ ok x ]
    → q ≡ elim r [ none ↦ err device_not_found | some x ↦ ok (state_of_row x 0) ]
    → found m ≡ found q
found-Agree k none none m q h em eq = ap found em ∙ sym (ap found eq)
found-Agree k (some d) (some r) m q h em eq = ap found em ∙ ap some h ∙ sym (ap found eq)
found-Agree k none (some r) m q h em eq = absurd h
found-Agree k (some d) none m q h em eq = absurd h

-- The two repositories agree: after any history of writing calls and without a fault of the
-- database, `GetDevice` of the one finds a device exactly when that of the other does, and both
-- report the same identifier, firmware, status, time, sequence number, measurements and, modulo 2 ^
-- 64, count. The database keeps the floats of the messages of the device.
pub get_device-agrees :
    (e : Engine) (cs : List Call) (k : Bytes)
    → All (IsKept e) (saved k cs)
    → found (get_device k (History.run cs))
      ≡ found (Repository.get_device e no_faults k (Contents.run e cs))
unfolding get_device Repository.get_device
get_device-agrees e cs k kept =
    let here = (run-Holds cs k).device in
    let there = (sql_run-Holds e cs k).device in
    found-Agree k (device_after k (saved k cs) none) (row_after e (saved k cs) none) _ _
      (Agree-after e k (saved k cs) none none (saved-IsOf k cs) kept tt)
      (ap
        (λ (d : Option DeviceState). elim d as (λ _. Result DeviceState) [
          | none ↦ err device_not_found
          | some x ↦ ok x
        ])
        here)
      (ap
        (λ (r : Option DeviceRow). elim r as (λ _. Result DeviceState) [
          | none ↦ err device_not_found
          | some x ↦ ok (state_of_row x 0)
        ])
        there)
