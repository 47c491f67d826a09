-- ===== src/Storage/Sql/Listing.antt =====
-- What `ListDevices` of server/storage/sql_repository.go lists, and in which order.
use mathlib.Core.List.{Perm}
use mathlib.Core.List.Perm
use iot_server.Base.{
  ℕ, ◌≤◌, ◌≡◌, refl, sym, subst, Bool, true, false, List, [], ◌∷◌, map, ltb, All, arith,
  if◌then◌else◌, ◌==◌, Option, none, some, suc, ◌&&◌,
}
use iot_server.Base.Float.{Float64, zero_float}
use iot_server.Models.{DeviceState}
use iot_server.Storage.Sql.Tables.{Engine, DeviceRow}
use iot_server.Storage.Sql.Queries.{null_float, state_of_row, insert_device, order_devices}
use iot_server.Storage.Sql.Commands.{CommandRow, pending, waits_for}
use iot_server.Storage.Sql.Repository.{SqlDatabase, Faults, pending_count, list_devices}
use iot_server.Base.Text.{Bytes, bytes_eq}

-- Every device was seen at the time of those behind it, or later.
abbrev pub IsLatestFirst : List DeviceState → Type 0
IsLatestFirst [] = Unit
IsLatestFirst (d ∷ ds) =
    All (λ (x : DeviceState). x.last_seen_at ≤ d.last_seen_at) ds × IsLatestFirst ds

abbrev IsLatestRowFirst : List DeviceRow → Type 0
IsLatestRowFirst [] = Unit
IsLatestRowFirst (r ∷ rs) =
    All (λ (x : DeviceRow). x.last_seen_at ≤ r.last_seen_at) rs × IsLatestRowFirst rs

-- The commands of a device that are to be delivered, and how many there are.
abbrev is_pending_for : Bytes → CommandRow → Bool
is_pending_for k c = bytes_eq c.device_id k && elim c.status [ pending ↦ true | _ ↦ false ]

unfoldable pub waiting_for : Bytes → List CommandRow → ℕ
waiting_for k [] = 0
waiting_for k (c ∷ cs) =
    let more = waiting_for k cs in if is_pending_for k c then suc more else more

pending_count-waiting_for :
    (k : Bytes) (cs : List CommandRow) → pending_count k cs ≡ waiting_for k cs
unfolding pending_count waiting_for waits_for
pending_count-waiting_for k [] = refl
pending_count-waiting_for k (c ∷ cs) = ground (arith, pending_count-waiting_for k cs)

-- A float that may be NULL.
abbrev or_zero : Option Float64 → Float64
or_zero none = zero_float
or_zero (some y) = y

-- The entry of a row, with the number of the commands that wait for its device.
abbrev pub listed : List CommandRow → DeviceRow → DeviceState
listed cs r =
    let interval = if r.current_interval_sec == 0 then 60 else r.current_interval_sec in
    record {
      device_id = r.device_id;
      firmware_version = r.firmware_version;
      last_seen_at = r.last_seen_at;
      last_seq_no = r.last_seq_no;
      last_metrics = record {
        temperature = or_zero r.last_temp;
        humidity = or_zero r.last_humidity;
        battery_voltage = or_zero r.last_voltage;
        battery_level_pct = r.last_battery_pct;
        rssi = r.last_rssi;
        interval_sec = interval;
        custom_values = none;
      };
      last_status = none;
      status = r.status;
      total_telemetries = r.total_telemetries;
      pending_commands_count = waiting_for r.device_id cs;
      current_interval_sec = interval;
    }

null_float-zero : (x : Option Float64) → null_float x ≡ or_zero x
null_float-zero none = refl
null_float-zero (some y) = refl

state_of_row-listed :
    (cs : List CommandRow) (rs : List DeviceRow)
    → map (λ (r : DeviceRow). state_of_row r (pending_count r.device_id cs)) rs ≡ map (listed cs) rs
unfolding state_of_row
state_of_row-listed cs [] = refl
state_of_row-listed cs (r ∷ rs) =
    let rest = state_of_row-listed cs rs in
    let one : state_of_row r (pending_count r.device_id cs) ≡ listed cs r =
      unfold state_of_row in
      ground (
        arith,
        pending_count-waiting_for r.device_id cs,
        null_float-zero r.last_temp,
        null_float-zero r.last_humidity,
        null_float-zero r.last_voltage,
      ) in
    (λ i. one i ∷ rest i)

insert_device-perm : (r : DeviceRow) (rs : List DeviceRow) → Perm (insert_device r rs) (r ∷ rs)
unfolding insert_device
insert_device-perm r [] = Perm.rfl
insert_device-perm r (s ∷ rs) =
    go (ltb r.last_seen_at s.last_seen_at) (insert_device r rs) (insert_device-perm r rs)
  where
    go :
        (b : Bool) (later : List DeviceRow)
        → Perm later (r ∷ rs)
        → Perm (if b then s ∷ later else r ∷ s ∷ rs) (r ∷ s ∷ rs)
    go true later p = Perm.trans (Perm.cons s p) (Perm.swap r s rs)
    go false later p = Perm.rfl

order_devices-perm : (rs : List DeviceRow) → Perm (order_devices rs) rs
unfolding order_devices
order_devices-perm [] = Perm.rfl
order_devices-perm (r ∷ rs) =
    Perm.trans (insert_device-perm r (order_devices rs)) (Perm.cons r (order_devices-perm rs))

-- A bound on the rows, and one that is raised.
All-insert_device :
    (a : ℕ) (r : DeviceRow) (rs : List DeviceRow)
    → r.last_seen_at ≤ a
    → All (λ (x : DeviceRow). x.last_seen_at ≤ a) rs
    → All (λ (x : DeviceRow). x.last_seen_at ≤ a) (insert_device r rs)
unfolding insert_device
All-insert_device a r [] h hs = (h, tt)
All-insert_device a r (s ∷ rs) h hs =
    go (ltb r.last_seen_at s.last_seen_at) (insert_device r rs) (All-insert_device a r rs h hs.1)
  where
    go :
        (b : Bool) (later : List DeviceRow)
        → All (λ (x : DeviceRow). x.last_seen_at ≤ a) later
        → All (λ (x : DeviceRow). x.last_seen_at ≤ a) (if b then s ∷ later else r ∷ s ∷ rs)
    go true later g = (hs.0, g)
    go false later g = (h, hs)

All-raise :
    (a b : ℕ) (rs : List DeviceRow)
    → a ≤ b
    → All (λ (x : DeviceRow). x.last_seen_at ≤ a) rs
    → All (λ (x : DeviceRow). x.last_seen_at ≤ b) rs
All-raise a b [] h hs = tt
All-raise a b (r ∷ rs) h hs = (omega (arith, hs.0, h), All-raise a b rs h hs.1)

insert_device-IsLatestRowFirst :
    (r : DeviceRow) (rs : List DeviceRow)
    → IsLatestRowFirst rs
    → IsLatestRowFirst (insert_device r rs)
unfolding insert_device
insert_device-IsLatestRowFirst r [] h = (tt, tt)
insert_device-IsLatestRowFirst r (s ∷ rs) h =
    go (ltb r.last_seen_at s.last_seen_at) refl (insert_device r rs)
      (insert_device-IsLatestRowFirst r rs h.1)
      (λ earlier. All-insert_device s.last_seen_at r rs earlier h.0)
  where
    go :
        (b : Bool)
        → ltb r.last_seen_at s.last_seen_at ≡ b
        → (later : List DeviceRow) → IsLatestRowFirst later
        → (r.last_seen_at ≤ s.last_seen_at
            → All (λ (x : DeviceRow). x.last_seen_at ≤ s.last_seen_at) later)
        → IsLatestRowFirst (if b then s ∷ later else r ∷ s ∷ rs)
    go true e later sorted above = (above (ground (arith, e)), sorted)
    go false e later sorted above =
        let seen : s.last_seen_at ≤ r.last_seen_at = ground (arith, e) in
        ((seen, All-raise s.last_seen_at r.last_seen_at rs seen h.0), h)

order_devices-IsLatestRowFirst : (rs : List DeviceRow) → IsLatestRowFirst (order_devices rs)
unfolding order_devices
order_devices-IsLatestRowFirst [] = tt
order_devices-IsLatestRowFirst (r ∷ rs) =
    insert_device-IsLatestRowFirst r (order_devices rs) (order_devices-IsLatestRowFirst rs)

listed-IsLatestFirst :
    (cs : List CommandRow) (rs : List DeviceRow)
    → IsLatestRowFirst rs
    → IsLatestFirst (map (listed cs) rs)
unfolding state_of_row
listed-IsLatestFirst cs [] h = tt
listed-IsLatestFirst cs (r ∷ rs) h = (same rs h.0, listed-IsLatestFirst cs rs h.1)
  where
    same :
        (ss : List DeviceRow)
        → All (λ (x : DeviceRow). x.last_seen_at ≤ r.last_seen_at) ss
        → All (λ (x : DeviceState). x.last_seen_at ≤ r.last_seen_at) (map (listed cs) ss)
    same [] g = tt
    same (s ∷ ss) g = (g.0, same ss g.1)

-- A query that succeeds lists every device of the table once, with the number of commands that wait
-- for it, the device that was seen last first.
pub list_devices-orders :
    (e : Engine) (f : Faults) (db : SqlDatabase)
    → f.succeeds db ≡ true
    → Perm (list_devices e f db) (map (listed db.commands) db.devices)
      × IsLatestFirst (list_devices e f db)
unfolding list_devices
list_devices-orders e f db good =
    let rows = order_devices db.devices in
    let answer : list_devices e f db ≡ map (listed db.commands) rows =
      ground (arith, good, state_of_row-listed db.commands rows) in
    let IsListing =
      λ (ds : List DeviceState). Perm ds (map (listed db.commands) db.devices) × IsLatestFirst ds in
    subst IsListing (sym answer) (
      Perm.map (listed db.commands) (order_devices-perm db.devices),
      listed-IsLatestFirst db.commands rows (order_devices-IsLatestRowFirst db.devices),
    )
