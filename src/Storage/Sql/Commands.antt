-- ===== src/Storage/Sql/Commands.antt =====
-- `SQLRepository` of server/storage/sql_repository.go: the table `commands`. The table is a list of
-- its rows in the order of their ids, and a statement is a function on it. Statements fail by a
-- constraint of the table only: an error of the database itself is not modelled. encoding/json is a
-- parameter.
use iot_server.Base.{
  ℕ, Bool, true, false, ◌&&◌, ◌||◌, Option, none, some, List, [], ◌∷◌, ◌++◌, map, leb,
  if◌then◌else◌,
}
use iot_server.Base.Text.{Bytes, bytes_eq}
use iot_server.Models.{DeviceCommand, Entries}

-- The column `status`.
pub data CommandStatus : Type 0 where
  pending : CommandStatus
  sent : CommandStatus
  acked : CommandStatus

-- A row of the table. The columns `sent_at` and `acked_at` may be NULL.
pub record CommandRow : Type 0 where
  pub device_id : Bytes
  pub command_id : Bytes
  pub action : Bytes
  pub params_json : Bytes
  pub status : CommandStatus
  pub created_at : ℕ
  pub sent_at : Option ℕ
  pub acked_at : Option ℕ

-- json.Marshal of the parameters of a command, and json.Unmarshal of them; on an error the
-- parameters stay nil.
pub record ParamsJson : Type 0 where
  pub marshal : Option Entries → Bytes
  pub unmarshal : Bytes → Option Entries

-- Whether a row of the table has a command identifier.
unfoldable pub has_command : Bytes → List CommandRow → Bool
has_command command_id [] = false
has_command command_id (r ∷ rs) = bytes_eq command_id r.command_id || has_command command_id rs

-- The values of an INSERT INTO commands.
abbrev pub new_row : ParamsJson → ℕ → Bytes → DeviceCommand → CommandRow
new_row json now device_id cmd = record {
  device_id = device_id;
  command_id = cmd.command_id;
  action = cmd.action;
  params_json = json.marshal cmd.params;
  status = pending;
  created_at = now;
  sent_at = none;
  acked_at = none;
}

-- INSERT INTO commands. The result is whether the constraint UNIQUE of `command_id` is violated.
unfoldable pub queue_command :
    ParamsJson → ℕ → Bytes → DeviceCommand → List CommandRow → List CommandRow × Bool
queue_command json now device_id cmd rows =
    if has_command cmd.command_id rows
    then (rows, true)
    else (rows ++ (new_row json now device_id cmd ∷ []), false)

abbrev is_pending : CommandStatus → Bool
is_pending pending = true
is_pending _ = false

-- WHERE device_id = ? AND status = 'PENDING'
unfoldable pub waits_for : Bytes → CommandRow → Bool
waits_for device_id r = bytes_eq r.device_id device_id && is_pending r.status

-- ORDER BY created_at ASC; rows of the same time stay in the order of the table.
unfoldable pub insert_row : CommandRow → List CommandRow → List CommandRow
insert_row r [] = r ∷ []
insert_row r (s ∷ rs) =
    let later = insert_row r rs in if leb r.created_at s.created_at then r ∷ s ∷ rs else s ∷ later

unfoldable pub pending_rows : Bytes → List CommandRow → List CommandRow
pending_rows device_id [] = []
pending_rows device_id (r ∷ rs) =
    let more = pending_rows device_id rs in
    if waits_for device_id r then insert_row r more else more

-- UPDATE commands SET status = 'SENT', sent_at = ? WHERE command_id = ?
unfoldable pub mark_sent : ℕ → Bytes → CommandRow → CommandRow
mark_sent now command_id r =
    if bytes_eq r.command_id command_id then record r { status = sent; sent_at = some now } else r

-- The UPDATE, whose error is dropped: where it fails, the table stays as it is.
unfoldable pub mark_command : (Bytes → Bool) → ℕ → Bytes → List CommandRow → List CommandRow
mark_command fails now command_id rows =
    if fails command_id then rows else map (mark_sent now command_id) rows

-- The loop over the identifiers.
unfoldable pub mark_all : (Bytes → Bool) → ℕ → List CommandRow → List CommandRow → List CommandRow
mark_all fails now [] rows = rows
mark_all fails now (c ∷ cs) rows = mark_all fails now cs (mark_command fails now c.command_id rows)

abbrev pub command_of_row : ParamsJson → CommandRow → DeviceCommand
command_of_row json r = record {
  command_id = r.command_id;
  action = r.action;
  params = if bytes_eq r.params_json [] then none else json.unmarshal r.params_json;
}

-- The commands that wait, which are marked as sent: `fails` says for which the UPDATE fails.
unfoldable pub get_pending_commands :
    ParamsJson → (Bytes → Bool) → ℕ → Bytes → List CommandRow → List CommandRow × List DeviceCommand
get_pending_commands json fails now device_id rows =
    let cmds = pending_rows device_id rows in
    (mark_all fails now cmds rows, map (command_of_row json) cmds)

-- UPDATE commands SET status = 'ACKED', acked_at = ? WHERE device_id = ? AND command_id = ?
unfoldable pub ack_row : ℕ → Bytes → Bytes → CommandRow → CommandRow
ack_row now device_id command_id r =
    if bytes_eq r.device_id device_id && bytes_eq r.command_id command_id
    then record r { status = acked; acked_at = some now }
    else r

unfoldable pub ack_command : ℕ → Bytes → Bytes → List CommandRow → List CommandRow
ack_command now device_id command_id rows = map (ack_row now device_id command_id) rows
