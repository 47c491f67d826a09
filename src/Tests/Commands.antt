-- ===== src/Tests/Commands.antt =====
-- The theorems on the table of commands at a concrete table.
use iot_server.Base.{
  ℕ, Bool, ◌==◌, ◌&&◌, All, false, ◌≡◌, refl, none, some, List, [], ◌∷◌, ◌++◌, map, arith,
}
use iot_server.Base.Text.{Bytes, utf8, bytes_eq}
use iot_server.Models.{DeviceCommand}
use iot_server.Storage.Sql.Commands.{
  CommandRow, sent, ParamsJson, has_command, queue_command, get_pending_commands, command_of_row,
  new_row,
}
use iot_server.Storage.Sql.Delivery.{
  IsUnique, delivered, get_pending_commands-delivered, get_pending_commands-once,
}
use iot_server.Storage.Sql.Order.{waiting_rows, get_pending_commands-queue_command}
use iot_server.Storage.Sql.Commands.{pending_rows}
use iot_server.Storage.Sql.Fetches.{marking, Steps}
use iot_server.Storage.Sql.Twice.{
  begin, IsDelivered, HasWaited, IsDone, steps-IsDelivered, steps-twice,
}
use iot_server.Tests.Samples.{sleep_command}

-- A codec of the parameters of one command.
abbrev fixed_codec : ParamsJson
fixed_codec = record { marshal = λ p. utf8 "{}"; unmarshal = λ s. sleep_command.params }

abbrev device : Bytes
device = utf8 "DEV-1"

abbrev reboot : DeviceCommand
reboot = record { command_id = utf8 "cmd-0"; action = utf8 "REBOOT"; params = none }

-- One row that was sent, one of another device, and one that waits.
abbrev table : List CommandRow
table =
    record (new_row fixed_codec 5 device reboot) { status = sent; sent_at = some 6 }
    ∷ record (new_row fixed_codec 7 (utf8 "DEV-2") reboot) { command_id = utf8 "cmd-7" }
    ∷ record (new_row fixed_codec 8 device reboot) { command_id = utf8 "cmd-8" }
    ∷ []

table-IsUnique : IsUnique table
unfolding has_command bytes_eq
table-IsUnique = (refl, (refl, (refl, tt)))

-- An UPDATE of the second command of the device that fails at the time 9.
abbrev locked : ℕ → Bytes → Bool
locked now k = now == 9 && bytes_eq k (utf8 "cmd-8")

get_pending_commands-delivered_example :
    (get_pending_commands fixed_codec (locked 9) 9 device table).0
    ≡ map (delivered (locked 9) 9 device) table
get_pending_commands-delivered_example =
    get_pending_commands-delivered fixed_codec (locked 9) 9 device table table-IsUnique

get_pending_commands-once_example :
    get_pending_commands fixed_codec
      (locked 9)
      10
      device
      (get_pending_commands fixed_codec (λ k. false) 9 device table).0
    ≡ ((get_pending_commands fixed_codec (λ k. false) 9 device table).0, [])
get_pending_commands-once_example =
    get_pending_commands-once fixed_codec (λ k. false) (locked 9) 9 10 device table table-IsUnique
      (λ k. refl)

get_pending_commands-queue_command_example :
    (get_pending_commands fixed_codec
      (locked 9)
      10
      device
      (queue_command fixed_codec 9 device sleep_command table).0).1
    ≡ map (command_of_row fixed_codec) (waiting_rows device table) ++ (sleep_command ∷ [])
unfolding has_command bytes_eq
get_pending_commands-queue_command_example =
    get_pending_commands-queue_command fixed_codec (locked 9) 9 10 device sleep_command table
      (omega arith) (omega arith) refl refl refl

-- Two requests at the same time, of which one ends before the other begins to mark.
steps-IsDelivered_example :
    All (IsDelivered device (pending_rows device table) (pending_rows device table)) table
    × All
        (IsDone locked device (pending_rows device table) (pending_rows device table))
        (steps-twice locked 9 device table).0
    × All (HasWaited device table) (pending_rows device table)
    × All (HasWaited device table) (pending_rows device table)
steps-IsDelivered_example =
    steps-IsDelivered locked device table (pending_rows device table) (pending_rows device table)
      (record {
        rows = (steps-twice locked 9 device table).0;
        one = marking (pending_rows device table) [];
        two = marking (pending_rows device table) [];
      })
      (steps-twice locked 9 device table).1 refl refl

steps-twice_example :
    (rows' : List CommandRow) × Steps locked device (begin table) (record {
      rows = rows';
      one = marking (pending_rows device table) [];
      two = marking (pending_rows device table) [];
    })
steps-twice_example = steps-twice locked 9 device table
