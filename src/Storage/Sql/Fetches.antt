-- ===== src/Storage/Sql/Fetches.antt =====
-- `GetPendingCommands` of server/storage/sql_repository.go statement by statement, in two requests
-- at the same time: its SELECT and each UPDATE are statements of their own, outside a transaction.
use iot_server.Base.{ℕ, Bool, List, [], ◌∷◌}
use iot_server.Base.Text.{Bytes}
use iot_server.Storage.Sql.Commands.{CommandRow, pending_rows, mark_command}

-- A request before its SELECT, and behind it: the rows that it found, and those of them that it
-- has yet to mark.
pub data Fetch : Type 0 where
  ready : Fetch
  marking : List CommandRow → List CommandRow → Fetch

-- The next statement of a request, where `fails` says at which times the UPDATE of a command fails,
-- of which the request takes no notice. One that has none left stays as it is.
unfoldable pub advance :
    (ℕ → Bytes → Bool) → ℕ → Bytes → Fetch → List CommandRow → Fetch × List CommandRow
advance fails now id ready rows = (marking (pending_rows id rows) (pending_rows id rows), rows)
advance fails now id (marking found []) rows = (marking found [], rows)
advance fails now id (marking found (c ∷ left)) rows =
    (marking found left, mark_command (fails now) now c.command_id rows)

-- The table and two requests.
pub record Both : Type 0 where
  pub rows : List CommandRow
  pub one : Fetch
  pub two : Fetch

-- Either request executes a statement, at any time. Both are for the same device.
pub data Step (fails : ℕ → Bytes → Bool) (id : Bytes) : Both → Both → Type 0 where
  first :
      (now : ℕ) (b : Both)
      → Step fails id b (
          let (f, rows) = advance fails now id b.one b.rows in
          record { rows = rows; one = f; two = b.two })
  second :
      (now : ℕ) (b : Both)
      → Step fails id b (
          let (f, rows) = advance fails now id b.two b.rows in
          record { rows = rows; one = b.one; two = f })

pub data Steps (fails : ℕ → Bytes → Bool) (id : Bytes) : Both → Both → Type 0 where
  here : {b : Both} → Steps fails id b b
  then : {a b c : Both} → Steps fails id a b → Step fails id b c → Steps fails id a c
