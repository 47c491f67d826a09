-- ===== src/Storage/Sql/Alone.antt =====
-- `GetPendingCommands` of server/storage/sql_repository.go statement by statement, in one request:
-- the same as in one.
use iot_server.Base.{ℕ, zero, suc, ◌≡◌, refl, List, [], ◌∷◌, Bool, map, length}
use iot_server.Base.Text.{Bytes}
use iot_server.Storage.Sql.Commands.{
  CommandRow, pending_rows, mark_command, mark_all, ParamsJson, command_of_row,
  get_pending_commands,
}
use iot_server.Storage.Sql.Fetches.{Fetch, ready, marking, advance}

-- A request that runs alone has the table and the commands of `get_pending_commands`.
abbrev pub finish :
    (ℕ → Bytes → Bool) → ℕ → Bytes → Fetch → List CommandRow → ℕ → Fetch × List CommandRow
finish fails now id f rows zero = (f, rows)
finish fails now id f rows (suc n) =
    let (f', rows') = advance fails now id f rows in finish fails now id f' rows' n

finish-mark_all :
    (fails : ℕ → Bytes → Bool) (now : ℕ) (id : Bytes) (found left rows : List CommandRow)
    → finish fails now id (marking found left) rows (length left)
      ≡ (marking found [], mark_all (fails now) now left rows)
unfolding advance mark_all
finish-mark_all fails now id found [] rows = refl
finish-mark_all fails now id found (c ∷ left) rows =
    finish-mark_all fails now id found left (mark_command (fails now) now c.command_id rows)

pub finish-alone :
    (json : ParamsJson) (fails : ℕ → Bytes → Bool) (now : ℕ) (id : Bytes) (rows : List CommandRow)
    → let found = pending_rows id rows in
      (finish fails now id ready rows (suc (length found))
        ≡ (marking found [], (get_pending_commands json (fails now) now id rows).0))
      × ((get_pending_commands json (fails now) now id rows).1 ≡ map (command_of_row json) found)
unfolding advance get_pending_commands
finish-alone json fails now id rows =
    (finish-mark_all fails now id (pending_rows id rows) (pending_rows id rows) rows, refl)
