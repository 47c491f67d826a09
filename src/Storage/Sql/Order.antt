-- ===== src/Storage/Sql/Order.antt =====
-- In which order server/storage/sql_repository.go delivers commands.
use mathlib.Core.List.{map-append}
use iot_server.Base.{
  All-append, ℕ, Bool, ◌≡◌, refl, sym, ap, ◌∙◌, true, false, List, [], ◌∷◌, ◌++◌, map, arith,
  Bool-cases, inl, inr, if◌then◌else◌, subst, All, ◌≤◌,
}
use iot_server.Base.Text.{Bytes, bytes_eq, bytes_eq_refl}
use iot_server.Models.{DeviceCommand}
use iot_server.Storage.Sql.Commands.{
  CommandRow, has_command, waits_for, insert_row, pending_rows, ParamsJson, get_pending_commands,
  queue_command, new_row, command_of_row,
}

-- The rows stand in the order of their times.
abbrev pub IsOrdered : List CommandRow → Type 0
IsOrdered [] = Unit
IsOrdered (r ∷ rs) = All (λ s. r.created_at ≤ s.created_at) rs × IsOrdered rs

-- The rows that wait, in the order of the table.
unfoldable pub waiting_rows : Bytes → List CommandRow → List CommandRow
waiting_rows id [] = []
waiting_rows id (r ∷ rs) =
    let more = waiting_rows id rs in if waits_for id r then r ∷ more else more

waiting_rows-later :
    (id : Bytes) (t : ℕ) (rs : List CommandRow)
    → All (λ s. t ≤ s.created_at) rs
    → All (λ s. t ≤ s.created_at) (waiting_rows id rs)
unfolding waiting_rows
waiting_rows-later id t [] h = tt
waiting_rows-later id t (r ∷ rs) h = elim (Bool-cases (waits_for id r)) [
  | inl e ↦
      let kept : waiting_rows id (r ∷ rs) ≡ r ∷ waiting_rows id rs =
        unfold waiting_rows in ground (arith, e) in
      subst (λ z. All (λ s. t ≤ s.created_at) z) (sym kept) (h.0, waiting_rows-later id t rs h.1)
  | inr e ↦
      let left : waiting_rows id (r ∷ rs) ≡ waiting_rows id rs =
        unfold waiting_rows in ground (arith, e) in
      subst (λ z. All (λ s. t ≤ s.created_at) z) (sym left) (waiting_rows-later id t rs h.1)
]

insert_row-first :
    (r : CommandRow) (rs : List CommandRow)
    → All (λ s. r.created_at ≤ s.created_at) rs
    → insert_row r rs ≡ r ∷ rs
unfolding insert_row
insert_row-first r [] h = refl
insert_row-first r (s ∷ rs) h = ground (arith, h.0)

pending_rows-waiting_rows :
    (id : Bytes) (rs : List CommandRow) → IsOrdered rs → pending_rows id rs ≡ waiting_rows id rs
unfolding pending_rows waiting_rows
pending_rows-waiting_rows id [] h = refl
pending_rows-waiting_rows id (r ∷ rs) h =
    let same = pending_rows-waiting_rows id rs h.1 in
    let first =
      insert_row-first r (waiting_rows id rs) (waiting_rows-later id r.created_at rs h.0) in
    ground (arith, same, first)

IsOrdered-append :
    (rs : List CommandRow) (c : CommandRow)
    → All (λ s. s.created_at ≤ c.created_at) rs
    → IsOrdered rs
    → IsOrdered (rs ++ (c ∷ []))
IsOrdered-append [] c h o = (tt, tt)
IsOrdered-append (r ∷ rs) c h o = (
  All-append (λ s. r.created_at ≤ s.created_at) rs (c ∷ []) o.0 (h.0, tt),
  IsOrdered-append rs c h.1 o.1,
)

waiting_rows-append :
    (id : Bytes) (rs : List CommandRow) (c : CommandRow)
    → waits_for id c ≡ true
    → waiting_rows id (rs ++ (c ∷ [])) ≡ waiting_rows id rs ++ (c ∷ [])
unfolding waiting_rows
waiting_rows-append id [] c h = ground (arith, h)
waiting_rows-append id (r ∷ rs) c h = ground (arith, waiting_rows-append id rs c h)

-- Commands are delivered in the order in which they were queued: a new command comes behind all
-- that wait for the device, with its parameters. The rows stand in the order of their times, of
-- which none is later than that of the new command; the identifier is new; and the JSON of the
-- parameters is not empty and reads back to them.
pub get_pending_commands-queue_command :
    (json : ParamsJson) (fails : Bytes → Bool) (now later : ℕ) (id : Bytes) (cmd : DeviceCommand)
    (rs : List CommandRow)
    → IsOrdered rs
    → All (λ s. s.created_at ≤ now) rs
    → has_command cmd.command_id rs ≡ false
    → json.unmarshal (json.marshal cmd.params) ≡ cmd.params
    → bytes_eq (json.marshal cmd.params) [] ≡ false
    → (get_pending_commands json fails later id (queue_command json now id cmd rs).0).1
      ≡ map (command_of_row json) (waiting_rows id rs) ++ (cmd ∷ [])
unfolding queue_command get_pending_commands
get_pending_commands-queue_command json fails now later id cmd rs ordered before fresh back
      some_text =
    let c = new_row json now id cmd in
    let queued : (queue_command json now id cmd rs).0 ≡ rs ++ (c ∷ []) = ground (arith, fresh) in
    let waits : waits_for id c ≡ true = unfold waits_for in ground (arith, bytes_eq_refl id) in
    let rows : pending_rows id (rs ++ (c ∷ [])) ≡ waiting_rows id rs ++ (c ∷ []) =
      pending_rows-waiting_rows id (rs ++ (c ∷ [])) (IsOrdered-append rs c before ordered)
      ∙ waiting_rows-append id rs c waits in
    let same : command_of_row json c ≡ cmd = ground (arith, back, some_text) in
    ap (λ z. map (command_of_row json) (pending_rows id z)) queued
    ∙ ap (map (command_of_row json)) rows
    ∙ map-append (command_of_row json) (waiting_rows id rs) (c ∷ [])
    ∙ ap (λ z. map (command_of_row json) (waiting_rows id rs) ++ (z ∷ [])) same
