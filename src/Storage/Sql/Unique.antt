-- ===== src/Storage/Sql/Unique.antt =====
-- That the command identifiers in the table of server/storage/sql_repository.go stay unique.
use iot_server.Base.{
  ℕ, Bool, ◌≡◌, refl, sym, ◌∙◌, false, ◌||◌, List, [], ◌∷◌, ◌++◌, map, arith, Bool-cases, inl, inr,
  subst,
}
use iot_server.Base.Text.{Bytes, bytes_eq}
use iot_server.Models.{DeviceCommand}
use iot_server.Storage.Sql.Commands.{
  CommandRow, has_command, ParamsJson, get_pending_commands, queue_command, ack_command, ack_row,
  new_row,
}
use iot_server.Storage.Sql.Delivery.{
  IsUnique, delivered, bytes_eq_ne, get_pending_commands-delivered,
}

map-has_command :
    (f : CommandRow → CommandRow)
    → ((r : CommandRow) → (f r).command_id ≡ r.command_id)
    → (k : Bytes) (rs : List CommandRow) → has_command k (map f rs) ≡ has_command k rs
unfolding has_command
map-has_command f keeps k [] = refl
map-has_command f keeps k (r ∷ rs) = ground (arith, keeps r, map-has_command f keeps k rs)

map-IsUnique :
    (f : CommandRow → CommandRow)
    → ((r : CommandRow) → (f r).command_id ≡ r.command_id)
    → (rs : List CommandRow) → IsUnique rs
    → IsUnique (map f rs)
map-IsUnique f keeps [] u = tt
map-IsUnique f keeps (r ∷ rs) u = (
  subst (λ k. has_command k (map f rs) ≡ false) (sym (keeps r))
      (map-has_command f keeps r.command_id rs ∙ u.0),
  map-IsUnique f keeps rs u.1,
)

append-has_command :
    (k : Bytes) (rs : List CommandRow) (c : CommandRow)
    → has_command k (rs ++ (c ∷ [])) ≡ (has_command k rs || bytes_eq k c.command_id)
unfolding has_command
append-has_command k [] c = ground arith
append-has_command k (r ∷ rs) c = ground (arith, append-has_command k rs c)

append-IsUnique :
    (rs : List CommandRow) (c : CommandRow)
    → has_command c.command_id rs ≡ false
    → IsUnique rs
    → IsUnique (rs ++ (c ∷ []))
unfolding has_command
append-IsUnique [] c h u = (refl, tt)
append-IsUnique (r ∷ rs) c h u = (
  ground (arith, append-has_command r.command_id rs c, bytes_eq_ne c.command_id r.command_id, u.0),
  append-IsUnique rs c (ground arith) u.1,
)

-- Every statement keeps the identifiers unique.
pub statements-IsUnique :
    (json : ParamsJson) (fails : Bytes → Bool) (now : ℕ) (id : Bytes) (cmd : DeviceCommand)
    (rs : List CommandRow)
    → IsUnique rs
    → IsUnique (queue_command json now id cmd rs).0
      × IsUnique (get_pending_commands json fails now id rs).0
      × IsUnique (ack_command now id cmd.command_id rs)
unfolding queue_command ack_command ack_row
statements-IsUnique json fails now id cmd rs u = (
  queued,
  subst (λ z. IsUnique z) (sym (get_pending_commands-delivered json fails now id rs u))
      (map-IsUnique (delivered fails now id) (λ r. ground arith) rs u),
  map-IsUnique (ack_row now id cmd.command_id) (λ r. ground arith) rs u,
)
  where
    queued : IsUnique (queue_command json now id cmd rs).0
    queued = elim (Bool-cases (has_command cmd.command_id rs)) [
      | inl e ↦ subst (λ z. IsUnique z) (ground (arith, e)) u
      | inr e ↦
          subst (λ z. IsUnique z) (ground (arith, e))
            (append-IsUnique rs (new_row json now id cmd) e u)
    ]
