-- ===== src/Storage/Sql/Delivery.antt =====
-- How server/storage/sql_repository.go delivers commands.
use iot_server.Base.{
  ℕ, ◌≡◌, refl, sym, ap, ◌∙◌, true, false, not, Bool, ◌||◌, ◌&&◌, some, List, [], ◌∷◌, map, arith,
  Bool-cases, inl, inr, if◌then◌else◌, subst,
}
use iot_server.Base.Text.{Bytes, bytes_eq, bytes_eq_iff, bytes_eq_refl}
use iot_server.Storage.Sql.Commands.{
  CommandRow, sent, has_command, waits_for, insert_row, pending_rows, mark_sent, mark_command,
  mark_all, pending, ParamsJson, get_pending_commands,
}

-- The column `command_id` is UNIQUE.
abbrev pub IsUnique : List CommandRow → Type 0
IsUnique [] = Unit
IsUnique (r ∷ rs) = (has_command r.command_id rs ≡ false) × IsUnique rs

-- The row once it is sent.
abbrev as_sent : ℕ → CommandRow → CommandRow
as_sent now r = record r { status = sent; sent_at = some now }

-- A command of the device that is pending.
abbrev pub is_waiting : Bytes → CommandRow → Bool
is_waiting device_id r =
    bytes_eq r.device_id device_id && elim r.status [ pending ↦ true | _ ↦ false ]

pub waits_for-is_waiting :
    (device_id : Bytes) (r : CommandRow) → waits_for device_id r ≡ is_waiting device_id r
unfolding waits_for
waits_for-is_waiting device_id r = ground arith

-- The rows that `GetPendingCommands` is meant to leave.
abbrev pub delivered : (Bytes → Bool) → ℕ → Bytes → CommandRow → CommandRow
delivered fails now device_id r =
    if is_waiting device_id r && not (fails r.command_id) then as_sent now r else r

pub has_command-insert_row :
    (k : Bytes) (r : CommandRow) (rs : List CommandRow)
    → has_command k (insert_row r rs) ≡ (bytes_eq k r.command_id || has_command k rs)
unfolding has_command insert_row
has_command-insert_row k r [] = refl
has_command-insert_row k r (s ∷ rs) = ground (arith, has_command-insert_row k r rs)

map_same :
    (f : CommandRow → CommandRow)
    → ((r : CommandRow) → f r ≡ r)
    → (rs : List CommandRow) → map f rs ≡ rs
map_same f same [] = refl
map_same f same (r ∷ rs) = ap (λ z. z ∷ map f rs) (same r) ∙ ap (λ zs. r ∷ zs) (map_same f same rs)

map_twice :
    (f g h : CommandRow → CommandRow)
    → ((r : CommandRow) → f (g r) ≡ h r)
    → (rs : List CommandRow) → map f (map g rs) ≡ map h rs
map_twice f g h same [] = refl
map_twice f g h same (r ∷ rs) =
    ap (λ z. z ∷ map f (map g rs)) (same r) ∙ ap (λ zs. h r ∷ zs) (map_twice f g h same rs)

-- What the loop does to a row.
abbrev marked : (Bytes → Bool) → ℕ → List CommandRow → CommandRow → CommandRow
marked fails now cs r =
    if has_command r.command_id cs && not (fails r.command_id) then as_sent now r else r

-- What one UPDATE does to a row.
abbrev mark_one : (Bytes → Bool) → ℕ → Bytes → CommandRow → CommandRow
mark_one fails now k r = if fails k then r else mark_sent now k r

mark_command-mark_one :
    (fails : Bytes → Bool) (now : ℕ) (k : Bytes) (rows : List CommandRow)
    → mark_command fails now k rows ≡ map (mark_one fails now k) rows
unfolding mark_command
mark_command-mark_one fails now k rows = go (fails k)
  where
    go :
        (b : Bool)
        → (if b then rows else map (mark_sent now k) rows)
          ≡ map (λ (r : CommandRow). if b then r else mark_sent now k r) rows
    go true = sym (map_same _ (λ r. refl) rows)
    go false = refl

marked-mark_one :
    (fails : Bytes → Bool) (now : ℕ) (c : CommandRow) (cs : List CommandRow) (r : CommandRow)
    → marked fails now cs (mark_one fails now c.command_id r) ≡ marked fails now (c ∷ cs) r
unfolding mark_sent has_command
marked-mark_one fails now c cs r = elim (Bool-cases (bytes_eq r.command_id c.command_id)) [
  | inl e ↦ ground (arith, e, ap fails ((bytes_eq_iff r.command_id c.command_id).0 e))
  | inr e ↦ ground (arith, e)
]

mark_all-marked :
    (fails : Bytes → Bool) (now : ℕ) (cs rows : List CommandRow)
    → mark_all fails now cs rows ≡ map (marked fails now cs) rows
unfolding mark_all
mark_all-marked fails now [] rows = unfold has_command in sym (map_same _ (λ r. refl) rows)
mark_all-marked fails now (c ∷ cs) rows =
    mark_all-marked fails now cs (mark_command fails now c.command_id rows)
    ∙ ap (map (marked fails now cs)) (mark_command-mark_one fails now c.command_id rows)
    ∙ map_twice (marked fails now cs) (mark_one fails now c.command_id) (marked fails now (c ∷ cs))
        (marked-mark_one fails now c cs) rows

has_command-pending_rows :
    (id k : Bytes) (rs : List CommandRow)
    → has_command k rs ≡ false
    → has_command k (pending_rows id rs) ≡ false
unfolding has_command pending_rows
has_command-pending_rows id k [] h = refl
has_command-pending_rows id k (r ∷ rs) h =
    ground
      (arith, has_command-pending_rows id k rs, has_command-insert_row k r (pending_rows id rs))

pub bytes_eq_ne : (xs ys : Bytes) → bytes_eq xs ys ≡ false → bytes_eq ys xs ≡ false
bytes_eq_ne xs ys h = elim (Bool-cases (bytes_eq ys xs)) [
  | inr e ↦ e
  | inl e ↦ absurd (let same = (bytes_eq_iff xs ys).1 (sym ((bytes_eq_iff ys xs).0 e)) in cc)
]

-- A row whose identifier the others do not have does not change what the loop does to them.
marked-insert_row :
    (fails : Bytes → Bool) (now : ℕ) (r : CommandRow) (cs rs : List CommandRow)
    → has_command r.command_id rs ≡ false
    → map (marked fails now (insert_row r cs)) rs ≡ map (marked fails now cs) rs
unfolding has_command
marked-insert_row fails now r cs [] h = refl
marked-insert_row fails now r cs (s ∷ rs) h =
    let apart : bytes_eq r.command_id s.command_id ≡ false = ground arith in
    let here : marked fails now (insert_row r cs) s ≡ marked fails now cs s = ground (
      arith,
      has_command-insert_row s.command_id r cs,
      bytes_eq_ne r.command_id s.command_id apart,
    ) in
    let more : has_command r.command_id rs ≡ false = ground arith in
    ap (λ z. z ∷ map (marked fails now (insert_row r cs)) rs) here
    ∙ ap (λ zs. marked fails now cs s ∷ zs) (marked-insert_row fails now r cs rs more)

-- In a table with unique identifiers, the identifiers of the waiting rows name these rows only.
marked-delivered :
    (fails : Bytes → Bool) (now : ℕ) (id : Bytes) (rs : List CommandRow)
    → IsUnique rs
    → map (marked fails now (pending_rows id rs)) rs ≡ map (delivered fails now id) rs
unfolding pending_rows
marked-delivered fails now id [] u = refl
marked-delivered fails now id (r ∷ rs) u =
    let more = pending_rows id rs in
    elim (Bool-cases (waits_for id r)) [
      | inl e ↦
          let here : marked fails now (insert_row r more) r ≡ delivered fails now id r = ground (
            arith,
            e,
            waits_for-is_waiting id r,
            has_command-insert_row r.command_id r more,
            bytes_eq_refl r.command_id,
          ) in
          let pend : pending_rows id (r ∷ rs) ≡ insert_row r more = ground (arith, e) in
          ap (λ cs. map (marked fails now cs) (r ∷ rs)) pend
          ∙ ap (λ z. z ∷ map (marked fails now (insert_row r more)) rs) here
          ∙ ap (λ zs. delivered fails now id r ∷ zs)
              (marked-insert_row fails now r more rs u.0 ∙ marked-delivered fails now id rs u.1)
      | inr e ↦
          let here : marked fails now more r ≡ delivered fails now id r = ground (
            arith,
            e,
            waits_for-is_waiting id r,
            has_command-pending_rows id r.command_id rs u.0,
          ) in
          let pend : pending_rows id (r ∷ rs) ≡ more = ground (arith, e) in
          ap (λ cs. map (marked fails now cs) (r ∷ rs)) pend
          ∙ ap (λ z. z ∷ map (marked fails now more) rs) here
          ∙ ap (λ zs. delivered fails now id r ∷ zs) (marked-delivered fails now id rs u.1)
    ]

-- In a table with unique command identifiers, asking for the commands of a device marks as sent
-- exactly the rows that are pending for this device and whose UPDATE does not fail, and changes no
-- other row.
pub get_pending_commands-delivered :
    (json : ParamsJson) (fails : Bytes → Bool) (now : ℕ) (id : Bytes) (rs : List CommandRow)
    → IsUnique rs
    → (get_pending_commands json fails now id rs).0 ≡ map (delivered fails now id) rs
unfolding get_pending_commands
get_pending_commands-delivered json fails now id rs u =
    mark_all-marked fails now (pending_rows id rs) rs ∙ marked-delivered fails now id rs u

delivered-waits :
    (fails : Bytes → Bool) (now : ℕ) (id : Bytes) (r : CommandRow)
    → ((k : Bytes) → fails k ≡ false)
    → waits_for id (delivered fails now id r) ≡ false
unfolding waits_for
delivered-waits fails now id r works = elim (Bool-cases (is_waiting id r)) [
  | inl e ↦ ground (arith, e, works r.command_id)
  | inr e ↦ ground (arith, e, works r.command_id, waits_for-is_waiting id r)
]

-- Nothing waits in what was delivered.
pending_rows-delivered :
    (fails : Bytes → Bool) (now : ℕ) (id : Bytes) (rs : List CommandRow)
    → ((k : Bytes) → fails k ≡ false)
    → pending_rows id (map (delivered fails now id) rs) ≡ []
unfolding pending_rows
pending_rows-delivered fails now id [] works = refl
pending_rows-delivered fails now id (r ∷ rs) works =
    ground
      (arith, delivered-waits fails now id r works, pending_rows-delivered fails now id rs works)

-- In a table with unique command identifiers, a request for the waiting commands of a device, at
-- any time after another has ended of which no UPDATE failed, finds none of what that one
-- delivered: it finds none at all and leaves the table as it is.
pub get_pending_commands-once :
    (json : ParamsJson) (fails fails' : Bytes → Bool) (now later : ℕ) (id : Bytes)
    (rs : List CommandRow)
    → IsUnique rs
    → ((k : Bytes) → fails k ≡ false)
    → get_pending_commands json fails' later id (get_pending_commands json fails now id rs).0
      ≡ ((get_pending_commands json fails now id rs).0, [])
get_pending_commands-once json fails fails' now later id rs u works =
    let rest = map (delivered fails now id) rs in
    let same = get_pending_commands-delivered json fails now id rs u in
    let none_waits = pending_rows-delivered fails now id rs works in
    let again : get_pending_commands json fails' later id rest ≡ (rest, []) =
      unfold get_pending_commands in rw none_waits (unfold mark_all in refl) in
    subst (λ z. get_pending_commands json fails' later id z ≡ (z, [])) (sym same) again
