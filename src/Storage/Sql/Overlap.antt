-- ===== src/Storage/Sql/Overlap.antt =====
-- What two requests at the same time get from `GetPendingCommands` of
-- server/storage/sql_repository.go.
use mathlib.Core.List.{Memᴰ}
use iot_server.Base.{
  ℕ, ◌≡◌, refl, sym, ap, ◌∙◌, Bool, true, false, ◌⊎◌, inl, inr, some, List, [], ◌∷◌, map, arith,
  Bool-cases, leb, if◌then◌else◌,
}
use iot_server.Base.Text.{Bytes, bytes_eq, bytes_eq_refl, bytes_eq_iff}
use iot_server.Storage.Sql.Commands.{
  CommandRow, sent, has_command, waits_for, insert_row, pending_rows, mark_sent, mark_command,
}
use iot_server.Storage.Sql.Delivery.{has_command-insert_row}
use iot_server.Storage.Sql.Fetches.{Fetch, ready, marking, advance}

insert_row-from :
    (r c : CommandRow) (rs : List CommandRow) → Memᴰ r (insert_row c rs) → (r ≡ c) ⊎ Memᴰ r rs
unfolding insert_row
insert_row-from r c [] (Memᴰ.head e) = inl e
insert_row-from r c [] (Memᴰ.tail m) = inr m
insert_row-from r c (s ∷ rs) m = go (leb c.created_at s.created_at) m (insert_row-from r c rs)
  where
    later : (r ≡ c) ⊎ Memᴰ r rs → (r ≡ c) ⊎ Memᴰ r (s ∷ rs)
    later (inl e) = inl e
    later (inr more) = inr (Memᴰ.tail more)

    go :
        (b : Bool)
        → Memᴰ r (if b then c ∷ s ∷ rs else s ∷ insert_row c rs)
        → (Memᴰ r (insert_row c rs) → (r ≡ c) ⊎ Memᴰ r rs)
        → (r ≡ c) ⊎ Memᴰ r (s ∷ rs)
    go true (Memᴰ.head e) from = inl e
    go true (Memᴰ.tail there) from = inr there
    go false (Memᴰ.head e) from = inr (Memᴰ.head e)
    go false (Memᴰ.tail there) from = later (from there)

pub pending_rows-from :
    (id : Bytes) (r : CommandRow) (rows : List CommandRow)
    → Memᴰ r (pending_rows id rows)
    → Memᴰ r rows × (waits_for id r ≡ true)
unfolding pending_rows
pending_rows-from id r [] m = elim m [ ]
pending_rows-from id r (s ∷ rows) m = go (waits_for id s) refl m (pending_rows-from id r rows)
  where
    tailed : Memᴰ r rows × (waits_for id r ≡ true) → Memᴰ r (s ∷ rows) × (waits_for id r ≡ true)
    tailed (there, waits) = (Memᴰ.tail there, waits)

    go :
        (b : Bool)
        → waits_for id s ≡ b
        → Memᴰ r (if b then insert_row s (pending_rows id rows) else pending_rows id rows)
        → (Memᴰ r (pending_rows id rows) → Memᴰ r rows × (waits_for id r ≡ true))
        → Memᴰ r (s ∷ rows) × (waits_for id r ≡ true)
    go true is there from = elim (insert_row-from r s (pending_rows id rows) there) [
      | inl e ↦ (Memᴰ.head e, ap (waits_for id) e ∙ is)
      | inr more ↦ tailed (from more)
    ]
    go false is there from = tailed (from there)

has_command-pending_rows :
    (id : Bytes) (r : CommandRow) (rows : List CommandRow)
    → Memᴰ r rows
    → waits_for id r ≡ true
    → has_command r.command_id (pending_rows id rows) ≡ true
unfolding pending_rows has_command
has_command-pending_rows id r [] m waits = elim m [ ]
has_command-pending_rows id r (s ∷ rows) (Memᴰ.head e) waits =
    let waits_s : waits_for id s ≡ true = ap (waits_for id) (sym e) ∙ waits in
    let named : bytes_eq r.command_id s.command_id ≡ true =
      ap (λ z. bytes_eq r.command_id z.command_id) (sym e) ∙ bytes_eq_refl r.command_id in
    ground (arith, waits_s, named, has_command-insert_row r.command_id s (pending_rows id rows))
has_command-pending_rows id r (s ∷ rows) (Memᴰ.tail m) waits =
    let more = has_command-pending_rows id r rows m waits in
    ground (arith, more, has_command-insert_row r.command_id s (pending_rows id rows))

mark_sent-back :
    (now : ℕ) (id k : Bytes) (r : CommandRow) (rows : List CommandRow)
    → Memᴰ r (map (mark_sent now k) rows)
    → waits_for id r ≡ true
    → Memᴰ r rows × (bytes_eq r.command_id k ≡ false)
mark_sent-back now id k r [] m waits = elim m [ ]
mark_sent-back now id k r (s ∷ rows) (Memᴰ.head e) waits =
    elim (Bool-cases (bytes_eq s.command_id k)) [
      | inl same ↦
          let is_sent : mark_sent now k s ≡ record s { status = sent; sent_at = some now } =
            unfold mark_sent in ground (arith, same) in
          let not_waiting : waits_for id (record s { status = sent; sent_at = some now }) ≡ false =
            unfold waits_for in ground arith in
          absurd (ground (arith, waits, ap (waits_for id) (e ∙ is_sent), not_waiting))
      | inr other ↦
          let same : mark_sent now k s ≡ s = unfold mark_sent in ground (arith, other) in
          (Memᴰ.head (e ∙ same), ap (λ z. bytes_eq z.command_id k) (e ∙ same) ∙ other)
    ]
mark_sent-back now id k r (s ∷ rows) (Memᴰ.tail m) waits =
    let (there, other) = mark_sent-back now id k r rows m waits in (Memᴰ.tail there, other)

mark_sent-keeps :
    (now : ℕ) (k : Bytes) (r : CommandRow) (rows : List CommandRow)
    → Memᴰ r rows
    → bytes_eq r.command_id k ≡ false
    → Memᴰ r (map (mark_sent now k) rows)
mark_sent-keeps now k r [] m other = elim m [ ]
mark_sent-keeps now k r (s ∷ rows) (Memᴰ.head e) other =
    let same : r ≡ mark_sent now k s =
      e ∙ unfold mark_sent in ground (arith, ap (λ z. bytes_eq z.command_id k) (sym e) ∙ other) in
    Memᴰ.head same
mark_sent-keeps now k r (s ∷ rows) (Memᴰ.tail m) other =
    Memᴰ.tail (mark_sent-keeps now k r rows m other)

-- The same of an UPDATE that may fail.
mark_command-back :
    (fails : Bytes → Bool) (now : ℕ) (id k : Bytes) (r : CommandRow) (rows : List CommandRow)
    → Memᴰ r (mark_command fails now k rows)
    → waits_for id r ≡ true
    → Memᴰ r rows × ((bytes_eq r.command_id k ≡ false) ⊎ (fails k ≡ true))
unfolding mark_command
mark_command-back fails now id k r rows m waits = go (fails k) refl m
  where
    go :
        (b : Bool)
        → fails k ≡ b
        → Memᴰ r (if b then rows else map (mark_sent now k) rows)
        → Memᴰ r rows × ((bytes_eq r.command_id k ≡ false) ⊎ (fails k ≡ true))
    go true is there = (there, inr is)
    go false is there =
        let (before, other) = mark_sent-back now id k r rows there waits in (before, inl other)

mark_command-keeps :
    (fails : Bytes → Bool) (now : ℕ) (k : Bytes) (r : CommandRow) (rows : List CommandRow)
    → Memᴰ r rows
    → bytes_eq r.command_id k ≡ false
    → Memᴰ r (mark_command fails now k rows)
unfolding mark_command
mark_command-keeps fails now k r rows m other = go (fails k)
  where
    go : (b : Bool) → Memᴰ r (if b then rows else map (mark_sent now k) rows)
    go true = m
    go false = mark_sent-keeps now k r rows m other

-- Whether a request has found a command.
abbrev pub finds : Bytes → Fetch → Bool
finds k ready = false
finds k (marking found left) = has_command k found

-- An UPDATE of a command failed.
abbrev pub HasFailed : (ℕ → Bytes → Bool) → Bytes → Type 0
HasFailed fails k = (now : ℕ) × (fails now k ≡ true)

-- What is right of a request: no row waits but those that it has yet to mark and those that it
-- failed to mark, which it has found; and what it has found waited at the beginning.
abbrev pub IsRight : (ℕ → Bytes → Bool) → Bytes → List CommandRow → List CommandRow → Fetch → Type 0
IsRight fails id rows_0 rows ready = Unit
IsRight fails id rows_0 rows (marking found left) =
    ((r : CommandRow)
      → Memᴰ r rows
      → waits_for id r ≡ true
      → (has_command r.command_id left ≡ true)
        ⊎ (HasFailed fails r.command_id × (has_command r.command_id found ≡ true)))
    × ((k : Bytes) → has_command k left ≡ true → has_command k found ≡ true)
    × ((r : CommandRow) → Memᴰ r found → Memᴰ r rows_0 × (waits_for id r ≡ true))

module _ (fails : ℕ → Bytes → Bool) (id : Bytes) (rows_0 : List CommandRow) where
  -- A statement of a request: which rows may wait behind it, and what becomes of those that waited.
  pub advance-back :
      (now : ℕ) (f : Fetch) (rows : List CommandRow) (r : CommandRow)
      → Memᴰ r (advance fails now id f rows).1
      → waits_for id r ≡ true
      → Memᴰ r rows
  unfolding advance
  advance-back now ready rows r m waits = m
  advance-back now (marking found []) rows r m waits = m
  advance-back now (marking found (c ∷ left)) rows r m waits =
      (mark_command-back (fails now) now id c.command_id r rows m waits).0

  pub advance-finds :
      (now : ℕ) (f : Fetch) (rows : List CommandRow) (k : Bytes)
      → finds k f ≡ true
      → finds k (advance fails now id f rows).0 ≡ true
  unfolding advance
  advance-finds now ready rows k h = absurd (ground (arith, h))
  advance-finds now (marking found []) rows k h = h
  advance-finds now (marking found (c ∷ left)) rows k h = h

  pub advance-kept :
      (now : ℕ) (f : Fetch) (rows : List CommandRow) (r : CommandRow)
      → IsRight fails id rows_0 rows f
      → Memᴰ r rows
      → Memᴰ r (advance fails now id f rows).1
        ⊎ (finds r.command_id (advance fails now id f rows).0 ≡ true)
  unfolding advance
  advance-kept now ready rows r right m = inl m
  advance-kept now (marking found []) rows r right m = inl m
  advance-kept now (marking found (c ∷ left)) rows r (selected, within, from) m =
      elim (Bool-cases (bytes_eq r.command_id c.command_id)) [
        | inl same ↦ inr (within r.command_id (unfold has_command in ground (arith, same)))
        | inr other ↦ inl (mark_command-keeps (fails now) now c.command_id r rows m other)
      ]

  pub advance-IsRight :
      (now : ℕ) (f : Fetch) (rows : List CommandRow)
      → ((r : CommandRow) → Memᴰ r rows → waits_for id r ≡ true → Memᴰ r rows_0)
      → IsRight fails id rows_0 rows f
      → IsRight fails id rows_0 (advance fails now id f rows).1 (advance fails now id f rows).0
  unfolding advance
  advance-IsRight now ready rows old right = (
    λ r m waits. inl (has_command-pending_rows id r rows m waits),
    λ k h. h,
    λ r m. let (there, waits) = pending_rows-from id r rows m in (old r there waits, waits),
  )
  advance-IsRight now (marking found []) rows old right = right
  advance-IsRight now (marking found (c ∷ left)) rows old (selected, within, from) = (
    λ r m waits.
        let (there, why) = mark_command-back (fails now) now id c.command_id r rows m waits in
        elim (selected r there waits) [
          | inr failed ↦ inr failed
          | inl named ↦ elim (Bool-cases (bytes_eq r.command_id c.command_id)) [
            | inr other ↦ inl (unfold has_command in ground (arith, other, named))
            | inl same ↦ elim why [
              | inl other ↦ absurd (ground (arith, same, other))
              | inr failed ↦
                  let is = (bytes_eq_iff r.command_id c.command_id).0 same in
                  inr ((now, ap (fails now) is ∙ failed), within r.command_id named)
            ]
          ]
        ],
    λ k h. within k (unfold has_command in ground (arith, h)),
    from,
  )

  -- A statement of the other request.
  pub other-IsRight :
      (f : Fetch) (rows rows' : List CommandRow)
      → ((r : CommandRow) → Memᴰ r rows' → waits_for id r ≡ true → Memᴰ r rows)
      → IsRight fails id rows_0 rows f
      → IsRight fails id rows_0 rows' f
  other-IsRight ready rows rows' back right = tt
  other-IsRight (marking found left) rows rows' back (selected, within, from) =
      (λ r m waits. selected r (back r m waits) waits, within, from)
