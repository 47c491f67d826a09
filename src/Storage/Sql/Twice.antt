-- ===== src/Storage/Sql/Twice.antt =====
-- Two requests of the same device at the same time, in server/storage/sql_repository.go: each
-- command that waits is delivered, to one of them or to both.
use mathlib.Core.List.{Memᴰ}
use iot_server.Base.{
  ℕ, ◌≡◌, refl, sym, ap, ◌∙◌, subst, Bool, true, false, ◌⊎◌, inl, inr, List, [], ◌∷◌, arith, All,
  Bool-cases,
}
use iot_server.Base.Text.{Bytes}
use iot_server.Storage.Sql.Commands.{CommandRow, has_command, waits_for, pending_rows, mark_command}
use iot_server.Storage.Sql.Delivery.{is_waiting, waits_for-is_waiting}
use iot_server.Storage.Sql.Fetches.{
  Fetch, ready, marking, advance, Both, Step, Steps, first, second,
}
use iot_server.Storage.Sql.Overlap.{
  finds, HasFailed, IsRight, advance-back, advance-finds, advance-kept, advance-IsRight,
  other-IsRight,
}

abbrev pub begin : List CommandRow → Both
begin rows = record { rows = rows; one = ready; two = ready }

-- What holds of two requests that began with a table.
record Invariant (fails : ℕ → Bytes → Bool) (id : Bytes) (rows_0 : List CommandRow) (b : Both)
    : Type 0 where
  old : (r : CommandRow) → Memᴰ r b.rows → waits_for id r ≡ true → Memᴰ r rows_0
  found :
      (r : CommandRow)
      → Memᴰ r rows_0
      → waits_for id r ≡ true
      → Memᴰ r b.rows ⊎ (finds r.command_id b.one ≡ true) ⊎ (finds r.command_id b.two ≡ true)
  right_one : IsRight fails id rows_0 b.rows b.one
  right_two : IsRight fails id rows_0 b.rows b.two

module _ (fails : ℕ → Bytes → Bool) (id : Bytes) (rows_0 : List CommandRow) where
  Step-Invariant :
      (b c : Both) → Step fails id b c → Invariant fails id rows_0 b → Invariant fails id rows_0 c
  Step-Invariant b c (first now _) h = record {
    old = λ r m waits. h.old r (advance-back fails id rows_0 now b.one b.rows r m waits) waits;
    found = λ r m waits. elim (h.found r m waits) [
      | inl there ↦ elim (advance-kept fails id rows_0 now b.one b.rows r h.right_one there) [
        | inl still ↦ inl still
        | inr by_one ↦ inr (inl by_one)
      ]
      | inr (inl by_one) ↦
          inr (inl (advance-finds fails id rows_0 now b.one b.rows r.command_id by_one))
      | inr (inr by_two) ↦ inr (inr by_two)
    ];
    right_one = advance-IsRight fails id rows_0 now b.one b.rows h.old h.right_one;
    right_two =
        other-IsRight fails id rows_0 b.two b.rows (advance fails now id b.one b.rows).1
          (advance-back fails id rows_0 now b.one b.rows) h.right_two;
  }
  Step-Invariant b c (second now _) h = record {
    old = λ r m waits. h.old r (advance-back fails id rows_0 now b.two b.rows r m waits) waits;
    found = λ r m waits. elim (h.found r m waits) [
      | inl there ↦ elim (advance-kept fails id rows_0 now b.two b.rows r h.right_two there) [
        | inl still ↦ inl still
        | inr by_two ↦ inr (inr by_two)
      ]
      | inr (inl by_one) ↦ inr (inl by_one)
      | inr (inr by_two) ↦
          inr (inr (advance-finds fails id rows_0 now b.two b.rows r.command_id by_two))
    ];
    right_one =
        other-IsRight fails id rows_0 b.one b.rows (advance fails now id b.two b.rows).1
          (advance-back fails id rows_0 now b.two b.rows) h.right_one;
    right_two = advance-IsRight fails id rows_0 now b.two b.rows h.old h.right_two;
  }

  begin-Invariant : Invariant fails id rows_0 (begin rows_0)
  begin-Invariant = record {
    old = λ r m waits. m;
    found = λ r m waits. inl m;
    right_one = tt;
    right_two = tt;
  }

  steps-Invariant :
      (b c : Both) → Steps fails id b c → Invariant fails id rows_0 b → Invariant fails id rows_0 c
  steps-Invariant b c Steps.here h = h
  steps-Invariant b c (Steps.then {b = a} before last) h =
      Step-Invariant a c last (steps-Invariant b a before h)

All-of : {A : Type 0} (P : A → Type 0) (xs : List A) → ((x : A) → Memᴰ x xs → P x) → All P xs
All-of P [] h = tt
All-of P (x ∷ xs) h = (h x (Memᴰ.head refl), All-of P xs (λ y m. h y (Memᴰ.tail m)))

-- A row of the beginning was delivered, if it was pending for the device.
abbrev pub IsDelivered : Bytes → List CommandRow → List CommandRow → CommandRow → Type 0
IsDelivered id found_1 found_2 r =
    (is_waiting id r ≡ false)
    ⊎ (has_command r.command_id found_1 ≡ true)
    ⊎ (has_command r.command_id found_2 ≡ true)

abbrev pub HasWaited : Bytes → List CommandRow → CommandRow → Type 0
HasWaited id rows r = Memᴰ r rows × (is_waiting id r ≡ true)

-- A row of the end is pending for the device only if both requests delivered it and an UPDATE of it
-- failed.
abbrev pub IsDone :
    (ℕ → Bytes → Bool) → Bytes → List CommandRow → List CommandRow → CommandRow → Type 0
IsDone fails id found_1 found_2 r =
    (is_waiting id r ≡ false)
    ⊎ (HasFailed fails r.command_id
        × (has_command r.command_id found_1 ≡ true)
        × (has_command r.command_id found_2 ≡ true))

-- Two requests for the commands of a device that have ended, their statements in any order and any
-- of their UPDATEs failing: every command that was pending for the device was delivered to one of
-- them at least; none is pending any more but those of which an UPDATE failed, which both
-- delivered; and what was delivered had been pending for the device.
pub steps-IsDelivered :
    (fails : ℕ → Bytes → Bool) (id : Bytes) (rows found_1 found_2 : List CommandRow) (b : Both)
    → Steps fails id (begin rows) b
    → b.one ≡ marking found_1 []
    → b.two ≡ marking found_2 []
    → All (IsDelivered id found_1 found_2) rows
      × All (IsDone fails id found_1 found_2) b.rows
      × All (HasWaited id rows) found_1
      × All (HasWaited id rows) found_2
unfolding has_command
steps-IsDelivered fails id rows found_1 found_2 b steps ended_1 ended_2 =
    let h = steps-Invariant fails id rows (begin rows) b steps (begin-Invariant fails id rows) in
    let right_1 : IsRight fails id rows b.rows (marking found_1 []) =
      subst (IsRight fails id rows b.rows) ended_1 h.right_one in
    let right_2 : IsRight fails id rows b.rows (marking found_2 []) =
      subst (IsRight fails id rows b.rows) ended_2 h.right_two in
    let left_out : (r : CommandRow)
        → Memᴰ r b.rows
        → (is_waiting id r ≡ false) ⊎ (waits_for id r ≡ true) =
      λ r m. elim (Bool-cases (waits_for id r)) [
        | inl waits ↦ inr waits
        | inr waits_not ↦ inl (sym (waits_for-is_waiting id r) ∙ waits_not)
      ] in
    (
      All-of (IsDelivered id found_1 found_2) rows (λ r m. elim (Bool-cases (waits_for id r)) [
        | inr waits_not ↦ inl (sym (waits_for-is_waiting id r) ∙ waits_not)
        | inl waits ↦ elim (h.found r m waits) [
          | inl there ↦ inr (inl (none_left found_1 r (right_1.0 r there waits)).1)
          | inr (inl by_one) ↦ inr (inl (ap (finds r.command_id) (sym ended_1) ∙ by_one))
          | inr (inr by_two) ↦ inr (inr (ap (finds r.command_id) (sym ended_2) ∙ by_two))
        ]
      ]),
      All-of (IsDone fails id found_1 found_2) b.rows (λ r m. elim (left_out r m) [
        | inl not_waiting ↦ inl not_waiting
        | inr waits ↦
            let (failed, by_one) = none_left found_1 r (right_1.0 r m waits) in
            inr (failed, by_one, (none_left found_2 r (right_2.0 r m waits)).1)
      ]),
      All-of (HasWaited id rows) found_1 (λ r m. waited r (right_1.2 r m)),
      All-of (HasWaited id rows) found_2 (λ r m. waited r (right_2.2 r m)),
    )
  where
    none_left :
        (found : List CommandRow) (r : CommandRow)
        → (has_command r.command_id [] ≡ true)
          ⊎ (HasFailed fails r.command_id × (has_command r.command_id found ≡ true))
        → HasFailed fails r.command_id × (has_command r.command_id found ≡ true)
    none_left found r (inl named) = absurd (ground (arith, named))
    none_left found r (inr failed) = failed

    waited : (r : CommandRow) → Memᴰ r rows × (waits_for id r ≡ true) → HasWaited id rows r
    waited r (m, waits) = (m, sym (waits_for-is_waiting id r) ∙ waits)

-- A request that marks the rest of its rows.
first_marks :
    (fails : ℕ → Bytes → Bool) (now : ℕ) (id : Bytes) (a : Both) (rows found left : List CommandRow)
    (two : Fetch)
    → Steps fails id a (record { rows = rows; one = marking found left; two = two })
    → (rows' : List CommandRow) × Steps fails id a
        (record { rows = rows'; one = marking found []; two = two })
unfolding advance
first_marks fails now id a rows found [] two steps = (rows, steps)
first_marks fails now id a rows found (c ∷ left) two steps =
    first_marks fails now id a (mark_command (fails now) now c.command_id rows) found left two (
      Steps.then steps
        (first now (record { rows = rows; one = marking found (c ∷ left); two = two })))

second_marks :
    (fails : ℕ → Bytes → Bool) (now : ℕ) (id : Bytes) (a : Both) (rows found left : List CommandRow)
    (one : Fetch)
    → Steps fails id a (record { rows = rows; one = one; two = marking found left })
    → (rows' : List CommandRow) × Steps fails id a
        (record { rows = rows'; one = one; two = marking found [] })
unfolding advance
second_marks fails now id a rows found [] one steps = (rows, steps)
second_marks fails now id a rows found (c ∷ left) one steps =
    second_marks fails now id a (mark_command (fails now) now c.command_id rows) found left one (
      Steps.then steps
        (second now (record { rows = rows; one = one; two = marking found (c ∷ left) })))

-- Whatever the table, the statements of two requests for the commands of a device have an order in
-- which each of the two ends with all commands that waited for the device.
pub steps-twice :
    (fails : ℕ → Bytes → Bool) (now : ℕ) (id : Bytes) (rows : List CommandRow)
    → (rows' : List CommandRow) × Steps fails id (begin rows) (record {
      rows = rows';
      one = marking (pending_rows id rows) [];
      two = marking (pending_rows id rows) [];
    })
unfolding advance
steps-twice fails now id rows =
    let found = pending_rows id rows in
    let one_found : Both = record { rows = rows; one = marking found found; two = ready } in
    let selected : Steps fails id (begin rows) one_found =
      Steps.then Steps.here (first now (begin rows)) in
    let both : Steps fails id (begin rows)
        (record { rows = rows; one = marking found found; two = marking found found }) =
      Steps.then selected (second now one_found) in
    let (rows_1, marked) =
      first_marks fails now id (begin rows) rows found found (marking found found) both in
    second_marks fails now id (begin rows) rows_1 found found (marking found []) marked
