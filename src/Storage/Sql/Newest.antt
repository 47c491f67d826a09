-- ===== src/Storage/Sql/Newest.antt =====
-- In which order `GetTelemetryHistory` of server/storage/sql_repository.go gives the messages.
use iot_server.Base.{
  ◌≡◌, refl, Bool, true, false, Option, none, some, List, [], ◌∷◌, arith, All, subst, if◌then◌else◌,
}
use iot_server.Base.Text.{Bytes, bytes_eq}
use iot_server.Base.Int.{ℤ, ltb_ℤ}
use iot_server.Models.{TelemetryPayload}
use iot_server.Storage.Sql.Tables.{TelemetryRow}
use iot_server.Storage.Sql.Queries.{insert_message, messages_of, scan_message, scan_messages}

-- The latest time first.
abbrev pub IsNewestFirst : List TelemetryPayload → Type 0
IsNewestFirst [] = Unit
IsNewestFirst (t ∷ ts) =
    All (λ u. ltb_ℤ t.header.timestamp u.header.timestamp ≡ false) ts × IsNewestFirst ts

abbrev pub IsNewestRowFirst : List TelemetryRow → Type 0
IsNewestRowFirst [] = Unit
IsNewestRowFirst (r ∷ rs) =
    All (λ s. ltb_ℤ r.timestamp s.timestamp ≡ false) rs × IsNewestRowFirst rs

module _ {ℓ} (P : TelemetryRow → Type ℓ) where
  All-insert_message :
      (r : TelemetryRow) (rs : List TelemetryRow) → P r → All P rs → All P (insert_message r rs)
  unfolding insert_message
  All-insert_message r [] h hs = (h, tt)
  All-insert_message r (s ∷ rs) h hs =
      go (ltb_ℤ r.timestamp s.timestamp) (insert_message r rs) (All-insert_message r rs h hs.1)
    where
      go :
          (b : Bool) (later : List TelemetryRow)
          → All P later
          → All P (if b then s ∷ later else r ∷ s ∷ rs)
      go true later a = (hs.0, a)
      go false later a = (h, hs)

not-older_trans : (a b c : ℤ) → ltb_ℤ a b ≡ false → ltb_ℤ b c ≡ false → ltb_ℤ a c ≡ false
not-older_trans a b c p q = ground arith

not-newer : (a b : ℤ) → ltb_ℤ a b ≡ true → ltb_ℤ b a ≡ false
not-newer a b p = ground arith

older_than-All :
    (a b : ℤ) (rs : List TelemetryRow)
    → ltb_ℤ a b ≡ false
    → All (λ s. ltb_ℤ b s.timestamp ≡ false) rs
    → All (λ s. ltb_ℤ a s.timestamp ≡ false) rs
older_than-All a b [] p h = tt
older_than-All a b (s ∷ rs) p h =
    (not-older_trans a b s.timestamp p h.0, older_than-All a b rs p h.1)

insert_message-IsNewestRowFirst :
    (r : TelemetryRow) (rs : List TelemetryRow)
    → IsNewestRowFirst rs
    → IsNewestRowFirst (insert_message r rs)
unfolding insert_message
insert_message-IsNewestRowFirst r [] h = (tt, tt)
insert_message-IsNewestRowFirst r (s ∷ rs) h =
    go (ltb_ℤ r.timestamp s.timestamp) refl (insert_message r rs)
      (insert_message-IsNewestRowFirst r rs h.1)
      (λ newer. All-insert_message (λ u. ltb_ℤ s.timestamp u.timestamp ≡ false) r rs newer h.0)
  where
    go :
        (b : Bool)
        → ltb_ℤ r.timestamp s.timestamp ≡ b
        → (later : List TelemetryRow) → IsNewestRowFirst later
        → (ltb_ℤ s.timestamp r.timestamp ≡ false
            → All (λ u. ltb_ℤ s.timestamp u.timestamp ≡ false) later)
        → IsNewestRowFirst (if b then s ∷ later else r ∷ s ∷ rs)
    go true e later sorted above = (above (not-newer r.timestamp s.timestamp e), sorted)
    go false e later sorted above = ((e, older_than-All r.timestamp s.timestamp rs e h.0), h)

pub messages_of-IsNewestRowFirst :
    (k : Bytes) (rs : List TelemetryRow) → IsNewestRowFirst (messages_of k rs)
unfolding messages_of
messages_of-IsNewestRowFirst k [] = tt
messages_of-IsNewestRowFirst k (r ∷ rs) =
    go (bytes_eq r.device_id k) (messages_of k rs) (messages_of-IsNewestRowFirst k rs)
  where
    go :
        (b : Bool) (xs : List TelemetryRow)
        → IsNewestRowFirst xs
        → IsNewestRowFirst (if b then insert_message r xs else xs)
    go true xs h = insert_message-IsNewestRowFirst r xs h
    go false xs h = h

scanned_timestamp :
    (k : Bytes) (r : TelemetryRow) (t : TelemetryPayload)
    → scan_message k r ≡ some t
    → r.timestamp ≡ t.header.timestamp
unfolding scan_message
scanned_timestamp k r t h = ground arith

scan_messages-All :
    (k : Bytes) (a : ℤ) (rs : List TelemetryRow)
    → All (λ s. ltb_ℤ a s.timestamp ≡ false) rs
    → All (λ u. ltb_ℤ a u.header.timestamp ≡ false) (scan_messages k rs)
unfolding scan_messages scan_message
scan_messages-All k a [] h = tt
scan_messages-All k a (r ∷ rs) h =
    go (scan_message k r) refl (scan_messages k rs) (scan_messages-All k a rs h.1)
  where
    go :
        (o : Option TelemetryPayload)
        → scan_message k r ≡ o
        → (ts : List TelemetryPayload) → All (λ u. ltb_ℤ a u.header.timestamp ≡ false) ts
        → All
            (λ u. ltb_ℤ a u.header.timestamp ≡ false)
            (elim o as (λ _. List TelemetryPayload) [ none ↦ ts | some t ↦ t ∷ ts ])
    go none e ts g = g
    go (some t) e ts g = (subst (λ z. ltb_ℤ a z ≡ false) (scanned_timestamp k r t e) h.0, g)

pub scan_messages-IsNewestFirst :
    (k : Bytes) (rs : List TelemetryRow) → IsNewestRowFirst rs → IsNewestFirst (scan_messages k rs)
unfolding scan_messages
scan_messages-IsNewestFirst k [] h = tt
scan_messages-IsNewestFirst k (r ∷ rs) h =
    go (scan_message k r) refl (scan_messages k rs) (scan_messages-IsNewestFirst k rs h.1)
      (scan_messages-All k r.timestamp rs h.0)
  where
    go :
        (o : Option TelemetryPayload)
        → scan_message k r ≡ o
        → (ts : List TelemetryPayload) → IsNewestFirst ts
        → All (λ u. ltb_ℤ r.timestamp u.header.timestamp ≡ false) ts
        → IsNewestFirst (elim o as (λ _. List TelemetryPayload) [ none ↦ ts | some t ↦ t ∷ ts ])
    go none e ts g above = g
    go (some t) e ts g above = (
      subst (λ z. All (λ u. ltb_ℤ z u.header.timestamp ≡ false) ts) (scanned_timestamp k r t e)
          above,
      g,
    )
