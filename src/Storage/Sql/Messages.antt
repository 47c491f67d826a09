-- ===== src/Storage/Sql/Messages.antt =====
-- Which messages `GetTelemetryHistory` of server/storage/sql_repository.go reads.
use mathlib.Core.List.{Perm, filter_map}
use mathlib.Core.Option.{Option-elim}
use mathlib.Core.List.Perm
use iot_server.Base.{
  ℕ, ◌≡◌, refl, sym, ap, Bool, true, false, Option, none, some, List, [], ◌∷◌, map, arith, All,
  subst, if◌then◌else◌,
}
use iot_server.Base.Text.{Bytes, bytes_eq}
use iot_server.Base.Int.{ltb_ℤ}
use iot_server.Models.{TelemetryPayload}
use iot_server.Storage.Sql.Tables.{Engine, TelemetryRow, status_columns}
use iot_server.Storage.Sql.Queries.{insert_message, messages_of, scan_message, scan_messages}
use iot_server.Storage.Sql.Contents.{where_device, row_of_message}
use iot_server.Storage.Sql.Agrees.{IsKept, IsOf}

-- What the table keeps of a message.
abbrev pub as_stored : TelemetryPayload → TelemetryPayload
as_stored t = record t {
  metrics = record (t.metrics) { interval_sec = 0; custom_values = none };
  status = some (status_columns t.status);
}

abbrev pub device : TelemetryRow → Bytes
device r = r.device_id

insert_message-perm :
    (r : TelemetryRow) (rs : List TelemetryRow) → Perm (insert_message r rs) (r ∷ rs)
unfolding insert_message
insert_message-perm r [] = Perm.rfl
insert_message-perm r (s ∷ rs) =
    go (ltb_ℤ r.timestamp s.timestamp) (insert_message r rs) (insert_message-perm r rs)
  where
    go :
        (b : Bool) (later : List TelemetryRow)
        → Perm later (r ∷ rs)
        → Perm (if b then s ∷ later else r ∷ s ∷ rs) (r ∷ s ∷ rs)
    go true later p = Perm.trans (Perm.cons s p) (Perm.swap r s rs)
    go false later p = Perm.rfl

pub messages_of-perm :
    (k : Bytes) (rs : List TelemetryRow) → Perm (messages_of k rs) (where_device device k rs)
unfolding messages_of where_device
messages_of-perm k [] = Perm.rfl
messages_of-perm k (r ∷ rs) =
    go (bytes_eq r.device_id k) (messages_of k rs) (where_device device k rs)
      (messages_of-perm k rs)
  where
    go :
        (b : Bool) (xs ys : List TelemetryRow)
        → Perm xs ys
        → Perm (if b then insert_message r xs else xs) (if b then r ∷ ys else ys)
    go true xs ys p = Perm.trans (insert_message-perm r xs) (Perm.cons r p)
    go false xs ys p = p

scan_messages-eq-filter_map :
    (k : Bytes) (rs : List TelemetryRow) → scan_messages k rs ≡ filter_map (scan_message k) rs
unfolding scan_messages filter_map
scan_messages-eq-filter_map k [] = refl
scan_messages-eq-filter_map k (r ∷ rs) =
    go (scan_message k r) (scan_messages k rs) (filter_map (scan_message k) rs)
      (scan_messages-eq-filter_map k rs)
  where
    go :
        (o : Option TelemetryPayload) (xs ys : List TelemetryPayload)
        → xs ≡ ys
        → elim o as (λ _. List TelemetryPayload) [ none ↦ xs | some t ↦ t ∷ xs ]
          ≡ Option-elim o ys (λ t. t ∷ ys)
    go none xs ys e = e
    go (some t) xs ys e = ap (λ zs. t ∷ zs) e

pub scan_messages-perm :
    (k : Bytes) (xs ys : List TelemetryRow)
    → Perm xs ys
    → Perm (scan_messages k xs) (scan_messages k ys)
scan_messages-perm k xs ys p =
    subst (λ z. Perm z (scan_messages k ys)) (sym (scan_messages-eq-filter_map k xs))
      (subst (λ z. Perm (filter_map (scan_message k) xs) z) (sym (scan_messages-eq-filter_map k ys))
        (Perm.filter_map (scan_message k) p))

-- The rows of kept messages scan to these.
pub scan_messages-map :
    (e : Engine) (k : Bytes) (ms : List (ℕ × TelemetryPayload))
    → All (IsOf k) ms
    → All (IsKept e) ms
    → scan_messages k (map (row_of_message e) ms)
      ≡ map (λ (m : ℕ × TelemetryPayload). as_stored m.1) ms
unfolding scan_messages scan_message
scan_messages-map e k [] named kept = refl
scan_messages-map e k ((now, t) ∷ ms) named kept =
    ground (arith, named.0, kept.0, scan_messages-map e k ms named.1 kept.1)
