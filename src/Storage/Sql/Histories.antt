-- ===== src/Storage/Sql/Histories.antt =====
-- `GetTelemetryHistory` of server/storage/sql_repository.go beside that of
-- server/storage/repository.go.
use mathlib.Core.List.{map-map, Perm}
use iot_server.Base.{
  ℕ, zero, suc, ◌-◌, ◌≤◌, ◌<◌, ◌≡◌, refl, sym, ap, ◌∙◌, List, [], ◌∷◌, map, length, length-map,
  take, drop, arith, All, subst,
}
use iot_server.Base.Text.{Bytes}
use iot_server.Base.Int.{pos}
use iot_server.Models.{TelemetryPayload}
use iot_server.Storage.Interface.{ok}
use iot_server.Storage.Memory.{get_slice, get_telemetry_history}
use iot_server.Storage.Memory.History.{Call, saved, run-Holds}
use iot_server.Storage.Memory.History
use iot_server.Storage.Memory.Reports.{history_slice}
use iot_server.Storage.Sql.Tables.{Engine, TelemetryRow}
use iot_server.Storage.Sql.Queries.{insert_message, messages_of, scan_messages}
use iot_server.Storage.Sql.Repository.{no_faults, history_limit}
use iot_server.Storage.Sql.Repository
use iot_server.Storage.Sql.Contents.{where_device, row_of_message, sql_run-Holds}
use iot_server.Storage.Sql.Contents
use iot_server.Storage.Sql.Agrees.{IsKept, saved-IsOf}
use iot_server.Storage.Sql.Messages.{
  as_stored, device, messages_of-perm, scan_messages-perm, scan_messages-map,
}
use iot_server.Storage.Sql.Newest.{
  IsNewestFirst, messages_of-IsNewestRowFirst, scan_messages-IsNewestFirst,
}

take_all {ℓ} : {A : Type ℓ} (n : ℕ) (xs : List A) → length xs ≤ n → take n xs ≡ xs
take_all zero [] h = refl
take_all (suc n) [] h = refl
take_all (suc n) (x ∷ xs) h = ap (λ ys. x ∷ ys) (take_all n xs (omega arith))
take_all zero (x ∷ xs) h = absurd (omega arith)

insert_message-length :
    (r : TelemetryRow) (rs : List TelemetryRow) → length (insert_message r rs) ≡ suc (length rs)
unfolding insert_message
insert_message-length r [] = refl
insert_message-length r (s ∷ rs) = ground (arith, insert_message-length r rs)

messages_of-length :
    (k : Bytes) (rs : List TelemetryRow)
    → length (messages_of k rs) ≡ length (where_device device k rs)
unfolding messages_of where_device
messages_of-length k [] = refl
messages_of-length k (r ∷ rs) =
    ground (arith, messages_of-length k rs, insert_message-length r (messages_of k rs))

-- The two repositories agree on the history of a device of at most `limit` messages, after any
-- history of writing calls and without a fault of the database: both return all messages, the
-- database without their interval and custom values, with a status for each, and latest time first.
-- The database keeps the floats of the messages.
pub get_telemetry_history-agrees :
    (e : Engine) (cs : List Call) (k : Bytes) (limit : ℕ)
    → 0 < limit
    → length (saved k cs) ≤ limit
    → All (IsKept e) (saved k cs)
    → (ms ts : List TelemetryPayload) × (get_telemetry_history k (pos limit) (History.run cs)
        ≡ ok ms)
      × (Repository.get_telemetry_history e no_faults k (pos limit) (Contents.run e cs) ≡ ok ts)
      × Perm ts (map as_stored ms)
      × IsNewestFirst ts
unfolding Repository.get_telemetry_history
get_telemetry_history-agrees e cs k limit positive few kept =
    let here = (run-Holds cs k).telemetries in
    let there = (sql_run-Holds e cs k).telemetries in
    let ms = map (λ (m : ℕ × TelemetryPayload). m.1) (saved k cs) in
    let all = messages_of k (Contents.run e cs).telemetries in
    let none_left : length (get_slice k (History.run cs).telemetries) - limit ≡ 0 =
      omega (
        arith,
        ap length here,
        length-map {0, 0} (saved k cs) (λ (m : ℕ × TelemetryPayload). m.1),
      ) in
    let fits : length all ≤ limit = omega (
      arith,
      messages_of-length k (Contents.run e cs).telemetries,
      ap length there,
      length-map {0, 0} (saved k cs) (row_of_message e),
    ) in
    let stored : scan_messages k (where_device device k (Contents.run e cs).telemetries)
        ≡ map as_stored ms =
      ap (scan_messages k) there
      ∙ scan_messages-map e k (saved k cs) (saved-IsOf k cs) kept
      ∙ sym (map-map as_stored (λ (m : ℕ × TelemetryPayload). m.1) (saved k cs)) in
    let bound : history_limit (pos limit) ≡ limit = ground arith in
    (
      ms,
      scan_messages k all,
      history_slice k limit (History.run cs) positive
          ∙ ap (λ n. ok (drop n (get_slice k (History.run cs).telemetries))) none_left
          ∙ ap ok here,
      ap (λ n. ok (scan_messages k (take n all))) bound
          ∙ ap (λ z. ok (scan_messages k z)) (take_all limit all fits),
      subst (λ z. Perm (scan_messages k all) z) stored
          (scan_messages-perm k all (where_device device k (Contents.run e cs).telemetries)
            (messages_of-perm k (Contents.run e cs).telemetries)),
      scan_messages-IsNewestFirst k all
          (messages_of-IsNewestRowFirst k (Contents.run e cs).telemetries),
    )
