-- ===== src/Storage/Memory/Reports.antt =====
-- What `GetDevice` and `GetTelemetryHistory` of server/storage/repository.go report after a history
-- of calls.
use iot_server.Base.{
  ℕ, ◌+◌, ◌-◌, ◌%◌, ◌^◌, ◌<◌, ◌≡◌, refl, sym, ap, ◌∙◌, subst, none, some, List, [], ◌∷◌, ◌++◌, map,
  length, take, drop, take-append-drop, length-drop, min, arith, inl, inr, ◌⊎◌, ◌&&◌, ltb,
  if◌then◌else◌, drop-nil, length-map, Option-cases, Bool-cases,
}
use native.Mathlib.Decide.{ℕ_discrete}
use iot_server.Base.Text.{Bytes}
use iot_server.Base.Int.{pos}
use iot_server.Base.Assoc.{lookup}
use iot_server.Models.{TelemetryPayload, DeviceState}
use iot_server.Storage.Interface.{ok}
use iot_server.Storage.Memory.{
  InMemoryRepository, touch, get_slice, get_device, get_telemetry_history,
}
use iot_server.Storage.Memory.Devices.{device_or_fresh}
use iot_server.Storage.Memory.History.{Call, run, saved, device_after, run-Holds}

abbrev payloads : List (ℕ × TelemetryPayload) → List TelemetryPayload
payloads = map (λ (m : ℕ × TelemetryPayload). m.1)

-- The counter of a device that has been told of `ms` since it stood at `n`.
counted :
    (k : Bytes) (ms : List (ℕ × TelemetryPayload)) (n : ℕ) (d e : DeviceState)
    → (d.total_telemetries ≡ n % 2 ^ 64) × (d.device_id ≡ k)
    → device_after k ms (some d) ≡ some e
    → (e.total_telemetries ≡ (n + length ms) % 2 ^ 64) × (e.device_id ≡ k)
unfolding device_after
counted k [] n d e (count, name) h =
    let same : d ≡ e = ground arith in
    subst (λ z. (z.total_telemetries ≡ (n + 0) % 2 ^ 64) × (z.device_id ≡ k)) same
      (omega arith, name)
counted k ((now, t) ∷ ms) n d e (count, name) h =
    let (c, i) = counted k ms (n + 1) (touch now t d) e (omega arith, name) h in
    (omega (arith, c), i)

-- After any calls, a device that `GetDevice` finds has its own identifier, and has counted the
-- messages that were saved for it, modulo 2 ^ 64.
pub get_device-counts :
    (cs : List Call) (k : Bytes) (d : DeviceState)
    → get_device k (run cs) ≡ ok d
    → (d.device_id ≡ k) × (d.total_telemetries ≡ length (saved k cs) % 2 ^ 64)
unfolding get_device
get_device-counts cs k d e = by_messages (saved k cs) after
  where
    after : device_after k (saved k cs) none ≡ some d
    after = sym (run-Holds cs k).device ∙ ground arith

    by_messages :
        (ms : List (ℕ × TelemetryPayload))
        → device_after k ms none ≡ some d
        → (d.device_id ≡ k) × (d.total_telemetries ≡ length ms % 2 ^ 64)
    by_messages [] h = unfold device_after in cc
    by_messages ((now, t) ∷ ms) h =
        let start = touch now t (device_or_fresh k none) in
        let (c, i) = counted k ms 1 start d (omega arith, refl) (unfold device_after in h) in
        (i, omega (arith, c))

history_drop :
    (xs : List TelemetryPayload) (n : ℕ)
    → (if ltb 0 n && ltb n (length xs) then drop (length xs - n) xs else xs)
        ≡ drop (length xs - n) xs
      ⊎ (n ≡ 0)
history_drop xs n = elim (Bool-cases (ltb 0 n && ltb n (length xs))) [
  | inl long ↦ inl (rw long)
  | inr short ↦ elim (ℕ_discrete n 0) [
    | yes z ↦ inr z
    | no nz ↦
        let all : length xs - n ≡ 0 = ground arith in inl (rw short (ap (λ j. drop j xs) (sym all)))
  ]
]

pub history_slice :
    (k : Bytes) (n : ℕ) (r : InMemoryRepository)
    → 0 < n
    → get_telemetry_history k (pos n) r
      ≡ ok (drop (length (get_slice k r.telemetries) - n) (get_slice k r.telemetries))
unfolding get_telemetry_history get_slice
history_slice k n r h = elim (Option-cases (lookup k r.telemetries)) [
  | inl e ↦ ground (arith, e, drop-nil {A = TelemetryPayload} (0 - n))
  | inr (xs, e) ↦ elim (history_drop xs n) [
    | inl latest ↦ ground (arith, e, latest)
    | inr zero_limit ↦ absurd (omega arith)
  ]
]

-- `GetTelemetryHistory` with a positive limit returns the latest messages of the device, in order:
-- as many as were saved, and at most the limit.
pub get_telemetry_history-latest :
    (cs : List Call) (k : Bytes) (limit : ℕ)
    → 0 < limit
    → (older latest : List TelemetryPayload) × (get_telemetry_history k (pos limit) (run cs)
        ≡ ok latest)
      × (older ++ latest ≡ map (λ (m : ℕ × TelemetryPayload). m.1) (saved k cs))
      × (length latest ≡ min limit (length (saved k cs)))
get_telemetry_history-latest cs k limit h =
    let all = get_slice k (run cs).telemetries in
    let skipped = length all - limit in
    let same = (run-Holds cs k).telemetries in
    (
      take skipped all,
      drop skipped all,
      history_slice k limit (run cs) h,
      take-append-drop skipped all ∙ same,
      omega (
        arith,
        length-drop skipped all,
        ap length same,
        length-map {0, 0} (saved k cs) (λ (m : ℕ × TelemetryPayload). m.1),
      ),
    )
