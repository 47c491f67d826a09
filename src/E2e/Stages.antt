-- ===== src/E2e/Stages.antt =====
-- When `main` of tools/test_runner/run_e2e.go passes: its stages one by one, and all of them.
use iot_server.Base.{
  ℕ, zero, suc, ◌≤◌, ◌<◌, ◌≡◌, ◌↔◌, refl, sym, subst, true, false, Option, none, some, List, [],
  ◌∷◌, length, All, arith, Bool-cases, Option-cases, inl, inr,
}
use iot_server.Base.Text.{Bytes, utf8, bytes_eq, bytes_eq_iff}
use iot_server.Simulator.Environment.{HttpResponse}
use iot_server.E2e.Runner.{
  DeviceState, Failure, Surroundings, find_not_upgraded, judge_devices, judge_history, and_then,
  poll, poll_until_ready, verify_devices, verify_history, judge_body, judge_status,
  verify_dashboard, verify_command, command_payload, verify,
}

abbrev pub IsUpgraded : DeviceState → Type 0
IsUpgraded d = d.firmware_version ≡ utf8 "1.1.0"

find_not_upgraded-none_iff :
    (ds : List DeviceState) → (find_not_upgraded ds ≡ none) ↔ All IsUpgraded ds
unfolding find_not_upgraded
find_not_upgraded-none_iff [] = (λ h. tt, λ h. refl)
find_not_upgraded-none_iff (d ∷ ds) =
    let same = bytes_eq_iff d.firmware_version (utf8 "1.1.0") in
    let rest = find_not_upgraded-none_iff ds in
    (
      λ h. elim (Bool-cases (bytes_eq d.firmware_version (utf8 "1.1.0"))) [
        | inl e ↦ (same.0 e, rest.0 (ground (arith, h, e)))
        | inr e ↦ absurd (ground (arith, h, e))
      ],
      λ (h, hs). let e = same.1 h in let es = rest.1 hs in ground (arith, e, es),
    )

pub judge_devices-none_iff :
    (ds : List DeviceState) → (judge_devices ds ≡ none) ↔ (All IsUpgraded ds × (2 ≤ length ds))
unfolding judge_devices
judge_devices-none_iff ds =
    let upgraded = find_not_upgraded-none_iff ds in
    (
      λ h. elim (Option-cases (find_not_upgraded ds)) [
        | inl e ↦ (upgraded.0 e, ground (arith, h, e))
        | inr (f, e) ↦ absurd (ground (arith, h, e))
      ],
      λ (h, few). let e = upgraded.1 h in ground (arith, e),
    )

pub judge_history-none_iff : (rs : List Bytes) → (judge_history rs ≡ none) ↔ (3 ≤ length rs)
unfolding judge_history
judge_history-none_iff rs = ground arith

module _ {W : Type 0} where
  pub and_then-none_iff :
      (x : W × Option Failure) (rest : W → W × Option Failure)
      → ((and_then x rest).1 ≡ none) ↔ ((x.1 ≡ none) × ((rest x.0).1 ≡ none))
  and_then-none_iff (w, some failure) rest = (λ h. absurd (ground arith), λ (h, hs). h)
  and_then-none_iff (w, none) rest = (λ h. (refl, h), λ (h, hs). hs)

module _ {W : Type 0} where
  -- What a client gets, read and judged.
  abbrev pub Gets :
      {A : Type 0} → W × Option HttpResponse → (Bytes → Option A) → (A → Type 0) → Type 0
  Gets {A} x read P = (r : HttpResponse) × (a : A) × (x.1 ≡ some r) × (read r.body ≡ some a) × P a

  abbrev pub Answers200 : W × Option HttpResponse → Type 0
  Answers200 x = (r : HttpResponse) × (x.1 ≡ some r) × (r.status_code ≡ 200)

  judge_body-none_iff :
      {A : Type 0} (e e' : Failure) (read : Bytes → Option A) (judge : A → Option Failure)
      (P : A → Type 0) (x : W × Option HttpResponse)
      → ((a : A) → (judge a ≡ none) ↔ P a)
      → ((judge_body e e' read judge x).1 ≡ none) ↔ Gets x read P
  unfolding judge_body
  judge_body-none_iff e e' read judge P (w, none) iff =
      (λ h. absurd (ground arith), λ (r, a, got, is_read, holds). absurd (ground (arith, got)))
  judge_body-none_iff {A} e e' read judge P (w, some r) iff = elim (Option-cases (read r.body)) [
    | inl none_read ↦ (
      λ h. absurd (ground (arith, h, none_read)),
      λ (r', a, got, is_read, holds). absurd (ground (arith, got, is_read, none_read)),
    )
    | inr (a, is_read) ↦ (
      λ h. (r, a, refl, is_read, (iff a).0 (ground (arith, h, is_read))),
      λ (r', a', got, is_read', holds).
          let e = (iff a').1 holds in ground (arith, got, is_read', e),
    )
  ]

  judge_status-none_iff :
      (e : Failure) (returned : ℕ → Failure) (x : W × Option HttpResponse)
      → ((judge_status e returned x).1 ≡ none) ↔ Answers200 x
  unfolding judge_status
  judge_status-none_iff e returned (w, none) =
      (λ h. absurd (ground arith), λ (r, got, good). absurd (ground (arith, got)))
  judge_status-none_iff e returned (w, some r) =
      (λ h. (r, refl, ground (arith, h)), λ (r', got, good). ground (arith, got, good))

module _ {W : Type 0} (s : Surroundings W) where
  -- A request for the health of the server.
  abbrev pub health : W → W × Option HttpResponse
  health w = s.mtls_client.get (utf8 "https://127.0.0.1:8443/healthz") w

  -- Behind `k` such requests, half a second behind each.
  abbrev pub waited : ℕ → W → W
  waited zero w = w
  waited (suc k) w = waited k (s.sleep 500 (health w).0)

  poll-health :
      (w : W) → ((poll s w).0 ≡ (health w).0) × (((poll s w).1 ≡ true) ↔ Answers200 (health w))
  unfolding poll
  poll-health w = elim (Option-cases (health w).1) [
    | inl none_got ↦ (
      ground (arith, none_got),
      (
        λ h. absurd (ground (arith, none_got, h)),
        λ (r, got, good). absurd (ground (arith, none_got, got)),
      ),
    )
    | inr (r, is) ↦ (
      ground (arith, is),
      (λ h. (r, is, ground (arith, is, h)), λ (r', got, good). ground (arith, is, got, good)),
    )
  ]

  -- One of `n` requests is answered with 200.
  abbrev pub IsReady : ℕ → W → Type 0
  IsReady n w = (k : ℕ) × (k < n) × Answers200 (health (waited k w))

  pub poll_until_ready_iff : (n : ℕ) (w : W) → ((poll_until_ready s n w).1 ≡ true) ↔ IsReady n w
  unfolding poll_until_ready
  poll_until_ready_iff zero w = (λ h. absurd (ground arith), λ (k, few, h). absurd (omega arith))
  poll_until_ready_iff (suc n) w =
      let (same, answers) = poll-health w in
      let rest =
        subst
          (λ (x : W).
            ((poll_until_ready s n (s.sleep 500 x)).1 ≡ true)
            ↔ IsReady n (s.sleep 500 (health w).0))
          (sym same) (poll_until_ready_iff n (s.sleep 500 (health w).0)) in
      (
        λ h. elim (Bool-cases (poll s w).1) [
          | inl e ↦ (0, omega arith, answers.0 e)
          | inr e ↦
              let (k, few, ready) = rest.0 (ground (arith, h, e)) in (suc k, omega arith, ready)
        ],
        λ (k, few, ready). elim (Bool-cases (poll s w).1) [
          | inl e ↦ ground (arith, e)
          | inr e ↦ ground (arith, e, rest.1 (later k few ready answers.1 e))
        ],
      )
    where
      later :
          (k : ℕ)
          → k < suc n
          → Answers200 (health (waited k w))
          → (Answers200 (health w) → (poll s w).1 ≡ true)
          → (poll s w).1 ≡ false
          → IsReady n (s.sleep 500 (health w).0)
      later zero few ready answers e = absurd (ground (arith, answers ready, e))
      later (suc k) few ready answers e = (k, omega arith, ready)

  -- The list of the devices has at least two, and all of them the version 1.1.0.
  abbrev pub ListsUpgraded : W → Type 0
  ListsUpgraded w =
      Gets (s.mtls_client.get (utf8 "https://127.0.0.1:8443/api/v1/devices") w) s.unmarshal_devices
        (λ ds. All IsUpgraded ds × (2 ≤ length ds))

  -- The history of DEV-ESP32-001 has at least three messages.
  abbrev pub ListsHistory : W → Type 0
  ListsHistory w =
      Gets
        (s.mtls_client.get
          (utf8 "https://127.0.0.1:8443/api/v1/telemetry/history?device_id=DEV-ESP32-001") w)
        s.unmarshal_history (λ rs. 3 ≤ length rs)

  pub verify_devices-none_iff : (w : W) → ((verify_devices s w).1 ≡ none) ↔ ListsUpgraded w
  unfolding verify_devices
  verify_devices-none_iff w =
      judge_body-none_iff _ _ s.unmarshal_devices judge_devices
        (λ ds. All IsUpgraded ds × (2 ≤ length ds)) _ judge_devices-none_iff

  pub verify_history-none_iff : (w : W) → ((verify_history s w).1 ≡ none) ↔ ListsHistory w
  unfolding verify_history
  verify_history-none_iff w =
      judge_body-none_iff _ _ s.unmarshal_history judge_history (λ rs. 3 ≤ length rs) _
        judge_history-none_iff

  pub verify_dashboard-none_iff :
      (w : W)
      → ((verify_dashboard s w).1 ≡ none)
        ↔ Answers200 (s.http_client.get (utf8 "http://127.0.0.1:8080/") w)
  unfolding verify_dashboard
  verify_dashboard-none_iff w = judge_status-none_iff _ _ _

  abbrev pub command_posted : W → W × Option HttpResponse
  command_posted w =
      s.http_client.post (utf8 "http://127.0.0.1:8080/api/v1/commands") (utf8 "application/json")
        (s.marshal_command command_payload) w

  pub verify_command-none_iff :
      (w : W) → ((verify_command s w).1 ≡ none) ↔ Answers200 (command_posted w)
  unfolding verify_command
  verify_command-none_iff w = judge_status-none_iff _ _ _

  -- The stages 3 to 6 pass.
  pub record IsVerified (w : W) : Type 0 where
    pub upgraded : ListsUpgraded w
    pub persisted : ListsHistory (verify_devices s w).0
    pub dashboard : Answers200 (
        s.http_client.get
          (utf8 "http://127.0.0.1:8080/")
          (verify_history s (verify_devices s w).0).0)
    pub command :
        Answers200
          (command_posted (verify_dashboard s (verify_history s (verify_devices s w).0).0).0)

  pub verify-none_iff : (w : W) → ((verify s w).1 ≡ none) ↔ IsVerified w
  unfolding verify
  verify-none_iff w =
      let w1 = (verify_devices s w).0 in
      let w2 = (verify_history s w1).0 in
      let w3 = (verify_dashboard s w2).0 in
      let last = and_then-none_iff (verify_dashboard s w2) (verify_command s) in
      let later =
        and_then-none_iff (verify_history s w1)
          (λ x. and_then (verify_dashboard s x) (verify_command s)) in
      let all = and_then-none_iff (verify_devices s w) (λ x.
        and_then (verify_history s x) (λ y. and_then (verify_dashboard s y) (verify_command s))) in
      (
        λ h.
            let (h1, rest1) = all.0 h in
            let (h2, rest2) = later.0 rest1 in
            let (h3, h4) = last.0 rest2 in
            record {
              upgraded = (verify_devices-none_iff w).0 h1;
              persisted = (verify_history-none_iff w1).0 h2;
              dashboard = (verify_dashboard-none_iff w2).0 h3;
              command = (verify_command-none_iff w3).0 h4;
            },
        λ v.
            let h3 = last.1 (
              (verify_dashboard-none_iff w2).1 v.dashboard,
              (verify_command-none_iff w3).1 v.command,
            ) in
            let h2 = later.1 ((verify_history-none_iff w1).1 v.persisted, h3) in
            all.1 ((verify_devices-none_iff w).1 v.upgraded, h2),
      )
