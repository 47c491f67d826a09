-- ===== src/E2e/Replies.antt =====
-- The checks of tools/test_runner/run_e2e.go on the answers of a server, which their requests
-- leave as it is.
use iot_server.Base.{
  ℕ, suc, ◌≡◌, ◌↔◌, refl, sym, ap, ◌∙◌, Option, none, some, List, [], ◌∷◌, length, map, All, arith,
}
use iot_server.Base.Text.{Bytes, utf8}
use iot_server.Models.{TelemetryPayload}
use iot_server.Models as M
use iot_server.Api.Requests.{CommandRequest}
use iot_server.Simulator.Environment.{HttpResponse}
use iot_server.E2e.Runner.{Failure, and_then, judge_body, judge_status, DeviceState}
use iot_server.E2e.Stages.{IsUpgraded}

-- The command as the server reads it.
abbrev pub command : Option M.Entries → CommandRequest
command params = record {
  device_id = utf8 "DEV-ESP32-001";
  action = utf8 "CONFIG_UPDATE";
  params = params;
}

abbrev pub IsLatest : M.DeviceState → Type 0
IsLatest d = d.firmware_version ≡ utf8 "1.1.0"

pub length-map : {A B : Type 0} (f : A → B) (xs : List A) → length (map f xs) ≡ length xs
length-map f [] = refl
length-map f (x ∷ xs) = ap suc (length-map f xs)

pub judge_body-world :
    {W A : Type 0} (e e' : Failure) (read : Bytes → Option A) (judge : A → Option Failure)
    (x : W × Option HttpResponse)
    → (judge_body e e' read judge x).0 ≡ x.0
unfolding judge_body
judge_body-world e e' read judge (w, none) = refl
judge_body-world e e' read judge (w, some r) = ground arith

pub judge_status-world :
    {W : Type 0} (e : Failure) (returned : ℕ → Failure) (x : W × Option HttpResponse)
    → (judge_status e returned x).0 ≡ x.0
unfolding judge_status
judge_status-world e returned (w, none) = refl
judge_status-world e returned (w, some r) = refl

pub and_then-world :
    {W : Type 0} (x : W × Option Failure) (rest : W → W × Option Failure)
    → (and_then x rest).1 ≡ none
    → ((and_then x rest).0 ≡ (rest x.0).0) × ((rest x.0).1 ≡ none)
and_then-world (w, some f) rest h = absurd (ground (arith, h))
and_then-world (w, none) rest h = (refl, h)

-- The versions in the list that is read are those of the list.
pub All-IsUpgraded-map :
    (row : M.DeviceState → DeviceState)
    → ((d : M.DeviceState) → (row d).firmware_version ≡ d.firmware_version)
    → (ds : List M.DeviceState) → All IsUpgraded (map row ds) ↔ All IsLatest ds
All-IsUpgraded-map row keeps [] = (λ h. h, λ h. h)
All-IsUpgraded-map row keeps (d ∷ ds) =
    let rest = All-IsUpgraded-map row keeps ds in
    (λ (e, es). (sym (keeps d) ∙ e, rest.0 es), λ (e, es). (keeps d ∙ e, rest.1 es))
