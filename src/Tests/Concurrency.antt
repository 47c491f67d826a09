-- ===== src/Tests/Concurrency.antt =====
-- The theorems on interleaved requests at a concrete schedule.
use iot_server.Base.{ℕ, refl, List, [], ◌∷◌, none}
use iot_server.Base.Text.{utf8, bytes_eq}
use iot_server.Storage.Memory.Heap.{IsValid}
use iot_server.Storage.Memory.History.{run-IsValid}
use iot_server.Alerting.Rules.{default_thresholds}
use iot_server.Api.Effects.{Untouched, memory_handler}
use iot_server.Api.Interleaved.{Phase, saving, remembering, acking, turns}
use iot_server.Api.Isolation.{turns-Untouched}
use iot_server.Tests.Samples.{reading, sleep_command, calls}
use iot_server.Tests.Server.{device, webhook, command_request, fixed_json, no_range, state}

-- A message, a command and an acknowledgement of the same device.
abbrev requests : List Phase
requests =
    saving reading
    ∷ remembering command_request sleep_command
    ∷ acking (record { device_id = device; command_id = utf8 "cmd-1"; result = utf8 "SUCCESS" })
    ∷ []

-- The command is queued while the message is being handled, and the acknowledgement comes between.
abbrev schedule : List (ℕ × ℕ)
schedule = (60, 0) ∷ (60, 1) ∷ (61, 2) ∷ (61, 0) ∷ (62, 1) ∷ (62, 0) ∷ (63, 0) ∷ []

turns-Untouched_example :
    let x =
      turns fixed_json no_range
        (memory_handler none default_thresholds webhook)
        schedule
        requests
        state in
    Untouched (utf8 "DEV-2") state x.0 × IsValid x.0.outside.store
unfolding bytes_eq
turns-Untouched_example =
    turns-Untouched fixed_json no_range none default_thresholds webhook (utf8 "DEV-2") schedule
      requests state (refl, (refl, (refl, tt))) (run-IsValid calls)
