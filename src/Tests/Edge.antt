-- ===== src/Tests/Edge.antt =====
-- The theorems on the firmware at concrete inputs.
use iot_server.Base.{◌⊎◌, if◌then◌else◌, ◌==◌, ℕ, ◌+◌, ◌%◌, ◌≡◌, true, some, List, [], ◌∷◌}
use iot_server.Base.Int.{negsuc}
use iot_server.Edge.Buffer.{telemetry_buffer_init, telemetry_buffer_push}
use iot_server.Edge.Uses.{
  Use, push, peek, pop, ask_empty, ask_count, use_buffer, use_queue, answers, answers-use_buffer,
}
use iot_server.Edge.Loop.{Hal, boot, sleeping, App, app_state_machine_init, wake_up}
use iot_server.Edge.Reached.{Reached, IsHandled, wake_up-IsHandled}
use iot_server.Tests.Samples.{sensor}

abbrev uses : List Use
uses = push sensor ∷ push sensor ∷ ask_count ∷ peek ∷ pop ∷ pop ∷ pop ∷ ask_empty ∷ []

answers-use_buffer_example :
    answers use_buffer uses telemetry_buffer_init ≡ answers use_queue uses []
answers-use_buffer_example = answers-use_buffer uses

-- A server that answers one request in two with 200: what is outside is the number of requests.
abbrev hal : Hal ℕ
hal = record {
  readings = λ n. record { time_ms = 5000; mv = 3900; volts = 0x4079999a; rssi = negsuc 59 };
  connect = λ n. (n, true);
  https_post = λ payload n. (n + 1, some (if n % 2 == 0 then 200 else 503));
  sleep = λ seconds n. n;
  serialize = λ item. some [];
}

-- The device behind its start, whatever the static variables were.
abbrev started_app : App
started_app =
    (app_state_machine_init true (record {
      current_state = sleeping;
      offline_buffer = telemetry_buffer_push sensor telemetry_buffer_init;
      seq_no = 7;
      boot_count = 1;
      next_sleep_sec = 30;
    })).0

wake_up-IsHandled_example :
    let x = wake_up hal started_app 0 in
    ((started_app.current_state ≡ boot) × IsHandled hal started_app 0 x.0 x.1 x.2)
    ⊎ ((started_app.current_state ≡ sleeping) × (x ≡ ([], started_app, 0)))
wake_up-IsHandled_example = wake_up-IsHandled hal (Reached.started _ 0)
