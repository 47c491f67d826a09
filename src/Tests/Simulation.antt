-- ===== src/Tests/Simulation.antt =====
-- The theorems on the simulated device in concrete surroundings.
use iot_server.Base.{ℕ, ◌+◌, ◌≡◌, refl, ◌⊎◌, true, false, Option, none, some, [], arith}
use iot_server.Base.Text.{utf8}
use iot_server.Base.Float.{of_nat}
use iot_server.Simulator.Environment.{HttpResponse, Sample, Surroundings}
use iot_server.Simulator.Device.{SimulatedDevice, new_simulated_device, stopped, run}
use iot_server.Simulator.Battery.{Within, rounds_made, run-Within}
use iot_server.Simulator.Main.{Files, Chances, default_flags, simulate, simulate_completes}
use iot_server.Simulator.Image.{IsVerified, run-IsVerified}
use iot_server.Simulator.Delivered.{server_url}
use iot_server.Tests.Server.{device}

abbrev pub simulated : SimulatedDevice
simulated = new_simulated_device device server_url (of_nat 25) (of_nat 50) 150

abbrev pub sample : Sample
sample = record {
  time = 1764115200;
  temperature = of_nat 25;
  humidity = of_nat 50;
  rssi_noise = 3;
  heap_noise = 100;
}

-- Every request has the same answer, and is counted.
abbrev answering : Option HttpResponse → Surroundings ℕ
answering result = record {
  client = record { post = λ url kind body n. (n + 1, result); get = λ url n. (n + 1, result) };
  codec = record {
    marshal_telemetry = λ p. [];
    marshal_ack = λ a. [];
    unmarshal_response = λ b. none;
    sha256 = λ b. b;
  };
  sample = λ n t h. sample;
  done = λ n. false;
  volts = λ mv. of_nat 4;
}

abbrev pub ok_response : HttpResponse
ok_response = record { status_code = 200; body = []; complete = true }

run-Within_example :
    Within
      (answering (some ok_response))
      5
      (rounds_made (answering (some ok_response)) 5 1 3 simulated 0 0)
      simulated
      0
      (run (answering (some ok_response)) 5 1 3 simulated 0 0)
run-Within_example =
    run-Within (answering (some ok_response)) 5 1 3 simulated 0 0 (omega arith, omega arith)
      (omega arith)

abbrev files : Files
files = record { loads_key_pair = λ cert key. true; reads_file = λ path. true }

abbrev chances : Chances
chances = record { base_temp = of_nat 25; base_humidity = of_nat 50; noise = 150 }

simulate_completes_example :
    (d : SimulatedDevice) × (w' : ℕ) × (simulate
        (answering (some ok_response))
        files
        chances
        default_flags
        3
        0
      ≡ some (stopped, d, 3, w'))
simulate_completes_example =
    simulate_completes (answering (some ok_response)) files chances default_flags 0 refl refl
      (λ url kind body w. (ok_response, refl, refl)) (λ w. refl) (omega arith)

run-IsVerified_example :
    let d' = (run (answering (some ok_response)) 5 1 3 simulated 0 0).1 in
    (d'.firmware_version ≡ utf8 "1.0.0")
    ⊎ IsVerified (answering (some ok_response)) server_url d'.firmware_version
run-IsVerified_example = run-IsVerified (answering (some ok_response)) 5 1 3 simulated 0 0
