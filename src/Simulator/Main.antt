-- ===== src/Simulator/Main.antt =====
-- `main` and `NewSimulatedDevice` of tools/simulator/main.go, with their certificates.
use iot_server.Base.{ℕ, ◌<◌, ◌∙◌, ◌≡◌, Bool, true, not, Option, none, some, if◌then◌else◌, arith}
use iot_server.Base.Text.{Bytes, utf8}
use iot_server.Base.Float.{Float64}
use iot_server.Simulator.Environment.{Surroundings}
use iot_server.Simulator.Device.{SimulatedDevice, new_simulated_device, Next, stopped, run}
use iot_server.Simulator.Ends.{IsAnswered, IsRunning, run_completes}

-- The flags, and their defaults.
pub record Flags : Type 0 where
  pub server_url : Bytes
  pub ca_cert : Bytes
  pub client_cert : Bytes
  pub client_key : Bytes
  pub device_id : Bytes
  pub interval : ℕ
  pub cycles : ℕ

abbrev pub default_flags : Flags
default_flags = record {
  server_url = utf8 "https://127.0.0.1:8443";
  ca_cert = utf8 "../certs/out/ca.crt";
  client_cert = utf8 "../certs/out/client_DEV-ESP32-001.crt";
  client_key = utf8 "../certs/out/client_DEV-ESP32-001.key";
  device_id = utf8 "DEV-ESP32-001";
  interval = 1;
  cycles = 3;
}

-- tls.LoadX509KeyPair and os.ReadFile: whether they succeed.
pub record Files : Type 0 where
  pub loads_key_pair : Bytes → Bytes → Bool
  pub reads_file : Bytes → Bool

-- What the random numbers come to: the base temperature and humidity, and `rand.Intn(300)`.
pub record Chances : Type 0 where
  pub base_temp : Float64
  pub base_humidity : Float64
  pub noise : ℕ

-- `NewSimulatedDevice`: `none` is an error. A root CA file without a certificate is none.
unfoldable pub load_device : Files → Chances → Flags → Option SimulatedDevice
load_device files x f =
    if not (files.loads_key_pair f.client_cert f.client_key)
    then none
    else if not (files.reads_file f.ca_cert)
    then none
    else some (new_simulated_device f.device_id f.server_url x.base_temp x.base_humidity x.noise)

-- `main`, for at most `fuel` rounds: `none` is its log.Fatalf.
unfoldable pub simulate :
    {W : Type 0}
    → Surroundings W
    → Files
    → Chances
    → Flags
    → ℕ
    → W
    → Option (Next × SimulatedDevice × ℕ × W)
simulate s files x f fuel w = elim (load_device files x f) [
  | none ↦ none
  | some d ↦ some (run s fuel f.interval f.cycles d 0 w)
]

-- The simulator with a bound on its cycles above 0, its certificates there, ends after exactly as
-- many cycles and as many rounds, if every request is answered with status 200 and the context is
-- not done.
pub simulate_completes :
    {W : Type 0} (s : Surroundings W) (files : Files) (x : Chances) (f : Flags) (w : W)
    → files.loads_key_pair f.client_cert f.client_key ≡ true
    → files.reads_file f.ca_cert ≡ true
    → IsAnswered s
    → IsRunning s
    → 0 < f.cycles
    → (d : SimulatedDevice) × (w' : W) × (simulate s files x f f.cycles w
        ≡ some (stopped, d, f.cycles, w'))
unfolding simulate load_device
simulate_completes s files x f w cert ca answered running more =
    let d = new_simulated_device f.device_id f.server_url x.base_temp x.base_humidity x.noise in
    let end = run s f.cycles f.interval f.cycles d 0 w in
    let (stops, all) =
      run_completes s f.cycles f.interval f.cycles d 0 w answered running more (omega arith) in
    let loaded : load_device files x f ≡ some d = ground (arith, cert, ca) in
    let began : simulate s files x f f.cycles w ≡ some end = ground (arith, loaded) in
    (end.1, end.3, began ∙ (λ i. some (stops i, end.1, all i, end.3)))
