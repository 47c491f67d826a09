-- ===== src/E2e/Runner.antt =====
-- `main` of tools/test_runner/run_e2e.go, over what is around it. The log is left out, but for the
-- texts of log.Fatalf, which are the failures. log.Fatalf ends the process at once: what `main`
-- defers is not run then.
use iot_server.Base.{
  ℕ, zero, suc, Bool, true, false, not, Option, none, some, List, [], ◌∷◌, length, ltb, ◌==◌,
  if◌then◌else◌,
}
use iot_server.Base.Text.{Bytes, utf8, bytes_eq}
use iot_server.Simulator.Environment.{HttpResponse, HttpClient}

pub record DeviceState : Type 0 where
  pub device_id : Bytes
  pub firmware_version : Bytes
  pub last_seen_at : Bytes
  pub last_seq_no : ℕ
  pub status : Bytes
  pub total_telemetries : ℕ

-- The command that is queued.
pub record CommandPayload : Type 0 where
  pub device_id : Bytes
  pub action : Bytes
  pub sleep_interval_sec : ℕ

pub data Failure : Type 0 where
  no_ca_cert no_client_cert server_not_started not_healthy devices_not_queried devices_not_parsed :
      Failure
  did_not_upgrade : Bytes → Bytes → Failure
  too_few_devices : ℕ → Failure
  history_not_queried history_not_parsed : Failure
  too_few_records : ℕ → Failure
  dashboard_not_accessed : Failure
  dashboard_returned : ℕ → Failure
  command_not_queued : Failure
  command_returned : ℕ → Failure

-- The files, the processes, the two HTTP clients and encoding/json. `run_all` runs the simulator
-- once for each list of arguments, all at the same time, waits for them, and says which succeeded.
-- The times are in milliseconds.
pub record Surroundings (W : Type 0) : Type 0 where
  pub reads_file : Bytes → W → Bool
  pub loads_key_pair : Bytes → Bytes → W → Bool
  pub start_server : W → W × Bool
  pub stop_server : W → W
  pub sleep : ℕ → W → W
  pub mtls_client : HttpClient W
  pub http_client : HttpClient W
  pub run_all : List (List Bytes) → W → W × List Bool
  pub unmarshal_devices : Bytes → Option (List DeviceState)
  pub unmarshal_history : Bytes → Option (List Bytes)
  pub marshal_command : CommandPayload → Bytes

-- The arguments of a simulator.
abbrev pub simulator_args : Bytes → Bytes → Bytes → List Bytes
simulator_args id cert key =
    utf8 "run"
    ∷ utf8 "main.go"
    ∷ utf8 "-id"
    ∷ id
    ∷ utf8 "-cert"
    ∷ cert
    ∷ utf8 "-key"
    ∷ key
    ∷ utf8 "-ca"
    ∷ utf8 "../certs/out/ca.crt"
    ∷ utf8 "-cycles"
    ∷ utf8 "3"
    ∷ utf8 "-interval"
    ∷ utf8 "1"
    ∷ []

abbrev pub simulators : List (List Bytes)
simulators =
    simulator_args (utf8 "DEV-ESP32-001") (utf8 "../certs/out/client_DEV-ESP32-001.crt")
      (utf8 "../certs/out/client_DEV-ESP32-001.key")
    ∷ simulator_args (utf8 "DEV-STM32-002") (utf8 "../certs/out/client_DEV-STM32-002.crt")
        (utf8 "../certs/out/client_DEV-STM32-002.key")
    ∷ []

abbrev pub command_payload : CommandPayload
command_payload = record {
  device_id = utf8 "DEV-ESP32-001";
  action = utf8 "CONFIG_UPDATE";
  sleep_interval_sec = 10;
}

-- The loop over the devices: the first one that has another version.
unfoldable pub find_not_upgraded : List DeviceState → Option Failure
find_not_upgraded [] = none
find_not_upgraded (d ∷ ds) =
    if bytes_eq d.firmware_version (utf8 "1.1.0")
    then find_not_upgraded ds
    else some (did_not_upgrade d.device_id d.firmware_version)

unfoldable pub judge_devices : List DeviceState → Option Failure
judge_devices ds = elim (find_not_upgraded ds) [
  | some failure ↦ some failure
  | none ↦ if ltb (length ds) 2 then some (too_few_devices (length ds)) else none
]

unfoldable pub judge_history : List Bytes → Option Failure
judge_history records =
    if ltb (length records) 3 then some (too_few_records (length records)) else none

-- What is made of an answer of which the body is read, whatever its status, or the status.
unfoldable pub judge_body :
    {W A : Type 0}
    → Failure
    → Failure
    → (Bytes → Option A)
    → (A → Option Failure)
    → W × Option HttpResponse
    → W × Option Failure
judge_body not_queried not_parsed unmarshal judge (w, none) = (w, some not_queried)
judge_body not_queried not_parsed unmarshal judge (w, some r) = elim (unmarshal r.body) [
  | none ↦ (w, some not_parsed)
  | some a ↦ (w, judge a)
]

unfoldable pub judge_status :
    {W : Type 0} → Failure → (ℕ → Failure) → W × Option HttpResponse → W × Option Failure
judge_status not_accessed returned (w, none) = (w, some not_accessed)
judge_status not_accessed returned (w, some r) =
    (w, if r.status_code == 200 then none else some (returned r.status_code))

-- What is left of `main` after a stage, if the stage does not fail.
abbrev pub and_then :
    {W : Type 0} → W × Option Failure → (W → W × Option Failure) → W × Option Failure
and_then (w, some failure) rest = (w, some failure)
and_then (w, none) rest = rest w

module _ {W : Type 0} (s : Surroundings W) where
  unfoldable pub load_certs : W → W × Option Failure
  load_certs w =
      if not (s.reads_file (utf8 "../certs/out/ca.crt") w)
      then (w, some no_ca_cert)
      else if not (
          s.loads_key_pair (utf8 "../certs/out/client_DEV-ESP32-001.crt")
            (utf8 "../certs/out/client_DEV-ESP32-001.key") w)
      then (w, some no_client_cert)
      else (w, none)

  unfoldable pub start : W → W × Option Failure
  start w =
      let (w', started) = s.start_server w in
      (w', if started then none else some server_not_started)

  -- Whether a poll of the health check answers 200.
  unfoldable pub poll : W → W × Bool
  poll w =
      let (w', resp) = s.mtls_client.get (utf8 "https://127.0.0.1:8443/healthz") w in
      elim resp [ none ↦ (w', false) | some r ↦ (w', r.status_code == 200) ]

  -- The loop with `n` polls left.
  unfoldable pub poll_until_ready : ℕ → W → W × Bool
  poll_until_ready zero w = (w, false)
  poll_until_ready (suc n) w =
      let (w', ready) = poll w in
      elim ready [ true ↦ (w', true) | false ↦ poll_until_ready n (s.sleep 500 w') ]

  unfoldable pub wait_ready : W → W × Option Failure
  wait_ready w =
      let (w', ready) = poll_until_ready 20 (s.sleep 3000 w) in
      (w', if ready then none else some not_healthy)

  -- The failures of simulators are only logged.
  unfoldable pub run_simulators : W → W × Option Failure
  run_simulators w = ((s.run_all simulators w).0, none)

  unfoldable pub verify_devices : W → W × Option Failure
  verify_devices w =
      judge_body devices_not_queried devices_not_parsed s.unmarshal_devices judge_devices
        (s.mtls_client.get (utf8 "https://127.0.0.1:8443/api/v1/devices") w)

  unfoldable pub verify_history : W → W × Option Failure
  verify_history w =
      judge_body history_not_queried history_not_parsed s.unmarshal_history judge_history (
        s.mtls_client.get
          (utf8 "https://127.0.0.1:8443/api/v1/telemetry/history?device_id=DEV-ESP32-001") w)

  unfoldable pub verify_dashboard : W → W × Option Failure
  verify_dashboard w =
      judge_status dashboard_not_accessed dashboard_returned
        (s.http_client.get (utf8 "http://127.0.0.1:8080/") w)

  unfoldable pub verify_command : W → W × Option Failure
  verify_command w = judge_status command_not_queued command_returned (
      s.http_client.post (utf8 "http://127.0.0.1:8080/api/v1/commands") (utf8 "application/json")
        (s.marshal_command command_payload) w)

  -- The stages 3 to 6.
  unfoldable pub verify : W → W × Option Failure
  verify w =
      and_then (verify_devices w)
        (λ w1. and_then (verify_history w1) (λ w2. and_then (verify_dashboard w2) verify_command))

  -- `main`: the first failure, or none if all tests pass. The server is stopped behind a pass
  -- alone.
  unfoldable pub run_e2e : W → W × Option Failure
  run_e2e w =
      let result = and_then (load_certs w) (λ w1.
        and_then (start w1)
          (λ w2. and_then (wait_ready w2) (λ w3. and_then (run_simulators w3) verify))) in
      elim result.1 [ none ↦ (s.stop_server result.0, none) | some failure ↦ result ]
