-- ===== src/Simulator/Environment.antt =====
-- What `SimulatedDevice` of tools/simulator/main.go has around it. The types of its messages repeat
-- those of the server and are Models here: it sends no interval and no custom values, and a status
-- always.
use iot_server.Base.{ℕ, Bool, Option}
use iot_server.Base.Text.{Bytes}
use iot_server.Base.Float.{Float64}
use iot_server.Models.{TelemetryPayload, ApiResponse}

-- An http.Response. `complete` is whether io.ReadAll of the body succeeds; `body` is what it reads.
pub record HttpResponse : Type 0 where
  pub status_code : ℕ
  pub body : Bytes
  pub complete : Bool

-- The acknowledgement that `ExecuteCommand` sends.
pub record AckPayload : Type 0 where
  pub device_id : Bytes
  pub command_id : Bytes
  pub result : Bytes

-- The http.Client, over what is outside: `none` is an error. `post` has the URL, the content type
-- and the body.
pub record HttpClient (W : Type 0) : Type 0 where
  pub post : Bytes → Bytes → Bytes → W → W × Option HttpResponse
  pub get : Bytes → W → W × Option HttpResponse

-- encoding/json, and the hexadecimal form of SHA-256.
pub record Codec : Type 0 where
  pub marshal_telemetry : TelemetryPayload → Bytes
  pub marshal_ack : AckPayload → Bytes
  pub unmarshal_response : Bytes → Option ApiResponse
  pub sha256 : Bytes → Bytes

-- What the clock, the random numbers and the floating-point arithmetic of a round come to: the
-- measured values, `rand.Intn(25)` and `rand.Intn(5000)`.
pub record Sample : Type 0 where
  pub time : ℕ
  pub temperature : Float64
  pub humidity : Float64
  pub rssi_noise : ℕ
  pub heap_noise : ℕ

-- The rest: the sample of a round for the base temperature and humidity, whether the context is
-- done, and `float64(mv) / 1000.0`.
pub record Surroundings (W : Type 0) : Type 0 where
  pub client : HttpClient W
  pub codec : Codec
  pub sample : W → Float64 → Float64 → Sample
  pub done : W → Bool
  pub volts : ℕ → Float64
