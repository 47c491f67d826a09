-- ===== src/Models.antt =====
-- server/storage/models/types.go: the records that the server's parts exchange.
-- Strings are byte lists, `float64` is `Float64`, a `uint32` is a number below 2 ^ 32 and a signed
-- integer a ℤ. A pointer that may be nil is an `Option`.
use iot_server.Base.{ℕ, Bool, Option, none, List, []}
use iot_server.Base.Int.{ℤ, pos}
use iot_server.Base.Text.{Bytes}
use iot_server.Base.Float.{Float64, zero_float}

-- What an `interface{}` of the program holds: a decoded JSON value, or a number of its own.
-- `map_value` is a `map[string]interface{}`.
mutual
  pub data Value : Type 0 where
    nil_value : Value
    bool_value : Bool → Value
    float_value : Float64 → Value
    uint32_value : ℕ → Value
    int32_value : ℤ → Value
    string_value : Bytes → Value
    slice_value : Values → Value
    map_value : Entries → Value

  pub data Values : Type 0 where
    no_values : Values
    one_value : Value → Values → Values

  pub data Entries : Type 0 where
    no_entries : Entries
    entry : Bytes → Value → Entries → Entries

pub record MessageHeader : Type 0 where
  pub device_id : Bytes
  pub timestamp : ℤ
  pub seq_no : ℕ
  pub firmware_version : Bytes
  pub boot_count : ℕ

pub record MetricsData : Type 0 where
  pub temperature : Float64
  pub humidity : Float64
  pub battery_voltage : Float64
  pub battery_level_pct : ℕ
  pub rssi : ℤ
  pub interval_sec : ℕ
  pub custom_values : Option Entries

pub record DeviceStatus : Type 0 where
  pub state : Bytes
  pub uptime_sec : ℕ
  pub free_heap_bytes : ℕ

pub record TelemetryPayload : Type 0 where
  pub header : MessageHeader
  pub metrics : MetricsData
  pub status : Option DeviceStatus

pub record EventDetail : Type 0 where
  pub event_type : Bytes
  pub severity : Bytes
  pub message : Bytes
  pub details : Option Entries

pub record EventPayload : Type 0 where
  pub header : MessageHeader
  pub event : EventDetail

pub record OtaInfo : Type 0 where
  pub available : Bool
  pub target_version : Bytes
  pub package_url : Bytes
  pub sha256 : Bytes
  pub size_bytes : ℕ
  pub mandatory : Bool

pub record DeviceCommand : Type 0 where
  pub command_id : Bytes
  pub action : Bytes
  pub params : Option Entries

pub record ApiResponse : Type 0 where
  pub status : Bytes
  pub message : Bytes
  pub server_time : ℕ
  pub sleep_interval_sec : ℕ
  pub ota : Option OtaInfo
  pub commands : List DeviceCommand

-- `last_seen_at` is in Unix seconds.
pub record DeviceState : Type 0 where
  pub device_id : Bytes
  pub firmware_version : Bytes
  pub last_seen_at : ℕ
  pub last_seq_no : ℕ
  pub last_metrics : MetricsData
  pub last_status : Option DeviceStatus
  pub status : Bytes
  pub total_telemetries : ℕ
  pub pending_commands_count : ℕ
  pub current_interval_sec : ℕ

-- Go's zero values of these types.
abbrev pub zero_header : MessageHeader
zero_header = record {
  device_id = [];
  timestamp = pos 0;
  seq_no = 0;
  firmware_version = [];
  boot_count = 0;
}

abbrev pub zero_metrics : MetricsData
zero_metrics = record {
  temperature = zero_float;
  humidity = zero_float;
  battery_voltage = zero_float;
  battery_level_pct = 0;
  rssi = pos 0;
  interval_sec = 0;
  custom_values = none;
}

abbrev pub zero_status : DeviceStatus
zero_status = record { state = []; uptime_sec = 0; free_heap_bytes = 0 }
