-- ===== src/Api/Requests.antt =====
-- What the handlers of server/api/handlers/telemetry_handler.go are given and answer.
use iot_server.Base.{
  ℕ, ◌/◌, ◌^◌, Bool, true, false, ◌||◌, ◌&&◌, Option, none, some, List, [], ◌∷◌, ltb, if◌then◌else◌,
}
use iot_server.Base.Text.{Bytes, utf8, bytes_eq}
use iot_server.Base.Float.{Float64, finite, zero_float, ltb_float}
use iot_server.Models.{
  TelemetryPayload, EventPayload, DeviceState, ApiResponse, Value, float_value, Entries, no_entries,
  entry,
}

-- `auth_device_id` is empty if the context has none. `body` is `none` if reading it fails.
pub record Request : Type 0 where
  pub method : Bytes
  pub auth_device_id : Bytes
  pub content_type : Bytes
  pub body : Option Bytes

-- The bodies of `HandleQueueCommand` and `HandleAckCommand`.
pub record CommandRequest : Type 0 where
  pub device_id : Bytes
  pub action : Bytes
  pub params : Option Entries

pub record AckRequest : Type 0 where
  pub device_id : Bytes
  pub command_id : Bytes
  pub result : Bytes

-- Go's encoding/json on the bodies; `none` is an error.
pub record Json : Type 0 where
  pub unmarshal_telemetry : Bytes → Option TelemetryPayload
  pub unmarshal_event : Bytes → Option EventPayload
  pub decode_command : Bytes → Option CommandRequest
  pub decode_ack : Bytes → Option AckRequest

-- `plain_error` is http.Error, and `failure` is `writeError`, with the status code and the status;
-- the text of the message is left out. `firmware` is a file with its name. `missing` is 404 for a
-- path without a route, and `static_file` what the file server answers for a path. `panicked` and
-- `unfinished` are no answers: the handler panicked, or has not ended with the fuel of the decoder.
pub data Reply : Type 0 where
  plain_error : ℕ → Reply
  failure : ℕ → Bytes → Reply
  accepted : ApiResponse → Reply
  queued : Bytes → Bytes → Bytes → Reply
  ack_recorded : Reply
  event_recorded : ℕ → Reply
  devices : List DeviceState → Reply
  history : List TelemetryPayload → Reply
  firmware : Bytes → Bytes → Reply
  healthy : ℕ → Reply
  missing : Reply
  moved : Reply
  static_file : Bytes → Reply
  panicked : Reply
  unfinished : Reply

-- strings.HasPrefix and strings.Contains.
unfoldable pub has_prefix : Bytes → Bytes → Bool
has_prefix [] text = true
has_prefix (p ∷ ps) [] = false
has_prefix (p ∷ ps) (c ∷ cs) = bytes_eq (p ∷ []) (c ∷ []) && has_prefix ps cs

unfoldable pub contains : Bytes → Bytes → Bool
unfolding has_prefix
contains [] part = has_prefix part []
contains (c ∷ cs) part = has_prefix part (c ∷ cs) || contains cs part

-- m[k] of a `map[string]interface{}`.
unfoldable pub lookup_entry : Bytes → Entries → Option Value
lookup_entry k no_entries = none
lookup_entry k (entry j v m) = if bytes_eq j k then some v else lookup_entry k m

-- `sVal, ok := params["sleep_interval_sec"].(float64); ok && sVal > 0`, for params that are not
-- nil.
unfoldable pub sleep_param : Option Entries → Option Float64
sleep_param none = none
sleep_param (some m) = elim (lookup_entry (utf8 "sleep_interval_sec") m) [
  | some (float_value x) ↦ if ltb_float zero_float x then some x else none
  | _ ↦ none
]

-- Go's `uint32(x)`. It drops the fraction; the result for an `x` out of range is the
-- implementation's, `out_of_range x`.
unfoldable pub to_uint32 : (Float64 → ℕ) → Float64 → ℕ
to_uint32 out_of_range (finite false m) =
    let whole = m / 2 ^ 1074 in if ltb whole (2 ^ 32) then whole else out_of_range (finite false m)
to_uint32 out_of_range (finite true m) =
    if ltb m (2 ^ 1074) then 0 else out_of_range (finite true m)
to_uint32 out_of_range x = out_of_range x
