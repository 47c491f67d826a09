-- ===== src/Api/Routes.antt =====
-- The routes of server/main.go: those of the edge server behind `MTLSAuthMiddleware`, and those of
-- the dashboard, with the redirects of Go's ServeMux (their targets are left out). A request for `*`
-- is answered before the routes.
use iot_server.Base.{
  ℕ, Bool, false, not, Option, none, some, [], ◌∷◌, if◌then◌else◌, ◌==◌, ◌&&◌, ◌||◌, ◌+◌, ltb,
}
use iot_server.Base.Text.{Bytes, utf8, bytes_eq}
use iot_server.Base.Float.{Float64}
use iot_server.Api.Auth.{unauthorized, next_as, mtls_auth_middleware}
use iot_server.Api.Requests.{Request, Json, Reply, failure, missing, moved, static_file, has_prefix}
use iot_server.Api.Handlers.{
  ApiHandler, ApiState, handle_telemetry, handle_events, handle_list_devices, handle_ota_download,
  handle_telemetry_history, handle_queue_command, handle_ack_command, handle_health,
}

-- A request with its path and the query parameter `device_id`.
pub record Incoming : Type 0 where
  pub path : Bytes
  pub query_device_id : Bytes
  pub request : Request

-- The patterns of the two servers.
pub data Route : Type 0 where
  healthz telemetry events devices ota_download telemetry_history commands commands_ack redirected :
      Route

-- How much of a segment of a path was read: 0 for nothing, 1 and 2 for one and two dots, 3 for
-- anything else; and 4 if the path has an empty segment, `.` or `..` before. 47 is the slash.
abbrev next_part : ℕ → ℕ → ℕ
next_part part c =
    if c == 47
    then if part == 3 then 0 else 4
    else if part == 4
    then 4
    else if c == 46 && ltb part 2
    then part + 1
    else 3

abbrev clean_behind : ℕ → Bytes → Bool
clean_behind part [] = part == 0 || part == 3
clean_behind part (c ∷ cs) = clean_behind (next_part part c) cs

-- Whether ServeMux takes a path as it is: it begins with a slash, and has no empty segment but the
-- last, and none that is `.` or `..`.
abbrev is_clean : Bytes → Bool
is_clean [] = false
is_clean (c ∷ cs) = c == 47 && clean_behind 0 cs

-- A path that is not clean is redirected, but for CONNECT.
abbrev pub redirects : Bytes → Bytes → Bool
redirects method path = not (bytes_eq method (utf8 "CONNECT")) && not (is_clean path)

-- `edgeMux`. A pattern that ends in a slash takes every path that begins with it,
-- and the path without the slash is redirected to it.
unfoldable pub edge_route : Bytes → Bytes → Option Route
edge_route method path =
    if redirects method path || bytes_eq path (utf8 "/api/v1/ota/download")
    then some Route.redirected
    else if bytes_eq path (utf8 "/healthz")
    then some Route.healthz
    else if bytes_eq path (utf8 "/api/v1/telemetry")
    then some Route.telemetry
    else if bytes_eq path (utf8 "/api/v1/events")
    then some Route.events
    else if bytes_eq path (utf8 "/api/v1/devices")
    then some Route.devices
    else if has_prefix (utf8 "/api/v1/ota/download/") path
    then some Route.ota_download
    else if bytes_eq path (utf8 "/api/v1/telemetry/history")
    then some Route.telemetry_history
    else if bytes_eq path (utf8 "/api/v1/commands")
    then some Route.commands
    else if bytes_eq path (utf8 "/api/v1/commands/ack")
    then some Route.commands_ack
    else none

-- `webMux`, whose other paths are files.
unfoldable pub web_route : Bytes → Bytes → Option Route
web_route method path =
    if redirects method path
    then some Route.redirected
    else if bytes_eq path (utf8 "/healthz")
    then some Route.healthz
    else if bytes_eq path (utf8 "/api/v1/devices")
    then some Route.devices
    else if bytes_eq path (utf8 "/api/v1/telemetry/history")
    then some Route.telemetry_history
    else if bytes_eq path (utf8 "/api/v1/commands")
    then some Route.commands
    else if bytes_eq path (utf8 "/api/v1/commands/ack")
    then some Route.commands_ack
    else none

-- The request with the identifier that the middleware puts in its context.
abbrev pub identified : Bytes → Incoming → Incoming
identified id r = record r { request = record (r.request) { auth_device_id = id } }

module _ {S : Type 0} (json : Json) (out : Float64 → ℕ) (h : ApiHandler S)
    (now nanos fuel : ℕ) where
  -- The handler of a route, on a request with its device identifier.
  unfoldable pub handle_route : Route → Incoming → ApiState S → ApiState S × Reply
  handle_route Route.redirected r st = (st, moved)
  handle_route Route.healthz r st = (st, handle_health now)
  handle_route Route.telemetry r st = handle_telemetry json out h now fuel r.request st
  handle_route Route.events r st = handle_events json out h now r.request st
  handle_route Route.devices r st = (st, handle_list_devices json out h now st)
  handle_route Route.ota_download r st = (st, handle_ota_download r.request.method r.path)
  handle_route Route.telemetry_history r st =
      (st, handle_telemetry_history json out h now r.query_device_id st)
  handle_route Route.commands r st = handle_queue_command json out h now nanos r.request st
  handle_route Route.commands_ack r st = handle_ack_command json out h now r.request st

  -- A route behind the middleware.
  unfoldable pub guarded : Bool → Option Bytes → Route → Incoming → ApiState S → ApiState S × Reply
  guarded require_mtls peer route r st = elim (mtls_auth_middleware require_mtls peer) [
    | unauthorized ↦ (st, failure 401 (utf8 "UNAUTHORIZED"))
    | next_as id ↦ handle_route route (identified id r) st
  ]

  -- The edge server. The health check and the redirects are outside the middleware.
  unfoldable pub serve_edge : Bool → Option Bytes → Incoming → ApiState S → ApiState S × Reply
  serve_edge require_mtls peer r st = elim (edge_route r.request.method r.path) [
    | none ↦ (st, missing)
    | some Route.healthz ↦ handle_route Route.healthz r st
    | some Route.redirected ↦ handle_route Route.redirected r st
    | some route ↦ guarded require_mtls peer route r st
  ]

  -- The dashboard's server, on requests that have no device identifier.
  unfoldable pub serve_web : Incoming → ApiState S → ApiState S × Reply
  serve_web r st = elim (web_route r.request.method r.path) [
    | none ↦ (st, static_file r.path)
    | some route ↦ handle_route route (identified [] r) st
  ]
