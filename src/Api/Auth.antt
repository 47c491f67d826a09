-- ===== src/Api/Auth.antt =====
-- `MTLSAuthMiddleware` of server/api/middleware/mtls_auth.go. What the handlers take from the
-- context is the device identifier; the certificate itself is used by none.
use iot_server.Base.{Bool, Option, none, some, if◌then◌else◌}
use iot_server.Base.Text.{Bytes, utf8}

-- The answer 401, or the call of the next handler with an authenticated device identifier.
pub data Auth : Type 0 where
  unauthorized : Auth
  next_as : Bytes → Auth

-- The argument is the common name of the first peer certificate: `none` if the connection has no
-- TLS state or the client sent no certificate.
unfoldable pub mtls_auth_middleware : Bool → Option Bytes → Auth
mtls_auth_middleware require_mtls none =
    if require_mtls then unauthorized else next_as (utf8 "DEV-ESP32-001")
mtls_auth_middleware require_mtls (some common_name) = next_as common_name
