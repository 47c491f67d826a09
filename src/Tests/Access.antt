-- ===== src/Tests/Access.antt =====
-- The theorems on the two servers, the settings and the webhook at concrete requests.
use iot_server.Base.{ℕ, ◌≡◌, refl, inl, true, false, none, some, []}
use iot_server.Base.Text.{Bytes, utf8, bytes_eq}
use iot_server.Alerting.Rules.{AlertEvent, default_thresholds, high_temperature}
use iot_server.Alerting.Webhook.{WebhookSurroundings}
use iot_server.Api.Effects.{memory_handler}
use iot_server.Api.Routes.{Incoming, serve_edge, serve_web}
use iot_server.Api.Access.{IsRefusal, Reported, serve_web-Reported}
use iot_server.Config.{
  System, get_env, find_cert_path, first_existing, or_first, load_config, TlsLibrary, TlsConfig,
  no_client_cert, require_and_verify_client_cert, tls12, build_tls_config,
}
use iot_server.Config.Modes.{edge-requires_certificate, edge-opens}
use iot_server.Tests.Samples.{reading}
use iot_server.Tests.Server.{webhook, fixed_json, no_range, telemetry_request, state}

abbrev telemetry : Incoming
telemetry = record {
  path = utf8 "/api/v1/telemetry";
  query_device_id = [];
  request = telemetry_request;
}

abbrev command : Incoming
command = record {
  path = utf8 "/api/v1/commands";
  query_device_id = [];
  request = telemetry_request;
}

serve_web-Reported_example :
    Reported state
      (serve_web fixed_json no_range
        (memory_handler none default_thresholds webhook)
        60
        777
        200
        command
        state).0
serve_web-Reported_example =
    serve_web-Reported fixed_json no_range none default_thresholds webhook 60 777 200 command state

-- An environment without settings, and one in which mTLS is switched off by a wrong word.
abbrev bare : System
bare = record { getenv = λ k. []; exists = λ p. false }

abbrev misspelt : System
misspelt = record { getenv = λ k. utf8 "yes"; exists = λ p. false }

-- Files are their own contents.
abbrev library : TlsLibrary Bytes Bytes
library = record {
  load_x509_key_pair = λ cert key. some cert;
  read_file = λ p. some p;
  pool_of_pem = λ pem. some pem;
}

abbrev closed : TlsConfig Bytes Bytes
closed = record {
  certificate = utf8 "../tools/certs/out/server.crt";
  client_cas = utf8 "../tools/certs/out/ca.crt";
  client_auth = require_and_verify_client_cert;
  min_version = tls12;
}

abbrev open_to_all : TlsConfig Bytes Bytes
open_to_all = record {
  certificate = utf8 "yes";
  client_cas = utf8 "yes";
  client_auth = no_client_cert;
  min_version = tls12;
}

edge-requires_certificate_example :
    let x =
      serve_edge fixed_json no_range
        (memory_handler none default_thresholds webhook)
        60
        777
        200
        (load_config bare).require_mtls
        none
        telemetry
        state in
    (closed.client_auth ≡ require_and_verify_client_cert) × (x.0 ≡ state) × IsRefusal 60 x.1
unfolding build_tls_config load_config get_env find_cert_path first_existing or_first bytes_eq
edge-requires_certificate_example =
    edge-requires_certificate fixed_json no_range (memory_handler none default_thresholds webhook)
      60 777 200 library bare closed telemetry state (inl refl) refl

edge-opens_example :
    (open_to_all.client_auth ≡ no_client_cert)
    × (serve_edge fixed_json no_range
          (memory_handler none default_thresholds webhook)
          60
          777
          200
          (load_config misspelt).require_mtls
          none
          telemetry
          state
        ≡ serve_edge fixed_json no_range
            (memory_handler none default_thresholds webhook)
            60
            777
            200
            true
            (some (utf8 "DEV-ESP32-001"))
            telemetry
            state)
unfolding build_tls_config load_config get_env find_cert_path first_existing or_first bytes_eq
edge-opens_example =
    edge-opens fixed_json no_range (memory_handler none default_thresholds webhook) 60 777 200
      library misspelt open_to_all telemetry state refl refl refl

-- A webhook that counts its posts and answers 204.
abbrev counting : WebhookSurroundings ℕ
counting = record {
  marshal = λ p. some p.text;
  is_url = λ u. true;
  rfc3339 = λ t. utf8 "2026-01-01T00:00:00Z";
  do_post = λ url kind body n. (1, some 204);
}

abbrev alert : AlertEvent
alert = high_temperature default_thresholds 50 reading
