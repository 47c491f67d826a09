-- ===== src/Tests/Start.antt =====
-- The theorems on the start of the server at concrete inputs.
use iot_server.Base.{ℕ, ◌+◌, ◌≡◌, ◌↔◌, true, false, some, List, [], ◌∷◌}
use iot_server.Base.Text.{Bytes, utf8}
use iot_server.Config.{Config, TlsLibrary}
use iot_server.Start.{Database, start, running, exited, Event, edge_stops, dashboard_stops, live}
use iot_server.Start.Lifecycle.{
  HasDatabase, HasCertificates, IsServing, EdgeFails, start-serves_iff, live-fails_iff,
}

-- What is outside is the number of statements.
abbrev database : Database ℕ
database = record {
  opens = λ driver dsn. true;
  set_max_open_conns = λ n w. w;
  set_max_idle_conns = λ n w. w;
  set_conn_max_lifetime = λ n w. w;
  exec = λ s w. (w + 1, true);
  close = λ w. w;
}

abbrev library : TlsLibrary Bytes Bytes
library = record {
  load_x509_key_pair = λ cert key. some cert;
  read_file = λ path. some path;
  pool_of_pem = λ pem. some pem;
}

abbrev config : Config
config = record {
  port = utf8 "8443";
  require_mtls = true;
  server_cert = utf8 "server.crt";
  server_key = utf8 "server.key";
  root_ca_cert = utf8 "ca.crt";
  db_driver = utf8 "sqlite";
  db_dsn = utf8 "iot_platform.db";
  webhook_url = [];
}

start-serves_iff_example :
    IsServing database library config 0 (start database library config 0).1
    ↔ (HasDatabase database library config 0 × HasCertificates database library config 0)
start-serves_iff_example = start-serves_iff database library config 0

abbrev events : List Event
events = dashboard_stops false ∷ edge_stops false ∷ []

live-fails_iff_example : (live events (running true true) ≡ exited 1) ↔ EdgeFails events
live-fails_iff_example = live-fails_iff events true true
