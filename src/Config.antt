-- ===== src/Config.antt =====
-- `Config` of server/config/config.go. The environment, the file system and the TLS library are
-- parameters.
pub mod Modes
use iot_server.Base.{Bool, true, false, not, Option, none, some, List, [], ◌∷◌, if◌then◌else◌}
use iot_server.Base.Text.{Bytes, utf8, bytes_eq}

pub record Config : Type 0 where
  pub port : Bytes
  pub require_mtls : Bool
  pub server_cert : Bytes
  pub server_key : Bytes
  pub root_ca_cert : Bytes
  pub db_driver : Bytes
  pub db_dsn : Bytes
  pub webhook_url : Bytes

-- os.Getenv, which is empty for a variable that is not set, and whether os.Stat finds a file.
pub record System : Type 0 where
  pub getenv : Bytes → Bytes
  pub exists : Bytes → Bool

unfoldable pub get_env : System → Bytes → Bytes → Bytes
get_env sys key default_val =
    let val = sys.getenv key in if not (bytes_eq val []) then val else default_val

-- The loop of `findCertPath`.
unfoldable pub first_existing : System → List Bytes → Option Bytes
first_existing sys [] = none
first_existing sys (p ∷ ps) =
    let rest = first_existing sys ps in if sys.exists p then some p else rest

unfoldable pub or_first : List Bytes → Option Bytes → Bytes
or_first paths (some p) = p
or_first [] none = []
or_first (p ∷ ps) none = p

unfoldable pub find_cert_path : System → List Bytes → Bytes
find_cert_path sys paths = or_first paths (first_existing sys paths)

abbrev pub server_certs : List Bytes
server_certs =
    utf8 "../tools/certs/out/server.crt"
    ∷ utf8 "certs/server.crt"
    ∷ utf8 "tools/certs/out/server.crt"
    ∷ []

abbrev pub server_keys : List Bytes
server_keys =
    utf8 "../tools/certs/out/server.key"
    ∷ utf8 "certs/server.key"
    ∷ utf8 "tools/certs/out/server.key"
    ∷ []

abbrev pub root_ca_certs : List Bytes
root_ca_certs =
    utf8 "../tools/certs/out/ca.crt" ∷ utf8 "certs/ca.crt" ∷ utf8 "tools/certs/out/ca.crt" ∷ []

unfoldable pub load_config : System → Config
load_config sys = record {
  port = get_env sys (utf8 "PORT") (utf8 "8443");
  require_mtls = bytes_eq (get_env sys (utf8 "REQUIRE_MTLS") (utf8 "true")) (utf8 "true");
  server_cert = get_env sys (utf8 "SERVER_CERT") (find_cert_path sys server_certs);
  server_key = get_env sys (utf8 "SERVER_KEY") (find_cert_path sys server_keys);
  root_ca_cert = get_env sys (utf8 "ROOT_CA_CERT") (find_cert_path sys root_ca_certs);
  db_driver = get_env sys (utf8 "DB_DRIVER") (utf8 "sqlite");
  db_dsn = get_env sys (utf8 "DB_DSN") (utf8 "iot_platform.db");
  webhook_url = get_env sys (utf8 "WEBHOOK_URL") [];
}

-- tls.LoadX509KeyPair, os.ReadFile and AppendCertsFromPEM on an empty pool: `none` is a failure.
pub record TlsLibrary (KeyPair Pool : Type 0) : Type 0 where
  pub load_x509_key_pair : Bytes → Bytes → Option KeyPair
  pub read_file : Bytes → Option Bytes
  pub pool_of_pem : Bytes → Option Pool

-- tls.NoClientCert and tls.RequireAndVerifyClientCert.
pub data ClientAuth : Type 0 where
  no_client_cert : ClientAuth
  require_and_verify_client_cert : ClientAuth

-- tls.VersionTLS12 and the rest.
pub data TlsVersion : Type 0 where
  tls10 tls11 tls12 tls13 : TlsVersion

pub record TlsConfig (KeyPair Pool : Type 0) : Type 0 where
  pub certificate : KeyPair
  pub client_cas : Pool
  pub client_auth : ClientAuth
  pub min_version : TlsVersion

-- The errors of `BuildTLSConfig`.
pub data TlsError : Type 0 where
  no_server_keypair : TlsError
  no_root_ca : TlsError
  malformed_root_ca : TlsError

pub data Built (KeyPair Pool : Type 0) : Type 0 where
  built : TlsConfig KeyPair Pool → Built KeyPair Pool
  failed : TlsError → Built KeyPair Pool

unfoldable pub build_tls_config :
    {KeyPair Pool : Type 0} → TlsLibrary KeyPair Pool → Config → Built KeyPair Pool
build_tls_config lib c = elim (lib.load_x509_key_pair c.server_cert c.server_key) [
  | none ↦ failed no_server_keypair
  | some cert ↦ elim (lib.read_file c.root_ca_cert) [
    | none ↦ failed no_root_ca
    | some ca_cert_pem ↦ elim (lib.pool_of_pem ca_cert_pem) [
      | none ↦ failed malformed_root_ca
      | some ca_pool ↦ built (record {
        certificate = cert;
        client_cas = ca_pool;
        client_auth = if not c.require_mtls then no_client_cert else require_and_verify_client_cert;
        min_version = tls12;
      })
    ]
  ]
]

-- The repository that `main` makes of it, the SQL one by its driver and its data source.
pub data RepositoryChoice : Type 0 where
  in_memory : RepositoryChoice
  sql : Bytes → Bytes → RepositoryChoice

unfoldable pub choose_repository : Config → RepositoryChoice
choose_repository c =
    if bytes_eq c.db_driver (utf8 "memory") then in_memory else sql c.db_driver c.db_dsn
