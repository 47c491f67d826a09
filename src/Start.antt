-- ===== src/Start.antt =====
-- How server/main.go comes up and ends, with `NewSQLRepository` of
-- server/storage/sql_repository.go. The log is left out. database/sql, the TLS library, and when a
-- server stops are parameters.
pub mod Lifecycle
use iot_server.Base.{
  ℕ, ◌*◌, Bool, true, false, Option, none, some, List, [], ◌∷◌, ◌++◌, if◌then◌else◌,
}
use iot_server.Base.Text.{Bytes, utf8, bytes_eq}
use iot_server.Config.{
  Config, TlsLibrary, TlsConfig, Built, built, failed, build_tls_config, RepositoryChoice,
  in_memory, sql, choose_repository,
}

-- The statements that are executed on a database when it is opened.
pub data Statement : Type 0 where
  journal_mode_wal busy_timeout_5000 synchronous_normal create_tables add_interval_column :
      Statement

-- database/sql over what is outside: whether sql.Open succeeds, the settings of the connections, a
-- statement with its success, and Close. A lifetime is in seconds.
pub record Database (W : Type 0) : Type 0 where
  pub opens : Bytes → Bytes → Bool
  pub set_max_open_conns : ℕ → W → W
  pub set_max_idle_conns : ℕ → W → W
  pub set_conn_max_lifetime : ℕ → W → W
  pub exec : Statement → W → W × Bool
  pub close : W → W

pub data Opened : Type 0 where
  opened not_opened not_migrated : Opened

module _ {W : Type 0} (db : Database W) where
  -- The settings of the connections. The results of the PRAGMAs are dropped.
  unfoldable pub configure : Bytes → W → W
  configure driver_name w =
      if bytes_eq driver_name (utf8 "sqlite")
      then (let w1 = (db.exec journal_mode_wal (db.set_max_open_conns 1 w)).0 in
          let w2 = (db.exec busy_timeout_5000 w1).0 in (db.exec synchronous_normal w2).0)
      else db.set_max_idle_conns 5 (db.set_max_open_conns 25 w)

  -- The result of adding the column is dropped.
  unfoldable pub migrate : W → W × Bool
  migrate w =
      let (w', done) = db.exec create_tables w in
      if done then ((db.exec add_interval_column w').0, true) else (w', false)

  unfoldable pub new_sql_repository : Bytes → Bytes → W → W × Opened
  new_sql_repository driver_name dsn w =
      if db.opens driver_name dsn
      then (let (w', migrated) =
            migrate (db.set_conn_max_lifetime (5 * 60) (configure driver_name w)) in
          if migrated then (w', opened) else (db.close w', not_migrated))
      else (w, not_opened)

-- http.Server, its times in seconds; one that is not set is 0.
pub record HttpServer (KeyPair Pool : Type 0) : Type 0 where
  pub addr : Bytes
  pub tls_config : Option (TlsConfig KeyPair Pool)
  pub read_timeout : ℕ
  pub write_timeout : ℕ
  pub idle_timeout : ℕ

-- How `main` comes up: the servers that it starts with their repository, or its log.Fatalf.
pub data Start (KeyPair Pool : Type 0) : Type 0 where
  serving :
      RepositoryChoice → HttpServer KeyPair Pool → HttpServer KeyPair Pool → Start KeyPair Pool
  no_database : Start KeyPair Pool
  no_tls : Start KeyPair Pool

unfoldable pub open_repository : {W : Type 0} → Database W → RepositoryChoice → W → W × Bool
open_repository db in_memory w = (w, true)
open_repository db (sql driver dsn) w =
    let (w', result) = new_sql_repository db driver dsn w in
    elim result [ opened ↦ (w', true) | not_opened ↦ (w', false) | not_migrated ↦ (w', false) ]

abbrev pub edge_server :
    {KeyPair Pool : Type 0} → Config → TlsConfig KeyPair Pool → HttpServer KeyPair Pool
edge_server c tls = record {
  addr = utf8 ":" ++ c.port;
  tls_config = some tls;
  read_timeout = 10;
  write_timeout = 10;
  idle_timeout = 60;
}

abbrev pub dashboard_server : {KeyPair Pool : Type 0} → HttpServer KeyPair Pool
dashboard_server = record {
  addr = utf8 ":8080";
  tls_config = none;
  read_timeout = 10;
  write_timeout = 10;
  idle_timeout = 0;
}

unfoldable pub start :
    {W KeyPair Pool : Type 0}
    → Database W
    → TlsLibrary KeyPair Pool
    → Config
    → W
    → W × Start KeyPair Pool
start db lib c w =
    let choice = choose_repository c in
    let (w', there) = open_repository db choice w in
    if there
    then elim (build_tls_config lib c) [
      | built tls ↦ (w', serving choice (edge_server c tls) dashboard_server)
      | failed e ↦ (w', no_tls)
    ]
    else (w', no_database)

-- The process from then on: whether each of its servers listens, or its exit code.
pub data Process : Type 0 where
  running : Bool → Bool → Process
  exited : ℕ → Process

-- A server stops listening, by http.ErrServerClosed or by another error; or the process is told to
-- stop, by an interrupt or SIGTERM. Both servers are shut down then, for at most 5 seconds,
-- whatever comes of it.
pub data Event : Type 0 where
  edge_stops : Bool → Event
  dashboard_stops : Bool → Event
  signalled : Event

unfoldable pub handle : Event → Process → Process
handle _ (exited code) = exited code
handle (edge_stops true) (running edge dashboard) = running false dashboard
handle (edge_stops false) (running edge dashboard) = exited 1
handle (dashboard_stops closed) (running edge dashboard) = running edge false
handle signalled (running edge dashboard) = exited 0

unfoldable pub live : List Event → Process → Process
live [] p = p
live (e ∷ es) p = live es (handle e p)
