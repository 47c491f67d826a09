-- ===== src/Start/Lifecycle.antt =====
-- When the process of server/main.go listens, and when it ends.
use iot_server.Base.{
  ℕ, ◌≡◌, ◌↔◌, refl, ◌⊎◌, inl, inr, Bool, true, false, not, none, some, ◌++◌, List, [], ◌∷◌,
  if◌then◌else◌, arith, Bool-cases, Option-cases,
}
use iot_server.Base.Text.{Bytes, utf8, bytes_eq, bytes_eq_iff}
use iot_server.Config.{
  Config, TlsLibrary, TlsConfig, no_client_cert, require_and_verify_client_cert, build_tls_config,
  Built, built, failed, TlsError, tls12, choose_repository,
}
use iot_server.Config.Modes.{build_tls_config-client_auth}
use iot_server.Start.{
  Database, create_tables, configure, migrate, new_sql_repository, Start, serving, open_repository,
  start, running, exited, Event, edge_stops, dashboard_stops, signalled, handle, live,
}

Built-cases :
    {KeyPair Pool : Type 0} (x : Built KeyPair Pool)
    → ((tls : TlsConfig KeyPair Pool) × (x ≡ built tls)) ⊎ ((e : TlsError) × (x ≡ failed e))
Built-cases (built tls) = inl (tls, refl)
Built-cases (failed e) = inr (e, refl)

module _ {W KeyPair Pool : Type 0} (db : Database W) (lib : TlsLibrary KeyPair Pool) (c : Config)
    (w : W) where
  -- The repository is the one in memory, or the database opens and its tables are made.
  abbrev pub HasDatabase : Type 0
  HasDatabase =
      (c.db_driver ≡ utf8 "memory")
      ⊎ ((db.opens c.db_driver c.db_dsn ≡ true)
          × ((db.exec create_tables (db.set_conn_max_lifetime 300 (configure db c.db_driver w))).1
              ≡ true))

  -- The key pair loads, and the file of the root CA is there and has a certificate.
  abbrev pub HasCertificates : Type 0
  HasCertificates =
      ((cert : KeyPair) × (lib.load_x509_key_pair c.server_cert c.server_key ≡ some cert))
      × ((pem : Bytes) × (pool : Pool) × (lib.read_file c.root_ca_cert ≡ some pem)
          × (lib.pool_of_pem pem ≡ some pool))

  -- The servers listen: the edge server on its port by TLS, with the certificates that its clients
  -- must have, and the dashboard.
  abbrev pub IsServing : Start KeyPair Pool → Type 0
  IsServing x =
      (tls : TlsConfig KeyPair Pool) × (x
        ≡ serving (choose_repository c)
            (record {
              addr = utf8 ":" ++ c.port;
              tls_config = some tls;
              read_timeout = 10;
              write_timeout = 10;
              idle_timeout = 60;
            })
            (record {
              addr = utf8 ":8080";
              tls_config = none;
              read_timeout = 10;
              write_timeout = 10;
              idle_timeout = 0;
            }))
      × (tls.client_auth
          ≡ (if not c.require_mtls then no_client_cert else require_and_verify_client_cert))

  opens_iff : ((open_repository db (choose_repository c) w).1 ≡ true) ↔ HasDatabase
  unfolding open_repository choose_repository new_sql_repository migrate
  opens_iff = elim (Bool-cases (bytes_eq c.db_driver (utf8 "memory"))) [
    | inl memory ↦ (
      λ h. inl ((bytes_eq_iff c.db_driver (utf8 "memory")).0 memory),
      λ h. ground (arith, memory),
    )
    | inr database ↦ (
      λ h. elim (Bool-cases (db.opens c.db_driver c.db_dsn)) [
        | inr shut ↦ absurd (ground (arith, h, database, shut))
        | inl open_ ↦ inr (open_, ground (arith, h, database, open_))
      ],
      λ h. elim h [
        | inl memory ↦
            let same = (bytes_eq_iff c.db_driver (utf8 "memory")).1 memory in
            ground (arith, database, same)
        | inr (open_, made) ↦ ground (arith, database, open_, made)
      ],
    )
  ]

  builds_iff :
      ((tls : TlsConfig KeyPair Pool) × (build_tls_config lib c ≡ built tls)) ↔ HasCertificates
  unfolding build_tls_config
  builds_iff = (
    λ (tls, e). elim (Option-cases (lib.load_x509_key_pair c.server_cert c.server_key)) [
      | inl k ↦ absurd (ground (arith, e, k))
      | inr (cert, k) ↦ elim (Option-cases (lib.read_file c.root_ca_cert)) [
        | inl f ↦ absurd (ground (arith, e, k, f))
        | inr (pem, f) ↦ elim (Option-cases (lib.pool_of_pem pem)) [
          | inl p ↦ absurd (ground (arith, e, k, f, p))
          | inr (pool, p) ↦ ((cert, k), (pem, pool, f, p))
        ]
      ]
    ],
    λ ((cert, k), (pem, pool, f, p)). (
      record {
        certificate = cert;
        client_cas = pool;
        client_auth = if not c.require_mtls then no_client_cert else require_and_verify_client_cert;
        min_version = tls12;
      },
      ground (arith, k, f, p),
    ),
  )

  -- The servers come up, with the certificates asked of the clients of the edge server exactly if
  -- mTLS is required, exactly if the repository is the one in memory or its database opens and its
  -- tables are made, and the key pair and a certificate of the root CA can be read.
  pub start-serves_iff : IsServing (start db lib c w).1 ↔ (HasDatabase × HasCertificates)
  unfolding start
  start-serves_iff = (
    λ (tls, e, auth). elim (Bool-cases (open_repository db (choose_repository c) w).1) [
      | inr shut ↦ absurd (ground (arith, e, shut))
      | inl there ↦ elim (Built-cases (build_tls_config lib c)) [
        | inl (made, is) ↦ (opens_iff.0 there, builds_iff.0 (made, is))
        | inr (error, is) ↦ absurd (ground (arith, e, there, is))
      ]
    ],
    λ (database, certificates).
        let there = opens_iff.1 database in
        let (tls, is) = builds_iff.1 certificates in
        (tls, ground (arith, there, is), build_tls_config-client_auth lib c tls is),
  )

abbrev ends : Event → Bool
ends (edge_stops closed) = not closed
ends (dashboard_stops closed) = false
ends signalled = true

-- The first event that ends the process is that the edge server fails.
pub data EdgeFails : List Event → Type 0 where
  here : {es : List Event} → EdgeFails (edge_stops false ∷ es)
  later : {e : Event} {es : List Event} → ends e ≡ false → EdgeFails es → EdgeFails (e ∷ es)

live_exited : (es : List Event) (code : ℕ) → live es (exited code) ≡ exited code
unfolding live handle
live_exited [] code = refl
live_exited (e ∷ es) code = live_exited es code

EdgeFails-at :
    (e : Event) (es : List Event)
    → EdgeFails (e ∷ es)
    → (e ≡ edge_stops false) ⊎ ((ends e ≡ false) × EdgeFails es)
EdgeFails-at e es EdgeFails.here = inl refl
EdgeFails-at e es (EdgeFails.later goes_on more) = inr (goes_on, more)

-- The process of the server fails exactly if its edge server fails before it is told to stop:
-- neither a dashboard that fails nor an edge server that is closed ends it.
pub live-fails_iff :
    (es : List Event) (edge dashboard : Bool)
    → (live es (running edge dashboard) ≡ exited 1) ↔ EdgeFails es
unfolding live handle
live-fails_iff [] edge dashboard = (λ h. absurd (ground (arith, h)), λ f. elim f [ ])
live-fails_iff (edge_stops true ∷ es) edge dashboard =
    let rest = live-fails_iff es false dashboard in
    (
      λ h. later refl (rest.0 h),
      λ f. elim (EdgeFails-at (edge_stops true) es f) [
        | inl e ↦ absurd (ground (arith, e))
        | inr (goes_on, more) ↦ rest.1 more
      ],
    )
live-fails_iff (edge_stops false ∷ es) edge dashboard = (λ h. here, λ f. live_exited es 1)
live-fails_iff (dashboard_stops closed ∷ es) edge dashboard =
    let rest = live-fails_iff es edge false in
    (
      λ h. later refl (rest.0 h),
      λ f. elim (EdgeFails-at (dashboard_stops closed) es f) [
        | inl e ↦ absurd (ground (arith, e))
        | inr (goes_on, more) ↦ rest.1 more
      ],
    )
live-fails_iff (signalled ∷ es) edge dashboard = (
  λ h. absurd (ground (arith, h, live_exited es 0)),
  λ f. elim (EdgeFails-at signalled es f) [
    | inl e ↦ absurd (ground (arith, e))
    | inr (goes_on, more) ↦ absurd (ground (arith, goes_on))
  ],
)
