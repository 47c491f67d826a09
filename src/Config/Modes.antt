-- ===== src/Config/Modes.antt =====
-- The modes of mTLS: what the settings of server/config/config.go make of the edge server of
-- server/main.go.
use iot_server.Base.{
  ℕ, ◌≡◌, refl, sym, subst, ◌⊎◌, ◌↔◌, Bool, true, false, none, some, [], arith, inl, inr,
  Bool-cases, Option-cases, not, if◌then◌else◌,
}
use iot_server.Base.Text.{Bytes, utf8, bytes_eq, bytes_eq_iff}
use iot_server.Base.Float.{Float64}
use iot_server.Api.Auth.{mtls_auth_middleware}
use iot_server.Api.Requests.{Json}
use iot_server.Api.Handlers.{ApiHandler, ApiState}
use iot_server.Api.Routes.{Incoming, guarded, serve_edge}
use iot_server.Api.Access.{IsRefusal, serve_edge-refuses}
use iot_server.Config.{
  Config, System, get_env, load_config, TlsLibrary, TlsConfig, no_client_cert,
  require_and_verify_client_cert, built, build_tls_config,
}

-- The value of `REQUIRE_MTLS`.
abbrev pub require_mtls_of : System → Bytes
require_mtls_of sys = sys.getenv (utf8 "REQUIRE_MTLS")

-- mTLS is required exactly if the variable is not set, is empty, or is `true` in small letters.
pub load_config-require_mtls :
    (sys : System)
    → ((load_config sys).require_mtls ≡ true)
      ↔ ((require_mtls_of sys ≡ []) ⊎ (require_mtls_of sys ≡ utf8 "true"))
unfolding load_config get_env
load_config-require_mtls sys = (only, always)
  where
    only :
        (load_config sys).require_mtls ≡ true
        → (require_mtls_of sys ≡ []) ⊎ (require_mtls_of sys ≡ utf8 "true")
    only h = elim (Bool-cases (bytes_eq (require_mtls_of sys) [])) [
      | inl e ↦ inl ((bytes_eq_iff (require_mtls_of sys) []).0 e)
      | inr e ↦ inr ((bytes_eq_iff (require_mtls_of sys) (utf8 "true")).0 (ground (arith, h, e)))
    ]

    always :
        (require_mtls_of sys ≡ []) ⊎ (require_mtls_of sys ≡ utf8 "true")
        → (load_config sys).require_mtls ≡ true
    always (inl e) = unfold bytes_eq in rw e refl
    always (inr e) = unfold bytes_eq in rw e refl

pub build_tls_config-client_auth :
    {KeyPair Pool : Type 0} (lib : TlsLibrary KeyPair Pool) (c : Config)
    (t : TlsConfig KeyPair Pool)
    → build_tls_config lib c ≡ built t
    → t.client_auth
      ≡ (if not c.require_mtls then no_client_cert else require_and_verify_client_cert)
unfolding build_tls_config
build_tls_config-client_auth lib c t e =
    elim (Option-cases (lib.load_x509_key_pair c.server_cert c.server_key)) [
      | inl k ↦ absurd (ground (arith, e, k))
      | inr (cert, k) ↦ elim (Option-cases (lib.read_file c.root_ca_cert)) [
        | inl f ↦ absurd (ground (arith, e, k, f))
        | inr (pem, f) ↦ elim (Option-cases (lib.pool_of_pem pem)) [
          | inl p ↦ absurd (ground (arith, e, k, f, p))
          | inr (pool, p) ↦ ground (arith, e, k, f, p)
        ]
      ]
    ]

module _ {S KeyPair Pool : Type 0} (json : Json) (out : Float64 → ℕ) (h : ApiHandler S)
    (now nanos fuel : ℕ) (lib : TlsLibrary KeyPair Pool) (sys : System) (t : TlsConfig KeyPair Pool)
    (r : Incoming) (st : ApiState S) where
  -- A server that starts with `REQUIRE_MTLS` not set, empty or `true` asks every client of the edge
  -- server for a certificate that it verifies, and a client without one changes nothing and is
  -- answered 301, 401, 404 or the health.
  pub edge-requires_certificate :
      (require_mtls_of sys ≡ []) ⊎ (require_mtls_of sys ≡ utf8 "true")
      → build_tls_config lib (load_config sys) ≡ built t
      → let x = serve_edge json out h now nanos fuel (load_config sys).require_mtls none r st in
        (t.client_auth ≡ require_and_verify_client_cert) × (x.0 ≡ st) × IsRefusal now x.1
  edge-requires_certificate set e =
      let on = (load_config-require_mtls sys).1 set in
      let auth = build_tls_config-client_auth lib (load_config sys) t e in
      let (same, refused) = serve_edge-refuses json out h now nanos fuel r st in
      let IsClosed = λ (b : Bool).
        let x = serve_edge json out h now nanos fuel b none r st in
        (x.0 ≡ st) × IsRefusal now x.1 in
      let (same', refused') = subst IsClosed (sym on) (same, refused) in
      (ground (arith, on, auth), same', refused')

  -- Any other value of `REQUIRE_MTLS` opens the edge server: no certificate is asked for, and a
  -- client without one is served as the device DEV-ESP32-001 would be with its certificate.
  pub edge-opens :
      bytes_eq (require_mtls_of sys) [] ≡ false
      → bytes_eq (require_mtls_of sys) (utf8 "true") ≡ false
      → build_tls_config lib (load_config sys) ≡ built t
      → (t.client_auth ≡ no_client_cert)
        × (serve_edge json out h now nanos fuel (load_config sys).require_mtls none r st
            ≡ serve_edge json out h now nanos fuel true (some (utf8 "DEV-ESP32-001")) r st)
  unfolding load_config get_env serve_edge guarded mtls_auth_middleware
  edge-opens set other e =
      let auth = build_tls_config-client_auth lib (load_config sys) t e in
      let off : (load_config sys).require_mtls ≡ false = ground (arith, set, other) in
      (ground (arith, off, auth), rw off refl)
