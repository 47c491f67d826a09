-- ===== src/Api/Access.antt =====
-- What the two servers of server/main.go let their clients do, as its routes and the middleware of
-- server/api/middleware/mtls_auth.go put the handlers behind them.
use mathlib.Core.Option
use iot_server.Base.{
  ℕ, ◌≡◌, refl, sym, subst, true, Option, none, some, [], arith, inl, inr, Option-cases,
}
use iot_server.Base.Text.{Bytes, utf8}
use iot_server.Base.Float.{Float64}
use iot_server.Models.{OtaInfo}
use iot_server.Storage.Memory
use iot_server.Storage.Memory.{InMemoryRepository}
use iot_server.Alerting.Rules.{RuleThresholds}
use iot_server.Api.Auth.{mtls_auth_middleware}
use iot_server.Api.Requests.{
  Request, AckRequest, Json, Reply, failure, healthy, missing, moved, ack_recorded,
}
use iot_server.Api.Handlers.{
  ApiHandler, ApiState, handle_queue_command, handle_ack_command, handle_health,
}
use iot_server.Api.Effects.{memory_handler}
use iot_server.Api.Routes.{
  Incoming, Route, web_route, handle_route, identified, guarded, serve_edge, serve_web, edge_route,
}

-- The answers to a client without a certificate.
pub data IsRefusal (now : ℕ) : Reply → Type 0 where
  unauthorized : IsRefusal now (failure 401 (utf8 "UNAUTHORIZED"))
  not_found : IsRefusal now missing
  health : IsRefusal now (healthy now)
  redirect : IsRefusal now moved

module _ {S : Type 0} (json : Json) (out : Float64 → ℕ) (h : ApiHandler S)
    (now nanos fuel : ℕ) where
  guarded-refuses :
      (route : Route) (r : Incoming) (st : ApiState S)
      → guarded json out h now nanos fuel true none route r st
        ≡ (st, failure 401 (utf8 "UNAUTHORIZED"))
  unfolding guarded mtls_auth_middleware
  guarded-refuses route r st = refl

  -- While mTLS is required, a client without a certificate changes nothing on the edge server,
  -- whatever it sends to whatever path, and learns nothing but the health: every other answer is
  -- 301, 401 or 404.
  pub serve_edge-refuses :
      (r : Incoming) (st : ApiState S)
      → ((serve_edge json out h now nanos fuel true none r st).0 ≡ st)
        × IsRefusal now (serve_edge json out h now nanos fuel true none r st).1
  unfolding serve_edge guarded mtls_auth_middleware handle_route handle_health
  serve_edge-refuses r st = go (edge_route r.request.method r.path)
    where
      answer : Option Route → ApiState S × Reply
      answer found = elim found [
        | none ↦ (st, missing)
        | some Route.healthz ↦ handle_route json out h now nanos fuel Route.healthz r st
        | some Route.redirected ↦ handle_route json out h now nanos fuel Route.redirected r st
        | some route ↦ guarded json out h now nanos fuel true none route r st
      ]

      go : (found : Option Route) → ((answer found).0 ≡ st) × IsRefusal now (answer found).1
      go none = (refl, not_found)
      go (some Route.healthz) = (refl, health)
      go (some Route.redirected) = (refl, redirect)
      go (some Route.telemetry) = (refl, unauthorized)
      go (some Route.events) = (refl, unauthorized)
      go (some Route.devices) = (refl, unauthorized)
      go (some Route.ota_download) = (refl, unauthorized)
      go (some Route.telemetry_history) = (refl, unauthorized)
      go (some Route.commands) = (refl, unauthorized)
      go (some Route.commands_ack) = (refl, unauthorized)

-- What a client of the dashboard leaves alone. The commands and the sleep intervals are not in it.
pub record Reported (st st' : ApiState InMemoryRepository) : Type 0 where
  pub cells : st'.outside.store.cells ≡ st.outside.store.cells
  pub devices : st'.outside.store.devices ≡ st.outside.store.devices
  pub telemetries : st'.outside.store.telemetries ≡ st.outside.store.telemetries
  pub events : st'.outside.store.events ≡ st.outside.store.events
  pub outbox : st'.outside.outbox ≡ st.outside.outbox

Reported-refl : (st : ApiState InMemoryRepository) → Reported st st
Reported-refl st = record {
  cells = refl;
  devices = refl;
  telemetries = refl;
  events = refl;
  outbox = refl;
}

module _ (json : Json) (out : Float64 → ℕ) (ota : Option OtaInfo) (th : RuleThresholds)
    (url : Bytes) (now nanos fuel : ℕ) where
  handle_queue_command-Reported :
      (req : Request) (st : ApiState InMemoryRepository)
      → Reported st (handle_queue_command json out (memory_handler ota th url) now nanos req st).0
  unfolding handle_queue_command Memory.queue_command
  handle_queue_command-Reported req st = ground arith

  handle_ack_command-Reported :
      (req : Request) (st : ApiState InMemoryRepository)
      → Reported st (handle_ack_command json out (memory_handler ota th url) now req st).0
  unfolding handle_ack_command Memory.ack_command
  handle_ack_command-Reported req st = go (Option.bind req.body json.decode_ack)
    where
      go :
          (a : Option AckRequest)
          → Reported st
              (elim a as (λ z. ApiState InMemoryRepository × Reply) [
                | none ↦ (st, failure 400 (utf8 "INVALID_PARAM"))
                | some a ↦ (
                  record st {
                    outside = record (st.outside) {
                      store =
                          (Memory.ack_command now a.device_id a.command_id a.result
                            st.outside.store).0;
                    };
                  },
                  ack_recorded,
                )
              ]).0
      go none = Reported-refl st
      go (some a) = record {
        cells = refl;
        devices = refl;
        telemetries = refl;
        events = refl;
        outbox = refl;
      }

  handle_route-Reported :
      (route : Route) (r : Incoming) (st : ApiState InMemoryRepository)
      → web_route r.request.method r.path ≡ some route
      → Reported st (handle_route json out (memory_handler ota th url) now nanos fuel route r st).0
  unfolding handle_route web_route
  handle_route-Reported Route.healthz r st e = Reported-refl st
  handle_route-Reported Route.redirected r st e = Reported-refl st
  handle_route-Reported Route.telemetry r st e = absurd (ground (arith, e))
  handle_route-Reported Route.events r st e = absurd (ground (arith, e))
  handle_route-Reported Route.devices r st e = Reported-refl st
  handle_route-Reported Route.ota_download r st e = Reported-refl st
  handle_route-Reported Route.telemetry_history r st e = Reported-refl st
  handle_route-Reported Route.commands r st e = handle_queue_command-Reported r.request st
  handle_route-Reported Route.commands_ack r st e = handle_ack_command-Reported r.request st

  -- A client of the dashboard, who is not authenticated, changes no device, message, event or alert
  -- on the repository in memory, whatever it sends to whatever path.
  pub serve_web-Reported :
      (r : Incoming) (st : ApiState InMemoryRepository)
      → Reported st (serve_web json out (memory_handler ota th url) now nanos fuel r st).0
  unfolding serve_web
  serve_web-Reported r st = elim (Option-cases (web_route r.request.method r.path)) [
    | inl e ↦
        let file : (serve_web json out (memory_handler ota th url) now nanos fuel r st).0 ≡ st =
          rw (e, serve_web) in
        subst (λ z. Reported st z) (sym file) (Reported-refl st)
    | inr (route, e) ↦
        let handled : serve_web json out (memory_handler ota th url) now nanos fuel r st
            ≡ handle_route json out (memory_handler ota th url) now nanos fuel route
                (identified [] r) st =
          rw (e, serve_web) in
        subst (λ (z : ApiState InMemoryRepository × Reply). Reported st z.0) (sym handled)
          (handle_route-Reported route (identified [] r) st e)
  ]
