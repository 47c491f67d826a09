-- ===== src/Api/Security.antt =====
-- Whose data a telemetry request can change: server/api/middleware/mtls_auth.go in front of
-- `HandleTelemetry` of server/api/handlers/telemetry_handler.go, as server/main.go routes them,
-- over the repository in memory.
use iot_server.Base.{
  ℕ, ◌≡◌, refl, sym, subst, ◌⊎◌, Bool, true, false, Option, some, [], arith, inl, inr, Bool-cases,
  Option-cases,
}
use iot_server.Base.Text.{Bytes, utf8, bytes_eq, bytes_eq_iff}
use iot_server.Base.Float.{Float64}
use iot_server.Models.{TelemetryPayload, OtaInfo}
use iot_server.Storage.Memory
use iot_server.Storage.Memory.{
  InMemoryRepository, memory_repository, get_slice, device_of, find_or_create,
}
use iot_server.Storage.Memory.Heap.{IsValid}
use iot_server.Alerting.Rules.{RuleThresholds}
use iot_server.Api.Auth.{unauthorized, next_as, mtls_auth_middleware}
use iot_server.Api.Requests.{Request, Json, Reply, failure}
use iot_server.Api.Handlers.{ApiHandler, ApiState, respond, accept, handle_telemetry}
use iot_server.Api.Answers.{
  Decoded, payload, decode_body, malformed, decoder_panics, decoder_runs_on,
}
use iot_server.Api.Effects.{
  Untouched, memory_handler, Untouched-refl, Untouched-trans, save_telemetry-Untouched,
  respond-Untouched,
}

-- The route `/api/v1/telemetry` of the edge server.
unfoldable pub serve_telemetry :
    {S : Type 0}
    → Json
    → (Float64 → ℕ)
    → ApiHandler S
    → ℕ
    → ℕ
    → Bool
    → Option Bytes
    → Request
    → ApiState S
    → ApiState S × Reply
serve_telemetry json out h now fuel require_mtls peer req st =
    elim (mtls_auth_middleware require_mtls peer) [
      | unauthorized ↦ (st, failure 401 (utf8 "UNAUTHORIZED"))
      | next_as id ↦ handle_telemetry json out h now fuel (record req { auth_device_id = id }) st
    ]

-- A request changes nothing, or comes to `accept` on the message of its body.
handle_telemetry-cases :
    {S : Type 0} (json : Json) (out : Float64 → ℕ) (h : ApiHandler S) (now fuel : ℕ) (req : Request)
    (st : ApiState S)
    → ((handle_telemetry json out h now fuel req st).0 ≡ st)
      ⊎ ((p : TelemetryPayload) × (handle_telemetry json out h now fuel req st
            ≡ accept json out h now req.auth_device_id p st))
unfolding handle_telemetry accept
handle_telemetry-cases json out h now fuel req st =
    elim (Bool-cases (bytes_eq req.method (utf8 "POST"))) [
      | inr e ↦ inl (rw (e, handle_telemetry))
      | inl e ↦ elim (Option-cases req.body) [
        | inl b ↦ inl (rw (e, b, handle_telemetry))
        | inr (body, b) ↦ behind e body b (decode_body json fuel req.content_type body) refl
      ]
    ]
  where
    behind :
        bytes_eq req.method (utf8 "POST") ≡ true
        → (body : Bytes) → req.body ≡ some body
        → (d : Decoded) → decode_body json fuel req.content_type body ≡ d
        → ((handle_telemetry json out h now fuel req st).0 ≡ st)
          ⊎ ((p : TelemetryPayload) × (handle_telemetry json out h now fuel req st
                ≡ accept json out h now req.auth_device_id p st))
    behind e body b (payload p) d = inr (p, rw (e, b, d, handle_telemetry))
    behind e body b malformed d = inl (rw (e, b, d, handle_telemetry))
    behind e body b decoder_panics d = inl (rw (e, b, d, handle_telemetry))
    behind e body b decoder_runs_on d = inl (rw (e, b, d, handle_telemetry))

module _ (json : Json) (out : Float64 → ℕ) (ota : Option OtaInfo) (th : RuleThresholds)
    (url : Bytes) (now : ℕ) (k : Bytes) where
  -- The reply does not matter to what is changed.
  abbrev Leaves : ApiState InMemoryRepository → ApiState InMemoryRepository × Reply → Type 0
  Leaves st result = Untouched k st result.0

  accept-Untouched :
      (id : Bytes) (p : TelemetryPayload) (st : ApiState InMemoryRepository)
      → IsValid st.outside.store
      → bytes_eq id [] ≡ false
      → bytes_eq id k ≡ false
      → Leaves st (accept json out (memory_handler ota th url) now id p st)
  unfolding accept Memory.save_telemetry
  accept-Untouched id p st v known other = elim (Bool-cases (bytes_eq p.header.device_id id)) [
    | inr e ↦
        let refused : accept json out (memory_handler ota th url) now id p st
            ≡ (st, failure 403 (utf8 "UNAUTHORIZED")) =
          ground (arith, known, e) in
        subst (λ z. Leaves st z) (sym refused) (Untouched-refl k st)
    | inl e ↦
        let apart =
          subst (λ z. bytes_eq z k ≡ false) (sym ((bytes_eq_iff p.header.device_id id).0 e))
            other in
        let st' : ApiState InMemoryRepository = record st {
          outside = record (st.outside) {
            store = (Memory.save_telemetry now p st.outside.store).0;
          };
        } in
        let goes_on : accept json out (memory_handler ota th url) now id p st
            ≡ respond json out (memory_handler ota th url) now p st' =
          ground (arith, known, e) in
        subst (λ z. Leaves st z) (sym goes_on)
          (Untouched-trans k st st' _ (save_telemetry-Untouched now p k st v apart)
            (respond-Untouched json out ota th url now k p st' apart))
  ]

  -- A client whose certificate names one device, by a common name that is not empty, changes
  -- nothing that the server holds for another device `k`, whatever it sends to the telemetry route:
  -- not the device's state, its messages, its events, its commands nor its sleep interval. The
  -- repository in memory keeps its devices apart.
  pub serve_telemetry-Untouched :
      (fuel : ℕ) (require_mtls : Bool) (common_name : Bytes) (req : Request)
      (st : ApiState InMemoryRepository)
      → IsValid st.outside.store
      → bytes_eq common_name [] ≡ false
      → bytes_eq common_name k ≡ false
      → Untouched k st
          (serve_telemetry json out
            (memory_handler ota th url)
            now
            fuel
            require_mtls
            (some common_name)
            req
            st).0
  unfolding serve_telemetry mtls_auth_middleware
  serve_telemetry-Untouched fuel require_mtls common_name req st v known other =
      let req' = record req { auth_device_id = common_name } in
      elim (handle_telemetry-cases json out (memory_handler ota th url) now fuel req' st) [
        | inl same ↦ subst (λ z. Untouched k st z) (sym same) (Untouched-refl k st)
        | inr (p, e) ↦
            subst (λ z. Leaves st z) (sym e) (accept-Untouched common_name p st v known other)
      ]
