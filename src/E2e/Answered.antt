-- ===== src/E2e/Answered.antt =====
-- What each request of the checks of tools/test_runner/run_e2e.go gets from the servers of
-- server/main.go.
use mathlib.Core.Option
use iot_server.Base.{
  ℕ, ◌≤◌, ◌≡◌, ◌↔◌, refl, sym, ap, ◌∙◌, subst, Option, none, some, List, ◌++◌, length, map, All,
  arith,
}
use iot_server.Base.Text.{utf8, bytes_eq, digits}
use iot_server.Base.Int.{pos}
use iot_server.Base.Assoc.{Assoc, insert}
use iot_server.Base.Float.{ltb_float}
use iot_server.Models.{TelemetryPayload}
use iot_server.Models as M
use iot_server.Storage.Interface.{StorageError, Result, ok, err}
use iot_server.Api.Requests.{
  to_uint32, lookup_entry, sleep_param, Reply, devices, history, queued, failure, static_file,
}
use iot_server.Api.Handlers.{
  ApiState, handle_telemetry_history, handle_queue_command, remember_sleep,
}
use iot_server.Api.Routes.{serve_web, web_route, handle_route}
use iot_server.Simulator.Environment.{HttpResponse}
use iot_server.Simulator.Link.{posted}
use iot_server.E2e.Runner.{
  Surroundings, DeviceState, command_payload, verify_devices, verify_history, verify_dashboard,
}
use iot_server.E2e.Replies.{
  command, IsLatest, length-map, judge_body-world, judge_status-world, All-IsUpgraded-map,
}
use iot_server.E2e.Servers.{
  Servers, web, Link, edge-devices, edge-history, web-dashboard, queueing, with_command,
  ten_seconds,
}
use iot_server.E2e.Stages.{IsUpgraded, Answers200, ListsUpgraded, ListsHistory, command_posted}

module _ {S : Type 0} (u : Servers S) (s : Surroundings (ApiState S))
    (render : Reply → HttpResponse) (row : M.DeviceState → DeviceState) (link : Link u s render row)
    (w : ApiState S) where
  pub after_devices : (verify_devices s w).0 ≡ w
  unfolding verify_devices
  after_devices =
      judge_body-world _ _ _ _ _
      ∙ ap (λ z. z.0) (link.gets_devices w)
      ∙ ap (λ z. z.0) (edge-devices u w)

  pub after_history : (verify_history s w).0 ≡ w
  unfolding verify_history
  after_history =
      judge_body-world _ _ _ _ _
      ∙ ap (λ z. z.0) (link.gets_history w)
      ∙ ap (λ z. z.0) (edge-history u w)

  pub after_dashboard : (verify_dashboard s w).0 ≡ w
  unfolding verify_dashboard
  after_dashboard =
      judge_status-world _ _ _
      ∙ ap (λ z. z.0) (link.gets_dashboard w)
      ∙ ap (λ z. z.0) (web-dashboard u w)

  pub got_devices :
      (s.mtls_client.get (utf8 "https://127.0.0.1:8443/api/v1/devices") w).1
      ≡ some (render (devices (u.handler.repo.list_devices w.outside.store)))
  got_devices = ap (λ z. z.1) (link.gets_devices w) ∙ ap (λ z. some (render z.1)) (edge-devices u w)

  pub lists_upgraded_iff : ListsUpgraded s w ↔ (
      All IsLatest (u.handler.repo.list_devices w.outside.store)
      × (2 ≤ length (u.handler.repo.list_devices w.outside.store)))
  lists_upgraded_iff =
      let ds = u.handler.repo.list_devices w.outside.store in
      let versions = All-IsUpgraded-map row link.keeps_version ds in
      let many = length-map row ds in
      (
        λ (r, rows, got, is_read, (upgraded, two)).
            let same : rows ≡ map row ds =
              ground (arith, got, is_read, got_devices, link.reads_devices ds) in
            (
              versions.0 (subst (All IsUpgraded) same upgraded),
              subst (λ n. 2 ≤ n) (ap length same ∙ many) two,
            ),
        λ (latest, two). (
          render (devices ds),
          map row ds,
          got_devices,
          link.reads_devices ds,
          (versions.1 latest, subst (λ n. 2 ≤ n) (sym many) two),
        ),
      )

  pub got_history :
      (s.mtls_client.get
        (utf8 "https://127.0.0.1:8443/api/v1/telemetry/history?device_id=DEV-ESP32-001")
        w).1
      ≡ some
          (render (handle_telemetry_history u.json u.out u.handler u.now (utf8 "DEV-ESP32-001") w))
  got_history = ap (λ z. z.1) (link.gets_history w) ∙ ap (λ z. some (render z.1)) (edge-history u w)

  pub ListsHistory-iff : ListsHistory s w ↔ (
      (ms : List TelemetryPayload) × (u.handler.repo.get_telemetry_history
          (utf8 "DEV-ESP32-001")
          (pos 50)
          w.outside.store
        ≡ ok ms)
      × (3 ≤ length ms))
  unfolding handle_telemetry_history bytes_eq
  ListsHistory-iff =
      go (u.handler.repo.get_telemetry_history (utf8 "DEV-ESP32-001") (pos 50) w.outside.store) refl
    where
      go :
          (x : Result (List TelemetryPayload))
          → u.handler.repo.get_telemetry_history (utf8 "DEV-ESP32-001") (pos 50) w.outside.store ≡ x
          → ListsHistory s w ↔ ((ms : List TelemetryPayload) × (x ≡ ok ms) × (3 ≤ length ms))
      go (err e) read =
          let nothing = link.reads_failure 500 (utf8 "ERROR") in
          (
            λ (r, rs, got, is_read, many).
                absurd (ground (arith, got, is_read, got_history, read, nothing)),
            λ (ms, found, many). absurd (ground (arith, found)),
          )
      go (ok messages) read =
          let (rows, is_rows, same) = link.reads_history messages in
          let told : (s.mtls_client.get
                (utf8 "https://127.0.0.1:8443/api/v1/telemetry/history?device_id=DEV-ESP32-001")
                w).1
              ≡ some (render (history messages)) =
            ground (arith, got_history, read) in
          (
            λ (r, rs, got, is_read, many).
                let e : rs ≡ rows = ground (arith, got, is_read, told, is_rows) in
                (messages, refl, subst (λ n. 3 ≤ n) (ap length e ∙ same) many),
            λ (ms, found, many).
                let e : messages ≡ ms = ground (arith, found) in
                (
                  render (history messages),
                  rows,
                  told,
                  is_rows,
                  subst (λ n. 3 ≤ n) (ap length (sym e) ∙ sym same) many,
                ),
          )

  pub dashboard_iff :
      Answers200 (s.http_client.get (utf8 "http://127.0.0.1:8080/") w)
      ↔ ((render (static_file (utf8 "/"))).status_code ≡ 200)
  dashboard_iff =
      let got : (s.http_client.get (utf8 "http://127.0.0.1:8080/") w).1
          ≡ some (render (static_file (utf8 "/"))) =
        ap (λ z. z.1) (link.gets_dashboard w) ∙ ap (λ z. some (render z.1)) (web-dashboard u w) in
      (
        λ (r, e, good). ground (arith, e, good, got),
        λ good. (render (static_file (utf8 "/")), got, good),
      )

  abbrev answer_to_command : Option StorageError → Reply
  answer_to_command (some e) = failure 500 (utf8 "ERROR")
  answer_to_command none =
      queued (utf8 "cmd-" ++ digits u.nanos) (utf8 "DEV-ESP32-001") (utf8 "CONFIG_UPDATE")

  -- The server keeps the interval of the command.
  remember_sleep-ten_seconds :
      (configs : Assoc ℕ)
      → remember_sleep u.json u.out u.handler u.now (command ten_seconds) configs
        ≡ insert (utf8 "DEV-ESP32-001") 10 configs
  unfolding remember_sleep sleep_param to_uint32 bytes_eq insert lookup_entry ltb_float
  remember_sleep-ten_seconds configs = refl

  pub web-command :
      let x = web u (posted (utf8 "/api/v1/commands") (s.marshal_command command_payload)) w in
      (x.0 ≡ with_command u w) × (x.1 ≡ answer_to_command (queueing u w.outside.store).1)
  unfolding serve_web web_route handle_route handle_queue_command bytes_eq Option.bind
  web-command =
      ground (arith, link.reads_command, remember_sleep-ten_seconds w.device_sleep_configs)

  pub posted_command :
      command_posted s w
      ≡ (with_command u w, some (render (answer_to_command (queueing u w.outside.store).1)))
  posted_command =
      let (kept, told) = web-command in
      link.posts_command w ∙ (λ i. (kept i, some (render (told i))))

  pub command_iff : Answers200 (command_posted s w) ↔ ((queueing u w.outside.store).1 ≡ none)
  command_iff = go (queueing u w.outside.store).1 refl
    where
      go :
          (x : Option StorageError)
          → (queueing u w.outside.store).1 ≡ x
          → Answers200 (command_posted s w) ↔ (x ≡ none)
      go (some e) is =
          let failing = link.fails 500 (utf8 "ERROR") in
          let told : (command_posted s w).1 ≡ some (render (failure 500 (utf8 "ERROR"))) =
            ap (λ z. z.1) posted_command ∙ ap (λ z. some (render (answer_to_command z))) is in
          (
            λ (r, got, good). absurd (ground (arith, got, good, failing, told)),
            λ e. absurd (ground arith),
          )
      go none is =
          let good =
            link.queues (utf8 "cmd-" ++ digits u.nanos) (utf8 "DEV-ESP32-001")
              (utf8 "CONFIG_UPDATE") in
          let told : (command_posted s w).1 ≡ some (render (answer_to_command none)) =
            ap (λ z. z.1) posted_command ∙ ap (λ z. some (render (answer_to_command z))) is in
          (λ a. refl, λ e. (render (answer_to_command none), told, good))
