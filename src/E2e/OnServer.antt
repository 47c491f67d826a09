-- ===== src/E2e/OnServer.antt =====
-- The checks of tools/test_runner/run_e2e.go on the servers of server/main.go, over any
-- repository: what they say of the state of the server, and what they leave in it.
use iot_server.Base.{◌≡◌, ◌↔◌, sym, ap, ◌∙◌, subst, none}
use iot_server.Base.Text.{utf8}
use iot_server.Models.{TelemetryPayload}
use iot_server.Models as M
use iot_server.Api.Requests.{Reply}
use iot_server.Api.Handlers.{ApiState}
use iot_server.Simulator.Environment.{HttpResponse}
use iot_server.E2e.Runner.{
  and_then, verify_command, Surroundings, DeviceState, verify, verify_devices, verify_history,
  verify_dashboard,
}
use iot_server.E2e.Replies.{judge_status-world, and_then-world}
use iot_server.E2e.Servers.{Servers, Link, with_command, IsComplete}
use iot_server.E2e.Stages.{IsVerified, Answers200, ListsHistory, command_posted, verify-none_iff}
use iot_server.E2e.Answered.{
  after_devices, after_history, after_dashboard, lists_upgraded_iff, ListsHistory-iff,
  dashboard_iff, posted_command, command_iff,
}

module _ {S : Type 0} (u : Servers S) (s : Surroundings (ApiState S))
    (render : Reply → HttpResponse) (row : M.DeviceState → DeviceState) (link : Link u s render row)
    (w : ApiState S) where
  same_1 : (verify_devices s w).0 ≡ w
  same_1 = (after_devices u s render row link w)

  same_2 : (verify_history s (verify_devices s w).0).0 ≡ w
  same_2 =
      ap (λ x. (verify_history s x).0) (after_devices u s render row link w)
      ∙ (after_history u s render row link w)

  same_3 : (verify_dashboard s (verify_history s (verify_devices s w).0).0).0 ≡ w
  same_3 = ap (λ x. (verify_dashboard s x).0) same_2 ∙ (after_dashboard u s render row link w)

  IsVerified-iff : IsVerified s w ↔ IsComplete u render w
  IsVerified-iff = (
    λ v.
        let (latest, both) = (lists_upgraded_iff u s render row link w).0 v.upgraded in
        record {
          latest = latest;
          both = both;
          messages =
              (ListsHistory-iff u s render row link w).0
                (subst (ListsHistory s) same_1 v.persisted);
          page = (dashboard_iff u s render row link w).0 (
              subst (λ x. Answers200 (s.http_client.get (utf8 "http://127.0.0.1:8080/") x)) same_2
                v.dashboard);
          queues =
              (command_iff u s render row link w).0
                (subst (λ x. Answers200 (command_posted s x)) same_3 v.command);
        },
    λ c. record {
      upgraded = (lists_upgraded_iff u s render row link w).1 (c.latest, c.both);
      persisted =
          subst (ListsHistory s) (sym same_1)
            ((ListsHistory-iff u s render row link w).1 c.messages);
      dashboard =
          subst (λ x. Answers200 (s.http_client.get (utf8 "http://127.0.0.1:8080/") x)) (sym same_2)
            ((dashboard_iff u s render row link w).1 c.page);
      command =
          subst (λ x. Answers200 (command_posted s x)) (sym same_3)
            ((command_iff u s render row link w).1 c.queues);
    },
  )

  verify-world : (verify s w).1 ≡ none → (verify s w).0 ≡ with_command u w
  unfolding verify verify_command
  verify-world pass =
      let a =
        and_then-world (verify_devices s w)
          (λ x.
            and_then (verify_history s x) (λ y. and_then (verify_dashboard s y) (verify_command s)))
          pass in
      let b =
        and_then-world (verify_history s (verify_devices s w).0)
          (λ y. and_then (verify_dashboard s y) (verify_command s)) a.1 in
      let c =
        and_then-world (verify_dashboard s (verify_history s (verify_devices s w).0).0)
          (verify_command s) b.1 in
      a.0
      ∙ b.0
      ∙ c.0
      ∙ judge_status-world _ _ _
      ∙ ap (λ x. (command_posted s x).0) same_3
      ∙ ap (λ z. z.0) (posted_command u s render row link w)

  -- On the servers, over any repository and with requests and answers that arrive and are read,
  -- the checks of the end-to-end test pass exactly if the repository lists at least two devices,
  -- all of version 1.1.0, and gives at least three messages of DEV-ESP32-001 among the last 50,
  -- the page of the dashboard has status 200, and the command is queued without an error; and then
  -- they leave in the server the command and the sleep interval that it asks for, and nothing
  -- else.
  pub verify-passes_iff :
      ((verify s w).1 ≡ none) ↔ (IsComplete u render w × ((verify s w).0 ≡ with_command u w))
  verify-passes_iff = (
    λ pass. (IsVerified-iff.0 ((verify-none_iff s w).0 pass), verify-world pass),
    λ (c, left). (verify-none_iff s w).1 (IsVerified-iff.1 c),
  )
