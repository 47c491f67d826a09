-- ===== src/Api/Isolation.antt =====
-- What interleaved requests of other devices leave of a device, over the repository in memory of
-- server/storage/repository.go.
use iot_server.Base.{
  ℕ, zero, suc, ◌≡◌, refl, false, Option, List, [], ◌∷◌, All, arith, Option-cases, inl, inr,
}
use iot_server.Base.Text.{Bytes, bytes_eq}
use iot_server.Base.Float.{Float64}
use iot_server.Base.Assoc.{Assoc, lookup, lookup-insert}
use iot_server.Models.{OtaInfo}
use iot_server.Storage.Memory
use iot_server.Storage.Memory.{InMemoryRepository, get_slice}
use iot_server.Storage.Memory.Heap.{IsValid, others-IsValid}
use iot_server.Storage.Memory.Devices.{save_telemetry-IsValid}
use iot_server.Alerting.Rules.{RuleThresholds}
use iot_server.Alerting.Engine.{event_of, dispatch, record_event}
use iot_server.Api.Requests.{Json, to_uint32, CommandRequest}
use iot_server.Api.Answers.{requested_sleep}
use iot_server.Api.Handlers.{ApiState, remember_sleep}
use iot_server.Api.Effects.{
  Untouched, memory_handler, Untouched-refl, Untouched-trans, save_telemetry-Untouched,
  get_slice-insert_ne, apply_request-other,
}
use iot_server.Api.Interleaved.{
  Phase, saving, alerting, reading_sleep, fetching, applying, remembering, queueing, acking,
  recording, answered, or_failure, advance, turn, turns,
}

abbrev IsOther : Bytes → Bytes → Type 0
IsOther k id = bytes_eq id k ≡ false

-- The request is not about the device `k`.
abbrev pub Spares : Bytes → Phase → Type 0
Spares k (saving p) = IsOther k p.header.device_id
Spares k (alerting p as') = IsOther k p.header.device_id
Spares k (reading_sleep p) = IsOther k p.header.device_id
Spares k (fetching p sleep) = IsOther k p.header.device_id
Spares k (applying p sleep cs cmds) = IsOther k p.header.device_id
Spares k (remembering c cmd) = IsOther k c.device_id
Spares k (queueing c cmd) = IsOther k c.device_id
Spares k (acking a) = IsOther k a.device_id
Spares k (recording e) = IsOther k e.header.device_id
Spares k (answered reply) = Unit

module _ (json : Json) (out : Float64 → ℕ) (ota : Option OtaInfo) (th : RuleThresholds)
    (url : Bytes) (k : Bytes) where
  advance-Spares :
      (now : ℕ) (ph : Phase) (st : ApiState InMemoryRepository)
      → Spares k ph
      → Spares k (advance json out (memory_handler ota th url) now ph st).1
  unfolding advance or_failure Memory.save_telemetry Memory.queue_command Memory.save_event
  advance-Spares now (saving p) st h = h
  advance-Spares now (alerting p []) st h = h
  advance-Spares now (alerting p (a ∷ as')) st h = h
  advance-Spares now (reading_sleep p) st h = h
  advance-Spares now (fetching p sleep) st h = h
  advance-Spares now (applying p sleep [] cmds) st h = tt
  advance-Spares now (applying p sleep (c ∷ more) cmds) st h = h
  advance-Spares now (remembering c cmd) st h = h
  advance-Spares now (queueing c cmd) st h = tt
  advance-Spares now (acking a) st h = tt
  advance-Spares now (recording x) st h = tt
  advance-Spares now (answered reply) st h = tt

  advance-IsValid :
      (now : ℕ) (ph : Phase) (st : ApiState InMemoryRepository)
      → IsValid st.outside.store
      → IsValid (advance json out (memory_handler ota th url) now ph st).0.outside.store
  unfolding advance dispatch record_event Memory.get_pending_commands Memory.save_event
      Memory.queue_command Memory.ack_command
  advance-IsValid now (saving p) st v = save_telemetry-IsValid st.outside.store now p v
  advance-IsValid now (alerting p []) st v = v
  advance-IsValid now (alerting p (a ∷ as')) st v = others-IsValid st.outside.store _ _ _ v
  advance-IsValid now (reading_sleep p) st v = v
  advance-IsValid now (fetching p sleep) st v = v
  advance-IsValid now (applying p sleep [] cmds) st v = v
  advance-IsValid now (applying p sleep (c ∷ more) cmds) st v = v
  advance-IsValid now (remembering c cmd) st v = v
  advance-IsValid now (queueing c cmd) st v = others-IsValid st.outside.store _ _ _ v
  advance-IsValid now (acking a) st v = others-IsValid st.outside.store _ _ _ v
  advance-IsValid now (recording x) st v = others-IsValid st.outside.store _ _ _ v
  advance-IsValid now (answered reply) st v = v

  remember_sleep-other :
      (now : ℕ) (c : CommandRequest) (m : Assoc ℕ)
      → IsOther k c.device_id
      → lookup k (remember_sleep json out (memory_handler ota th url) now c m) ≡ lookup k m
  unfolding remember_sleep
  remember_sleep-other now c m h = elim (Option-cases (requested_sleep c.action c.params)) [
    | inl e ↦ ground (arith, e)
    | inr (x, e) ↦ ground (arith, e, lookup-insert c.device_id k (to_uint32 out x) m, h)
  ]

  advance-Untouched :
      (now : ℕ) (ph : Phase) (st : ApiState InMemoryRepository)
      → Spares k ph
      → IsValid st.outside.store
      → Untouched k st (advance json out (memory_handler ota th url) now ph st).0
  unfolding advance dispatch record_event event_of Memory.get_pending_commands Memory.save_event
      Memory.queue_command Memory.ack_command
  advance-Untouched now (saving p) st h v = save_telemetry-Untouched now p k st v h
  advance-Untouched now (alerting p []) st h v = Untouched-refl k st
  advance-Untouched now (alerting p (a ∷ as')) st h v = record {
    device = unfold Memory.device_of in refl;
    telemetries = refl;
    events = get_slice-insert_ne p.header.device_id k _ st.outside.store.events h;
    commands = refl;
    sleep = refl;
  }
  advance-Untouched now (reading_sleep p) st h v = Untouched-refl k st
  advance-Untouched now (fetching p sleep) st h v = Untouched-refl k st
  advance-Untouched now (applying p sleep [] cmds) st h v = Untouched-refl k st
  advance-Untouched now (applying p sleep (c ∷ more) cmds) st h v = record {
    device = refl;
    telemetries = refl;
    events = refl;
    commands = refl;
    sleep =
        apply_request-other out p.header.device_id k (requested_sleep c.action c.params)
          (sleep, st.device_sleep_configs) h;
  }
  advance-Untouched now (remembering c cmd) st h v = record {
    device = refl;
    telemetries = refl;
    events = refl;
    commands = refl;
    sleep = remember_sleep-other now c st.device_sleep_configs h;
  }
  advance-Untouched now (queueing c cmd) st h v = record {
    device = unfold Memory.device_of in refl;
    telemetries = refl;
    events = refl;
    commands = get_slice-insert_ne c.device_id k _ st.outside.store.commands h;
    sleep = refl;
  }
  advance-Untouched now (acking a) st h v = record {
    device = unfold Memory.device_of in refl;
    telemetries = refl;
    events = refl;
    commands = get_slice-insert_ne a.device_id k _ st.outside.store.commands h;
    sleep = refl;
  }
  advance-Untouched now (recording x) st h v = record {
    device = unfold Memory.device_of in refl;
    telemetries = refl;
    events = get_slice-insert_ne x.header.device_id k _ st.outside.store.events h;
    commands = refl;
    sleep = refl;
  }
  advance-Untouched now (answered reply) st h v = Untouched-refl k st

  turn-Untouched :
      (now i : ℕ) (phs : List Phase) (st : ApiState InMemoryRepository)
      → All (Spares k) phs
      → IsValid st.outside.store
      → let x = turn json out (memory_handler ota th url) now i phs st in
        Untouched k st x.0 × All (Spares k) x.1 × IsValid x.0.outside.store
  unfolding turn
  turn-Untouched now i [] st h v = (Untouched-refl k st, h, v)
  turn-Untouched now zero (ph ∷ phs) st (h, hs) v = (
    advance-Untouched now ph st h v,
    (advance-Spares now ph st h, hs),
    advance-IsValid now ph st v,
  )
  turn-Untouched now (suc i) (ph ∷ phs) st (h, hs) v =
      let (same, others, v') = turn-Untouched now i phs st hs v in (same, (h, others), v')

  -- Requests about other devices never touch a device, however they are interleaved: not its state,
  -- its messages, its events, its commands nor its sleep interval. The repository keeps its devices
  -- apart before and after.
  pub turns-Untouched :
      (schedule : List (ℕ × ℕ)) (phs : List Phase) (st : ApiState InMemoryRepository)
      → All (Spares k) phs
      → IsValid st.outside.store
      → let x = turns json out (memory_handler ota th url) schedule phs st in
        Untouched k st x.0 × IsValid x.0.outside.store
  unfolding turns
  turns-Untouched [] phs st hs v = (Untouched-refl k st, v)
  turns-Untouched ((now, i) ∷ rest) phs st hs v =
      let x = turn json out (memory_handler ota th url) now i phs st in
      let (same, hs', v') = turn-Untouched now i phs st hs v in
      let (later, valid) = turns-Untouched rest x.1 x.0 hs' v' in
      (Untouched-trans k st x.0 _ same later, valid)
