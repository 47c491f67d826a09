-- ===== src/Simulator/Ends.antt =====
-- When `Run` of tools/simulator/main.go ends.
use iot_server.Base.{
  ℕ, zero, suc, ◌+◌, ◌≤◌, ◌<◌, ◌≡◌, refl, ap, ◌∙◌, false, none, some, arith, ◌++◌,
}
use iot_server.Base.Text.{Bytes, utf8}
use iot_server.Simulator.Environment.{HttpResponse, Surroundings}
use iot_server.Simulator.Device.{
  SimulatedDevice, stopped, goes_on, post_attempts, settle, prepare, round, run,
}

module _ {W : Type 0} (s : Surroundings W) where
  -- Every request is answered with status 200.
  abbrev pub IsAnswered : Type 0
  IsAnswered =
      (url kind body : Bytes) (w : W)
      → (r : HttpResponse) × ((s.client.post url kind body w).1 ≡ some r) × (r.status_code ≡ 200)

  -- No request is answered.
  abbrev pub IsUnreachable : Type 0
  IsUnreachable = (url kind body : Bytes) (w : W) → (s.client.post url kind body w).1 ≡ none

  -- The context is never done.
  abbrev pub IsRunning : Type 0
  IsRunning = (w : W) → s.done w ≡ false

  post_attempts-answered :
      (url body : Bytes) (w : W)
      → IsAnswered
      → (r : HttpResponse) × ((post_attempts s 3 url body w).1 ≡ some r) × (r.status_code ≡ 200)
  unfolding post_attempts
  post_attempts-answered url body w answered =
      let (r, e, good) = answered url (utf8 "application/json") body w in
      (r, ground (arith, e), good)

  post_attempts-unreachable :
      (n : ℕ) (url body : Bytes) (w : W) → IsUnreachable → (post_attempts s n url body w).1 ≡ none
  unfolding post_attempts
  post_attempts-unreachable zero url body w h = refl
  post_attempts-unreachable (suc n) url body w h = ground (
    arith,
    h url (utf8 "application/json") body w,
    post_attempts-unreachable n url body (s.client.post url (utf8 "application/json") body w).0 h,
  )

  settle-answered :
      (r : HttpResponse) (d : SimulatedDevice) (cycles : ℕ) (w : W)
      → r.status_code ≡ 200
      → (settle s (some r) d cycles w).1 ≡ cycles + 1
  unfolding settle
  settle-answered r d cycles w good = ground (arith, good)

  round-cycles :
      (interval : ℕ) (d : SimulatedDevice) (cycles : ℕ) (w : W)
      → IsAnswered
      → (round s interval d cycles w).1 ≡ cycles + 1
  unfolding round
  round-cycles interval d cycles w answered =
      let p = prepare s interval d cycles w in
      let url = d.server_url ++ utf8 "/api/v1/telemetry" in
      let body = s.codec.marshal_telemetry p.0 in
      let (r, e, good) = post_attempts-answered url body w answered in
      let w' = (post_attempts s 3 url body w).0 in
      ap (λ o. (settle s o p.1 cycles w').1) e ∙ settle-answered r p.1 cycles w' good

  round-no_cycle :
      (interval : ℕ) (d : SimulatedDevice) (cycles : ℕ) (w : W)
      → IsUnreachable
      → (round s interval d cycles w).1 ≡ cycles
  unfolding round
  round-no_cycle interval d cycles w h =
      let p = prepare s interval d cycles w in
      let url = d.server_url ++ utf8 "/api/v1/telemetry" in
      let body = s.codec.marshal_telemetry p.0 in
      let w' = (post_attempts s 3 url body w).0 in
      ap (λ o. (settle s o p.1 cycles w').1) (post_attempts-unreachable 3 url body w h)
      ∙ (unfold settle in refl)

  -- A run with a bound ends with exactly that many finished cycles, if every request is answered
  -- with status 200 and the context is not done: rounds for the cycles that are left are enough.
  pub run_completes :
      (fuel interval max_cycles : ℕ) (d : SimulatedDevice) (cycles : ℕ) (w : W)
      → IsAnswered
      → IsRunning
      → cycles < max_cycles
      → max_cycles ≤ cycles + fuel
      → ((run s fuel interval max_cycles d cycles w).0 ≡ stopped)
        × ((run s fuel interval max_cycles d cycles w).2 ≡ max_cycles)
  unfolding run
  run_completes zero interval max_cycles d cycles w answered running more enough =
      absurd (omega arith)
  run_completes (suc fuel) interval max_cycles d cycles w answered running more enough =
      let r = round s interval d cycles w in
      let one = round-cycles interval d cycles w answered in
      ground
        (arith, running w, one, run_completes fuel interval max_cycles r.0 r.1 r.2 answered running)

  -- A run with a bound does not end while the server cannot be reached and the context is not done:
  -- failed rounds do not count.
  pub run_waits :
      (fuel interval max_cycles : ℕ) (d : SimulatedDevice) (cycles : ℕ) (w : W)
      → IsUnreachable
      → IsRunning
      → cycles < max_cycles
      → (run s fuel interval max_cycles d cycles w).0 ≡ goes_on
  unfolding run
  run_waits zero interval max_cycles d cycles w unreachable running more = refl
  run_waits (suc fuel) interval max_cycles d cycles w unreachable running more =
      let r = round s interval d cycles w in
      let same = round-no_cycle interval d cycles w unreachable in
      ground
        (arith, running w, same, run_waits fuel interval max_cycles r.0 r.1 r.2 unreachable running)
