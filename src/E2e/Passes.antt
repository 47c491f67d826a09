-- ===== src/E2e/Passes.antt =====
-- When the whole of `main` of tools/test_runner/run_e2e.go passes.
use iot_server.Base.{◌≡◌, ◌↔◌, sym, subst, true, Option, none, arith}
use iot_server.Base.Text.{utf8}
use iot_server.E2e.Runner.{
  Failure, Surroundings, and_then, load_certs, start, poll_until_ready, wait_ready, run_simulators,
  simulators, verify, run_e2e,
}
use iot_server.E2e.Stages.{
  and_then-none_iff, IsReady, poll_until_ready_iff, IsVerified, verify-none_iff,
}

module _ {W : Type 0} (s : Surroundings W) where
  abbrev started : W → W
  started w = (s.start_server w).0

  abbrev simulated : W → W
  simulated w = (s.run_all simulators (poll_until_ready s 20 (s.sleep 3000 (started w))).0).0

  -- The files are there, the server starts and answers one of 20 polls with 200, and what is
  -- verified behind the runs of the simulators is right.
  pub record IsPassed (w : W) : Type 0 where
    pub ca_cert : s.reads_file (utf8 "../certs/out/ca.crt") w ≡ true
    pub client_cert :
        s.loads_key_pair
          (utf8 "../certs/out/client_DEV-ESP32-001.crt")
          (utf8 "../certs/out/client_DEV-ESP32-001.key")
          w
        ≡ true
    pub server : (s.start_server w).1 ≡ true
    pub ready : IsReady s 20 (s.sleep 3000 (started w))
    pub verified : IsVerified s (simulated w)

  abbrev stages : W → W × Option Failure
  stages w = and_then (load_certs s w) (λ w1.
      and_then (start s w1)
        (λ w2. and_then (wait_ready s w2) (λ w3. and_then (run_simulators s w3) (verify s))))

  load_certs-world : (w : W) → (load_certs s w).0 ≡ w
  unfolding load_certs
  load_certs-world w = ground arith

  load_certs-none_iff :
      (w : W)
      → ((load_certs s w).1 ≡ none) ↔ (
          (s.reads_file (utf8 "../certs/out/ca.crt") w ≡ true)
          × (s.loads_key_pair
                (utf8 "../certs/out/client_DEV-ESP32-001.crt")
                (utf8 "../certs/out/client_DEV-ESP32-001.key")
                w
              ≡ true))
  unfolding load_certs
  load_certs-none_iff w = ground arith

  start-none_iff : (w : W) → ((start s w).1 ≡ none) ↔ ((s.start_server w).1 ≡ true)
  unfolding start
  start-none_iff w = ground arith

  wait_ready-none_iff : (w : W) → ((wait_ready s w).1 ≡ none) ↔ IsReady s 20 (s.sleep 3000 w)
  unfolding wait_ready
  wait_ready-none_iff w =
      let polls = poll_until_ready_iff s 20 (s.sleep 3000 w) in
      (λ h. polls.0 (ground (arith, h)), λ h. let e = polls.1 h in ground (arith, e))

  -- What is left once the certificates are loaded.
  abbrev on_started : W → W × Option Failure
  on_started w =
      and_then (start s w)
        (λ w2. and_then (wait_ready s w2) (λ w3. and_then (run_simulators s w3) (verify s)))

  on_started-none_iff :
      (w : W)
      → ((on_started w).1 ≡ none) ↔ (
          ((s.start_server w).1 ≡ true)
          × (IsReady s 20 (s.sleep 3000 (started w)))
          × IsVerified s (simulated w))
  unfolding start wait_ready run_simulators
  on_started-none_iff w =
      let outer =
        and_then-none_iff (start s w)
          (λ w2. and_then (wait_ready s w2) (λ w3. and_then (run_simulators s w3) (verify s))) in
      let inner =
        and_then-none_iff (wait_ready s (started w))
          (λ w3. and_then (run_simulators s w3) (verify s)) in
      let starts = start-none_iff w in
      let waits = wait_ready-none_iff (started w) in
      let verifies = verify-none_iff s (simulated w) in
      (
        λ h.
            let (h1, rest) = outer.0 h in
            let (h2, h3) = inner.0 rest in (starts.0 h1, waits.0 h2, verifies.0 h3),
        λ (server, ready, verified).
            outer.1 (starts.1 server, inner.1 (waits.1 ready, verifies.1 verified)),
      )

  stages-none_iff : (w : W) → ((stages w).1 ≡ none) ↔ IsPassed w
  stages-none_iff w =
      let outer = and_then-none_iff (load_certs s w) on_started in
      let loads = load_certs-none_iff w in
      let starts = on_started-none_iff w in
      let same = load_certs-world w in
      (
        λ h.
            let (h1, rest) = outer.0 h in
            let (ca_cert, client_cert) = loads.0 h1 in
            let (server, ready, verified) =
              starts.0 (subst (λ x. (on_started x).1 ≡ none) same rest) in
            record {
              ca_cert = ca_cert;
              client_cert = client_cert;
              server = server;
              ready = ready;
              verified = verified;
            },
        λ p. outer.1 (
          loads.1 (p.ca_cert, p.client_cert),
          subst (λ x. (on_started x).1 ≡ none) (sym same)
              (starts.1 (p.server, p.ready, p.verified)),
        ),
      )

  -- The end-to-end test passes exactly if the certificates are there, the server starts and
  -- answers one of 20 polls of its health check with 200, and then, behind the runs of the
  -- simulators, the list of the devices has at least two, all of them of version 1.1.0, the
  -- history of DEV-ESP32-001 has at least three messages, and the page of the dashboard and the
  -- queueing of a command are answered with 200.
  pub run_e2e-passes_iff : (w : W) → ((run_e2e s w).1 ≡ none) ↔ IsPassed w
  unfolding run_e2e
  run_e2e-passes_iff w =
      let all = stages-none_iff w in
      (λ h. all.0 (ground (arith, h)), λ h. let e = all.1 h in ground (arith, e))
