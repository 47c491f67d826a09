-- ===== src/Simulator/Image.antt =====
-- Which firmware the simulated device of tools/simulator/main.go comes to run.
use iot_server.Base.{
  ℕ, zero, suc, ◌≡◌, refl, sym, ◌∙◌, subst, ◌⊎◌, Bool, true, false, Option, none, some, List, [],
  ◌∷◌, ◌++◌, ◌==◌, arith, inl, inr, Bool-cases, Option-cases,
}
use iot_server.Base.Text.{Bytes, utf8, bytes_eq, bytes_eq_iff}
use iot_server.Models.{OtaInfo, DeviceCommand, ApiResponse}
use iot_server.Simulator.Battery.{follow_response-Kept}
use iot_server.Simulator.Environment.{HttpResponse, Surroundings}
use iot_server.Simulator.Device.{
  SimulatedDevice, Next, stopped, execute_action, execute_command, execute_commands, verify_image,
  perform_ota, update_firmware, follow_response, settle, prepare, round, run, completed,
  post_attempts,
}

module _ {W : Type 0} (s : Surroundings W) where
  -- The server announced an update: it answered a message of the device with it, with status 200.
  pub record IsAnnounced (server : Bytes) (ota : OtaInfo) : Type 0 where
    pub message : Bytes
    pub before : W
    pub answer : HttpResponse
    pub response : ApiResponse
    pub posted :
        (s.client.post
          (server ++ utf8 "/api/v1/telemetry")
          (utf8 "application/json")
          message
          before).1
        ≡ some answer
    pub accepted : answer.status_code ≡ 200
    pub reads : s.codec.unmarshal_response answer.body ≡ some response
    pub offers : response.ota ≡ some ota
    pub available : ota.available ≡ true

  -- An announced version whose image was downloaded completely, with status 200, and has the announced hash,
  -- where one is announced.
  pub record IsVerified (server version : Bytes) : Type 0 where
    pub ota : OtaInfo
    pub announcement : IsAnnounced server ota
    pub world : W
    pub response : HttpResponse
    pub downloaded : (s.client.get ota.package_url world).1 ≡ some response
    pub succeeded : response.status_code ≡ 200
    pub whole : response.complete ≡ true
    pub hashed : (ota.sha256 ≡ []) ⊎ (s.codec.sha256 response.body ≡ ota.sha256)
    pub announced : ota.target_version ≡ version

  -- The version is kept, or the new one is verified.
  abbrev Moves : Bytes → SimulatedDevice → SimulatedDevice → Type 0
  Moves server d d' =
      (d'.firmware_version ≡ d.firmware_version) ⊎ IsVerified server d'.firmware_version

  Moves-trans :
      (server : Bytes) (a b c : SimulatedDevice)
      → Moves server a b
      → Moves server b c
      → Moves server a c
  Moves-trans server a b c x (inr v) = inr v
  Moves-trans server a b c (inl e) (inl f) = inl (f ∙ e)
  Moves-trans server a b c (inr v) (inl f) = inr (subst (IsVerified server) (sym f) v)

  perform_ota-Moves :
      (server : Bytes) (ota : OtaInfo) (d : SimulatedDevice) (w : W)
      → IsAnnounced server ota
      → Moves server d (perform_ota s ota d w).0
  unfolding perform_ota
  perform_ota-Moves server ota d w told =
      elim (Bool-cases (verify_image s ota (s.client.get ota.package_url w).1)) [
        | inr bad ↦ inl (ground (arith, bad))
        | inl good ↦ elim (Option-cases (s.client.get ota.package_url w).1) [
          | inl e ↦ absurd (unfold verify_image in ground (arith, good, e))
          | inr (r, e) ↦
              let verified : verify_image s ota (some r) ≡ true =
                subst (λ o. verify_image s ota o ≡ true) e good in
              let version : (perform_ota s ota d w).0.firmware_version ≡ ota.target_version =
                ground (arith, good) in
              inr (record {
                ota = ota;
                announcement = told;
                world = w;
                response = r;
                downloaded = e;
                succeeded = unfold verify_image in ground (arith, verified);
                whole = unfold verify_image in ground (arith, verified);
                hashed = hash r verified;
                announced = sym version;
              })
        ]
      ]
    where
      hash :
          (r : HttpResponse)
          → verify_image s ota (some r) ≡ true
          → (ota.sha256 ≡ []) ⊎ (s.codec.sha256 r.body ≡ ota.sha256)
      hash r verified = elim (Bool-cases (bytes_eq ota.sha256 [])) [
        | inl e ↦ inl ((bytes_eq_iff ota.sha256 []).0 e)
        | inr e ↦ inr (
            (bytes_eq_iff (s.codec.sha256 r.body) ota.sha256).0
              (unfold verify_image in ground (arith, verified, e)))
      ]

  update_firmware-Moves :
      (server : Bytes) (ota : Option OtaInfo) (d : SimulatedDevice) (w : W)
      → ((o : OtaInfo) → ota ≡ some o → o.available ≡ true → IsAnnounced server o)
      → Moves server d (update_firmware s ota d w).0
  unfolding update_firmware
  update_firmware-Moves server none d w told = inl refl
  update_firmware-Moves server (some ota) d w told = elim (Bool-cases ota.available) [
    | inl there ↦ ground (arith, there, perform_ota-Moves server ota d w (told ota refl there))
    | inr not_there ↦ inl (ground (arith, not_there))
  ]

  execute_commands-version :
      (cs : List DeviceCommand) (d : SimulatedDevice) (w : W)
      → (execute_commands s cs d w).0.firmware_version ≡ d.firmware_version
  unfolding execute_commands execute_command execute_action
  execute_commands-version [] d w = refl
  execute_commands-version (c ∷ cs) d w =
      let (d', w') = execute_command s c d w in ground (arith, execute_commands-version cs d' w')

  follow_response-Moves :
      (server body : Bytes) (d : SimulatedDevice) (w : W)
      → ((r : ApiResponse) (o : OtaInfo)
          → s.codec.unmarshal_response body ≡ some r
          → r.ota ≡ some o
          → o.available ≡ true
          → IsAnnounced server o)
      → Moves server d (follow_response s body d w).0
  unfolding follow_response
  follow_response-Moves server body d w told =
      elim (Option-cases (s.codec.unmarshal_response body)) [
        | inl e ↦ inl (ground (arith, e))
        | inr (r, e) ↦
            let x = update_firmware s r.ota d w in
            let y = execute_commands s r.commands x.0 x.1 in
            let follows : follow_response s body d w ≡ y = ground (arith, e) in
            subst (λ (z : SimulatedDevice × W). Moves server d z.0) (sym follows)
              (Moves-trans server d x.0 y.0
                (update_firmware-Moves server r.ota d w (λ o offers there. told r o e offers there))
                (inl (execute_commands-version r.commands x.0 x.1)))
      ]

  -- The answer to a message of the device.
  abbrev IsAnswer : Bytes → HttpResponse → Type 0
  IsAnswer server answer =
      (message : Bytes) × (before : W) × ((s.client.post (server ++ utf8 "/api/v1/telemetry")
          (utf8 "application/json") message before).1
        ≡ some answer)

  post_attempts-IsAnswer :
      (n : ℕ) (server message : Bytes) (w : W) (answer : HttpResponse)
      → (post_attempts s n (server ++ utf8 "/api/v1/telemetry") message w).1 ≡ some answer
      → IsAnswer server answer
  unfolding post_attempts
  post_attempts-IsAnswer zero server message w answer h = absurd (ground (arith, h))
  post_attempts-IsAnswer (suc n) server message w answer h =
      let x =
        s.client.post (server ++ utf8 "/api/v1/telemetry") (utf8 "application/json") message w in
      elim (Option-cases x.1) [
        | inl lost ↦ post_attempts-IsAnswer n server message x.0 answer (ground (arith, h, lost))
        | inr (r, got) ↦ (message, w, ground (arith, h, got))
      ]

  settle-Moves :
      (server : Bytes) (result : Option HttpResponse) (d : SimulatedDevice) (cycles : ℕ) (w : W)
      → ((r : HttpResponse) → result ≡ some r → IsAnswer server r)
      → Moves server d (settle s result d cycles w).0
  unfolding settle
  settle-Moves server none d cycles w told = inl refl
  settle-Moves server (some r) d cycles w told = elim (Bool-cases (r.status_code == 200)) [
    | inr refused ↦ inl (ground (arith, refused))
    | inl good ↦
        let (message, before, posted) = told r refl in
        ground (
          arith,
          good,
          follow_response-Moves server r.body d w (λ response ota reads offers available. record {
            message = message;
            before = before;
            answer = r;
            response = response;
            posted = posted;
            accepted = ground (arith, good);
            reads = reads;
            offers = offers;
            available = available;
          }),
        )
  ]

  settle-server_url :
      (result : Option HttpResponse) (d : SimulatedDevice) (cycles : ℕ) (w : W)
      → (settle s result d cycles w).0.server_url ≡ d.server_url
  unfolding settle
  settle-server_url none d cycles w = refl
  settle-server_url (some r) d cycles w =
      let same = (follow_response-Kept s r.body d w).server_url in ground (arith, same)

  run-Moves :
      (server : Bytes) (fuel interval max_cycles : ℕ) (d : SimulatedDevice) (cycles : ℕ) (w : W)
      → d.server_url ≡ server
      → Moves server d (run s fuel interval max_cycles d cycles w).1
  unfolding run round prepare
  run-Moves server zero interval max_cycles d cycles w e = inl refl
  run-Moves server (suc fuel) interval max_cycles d cycles w e =
      go (s.done w) (completed s max_cycles r.1)
        (settle-Moves server _ _ cycles _ (λ answer got.
          post_attempts-IsAnswer 3 server _ w answer (
            subst
              (λ (u : Bytes).
                (post_attempts s 3 (u ++ utf8 "/api/v1/telemetry") message w).1 ≡ some answer)
              e got)))
        (run-Moves server fuel interval max_cycles r.0 r.1 r.2 (settle-server_url _ _ cycles _ ∙ e))
    where
      message : Bytes
      message = s.codec.marshal_telemetry (prepare s interval d cycles w).0

      r : SimulatedDevice × ℕ × W
      r = round s interval d cycles w

      go :
          (done over : Bool)
          → Moves server d r.0
          → Moves server r.0 (run s fuel interval max_cycles r.0 r.1 r.2).1
          → Moves server d
              (elim done as (λ _. Next × SimulatedDevice × ℕ × W) [
                | true ↦ (stopped, d, cycles, w)
                | false ↦ elim over as (λ _. Next × SimulatedDevice × ℕ × W) [
                  | true ↦ (stopped, r.0, r.1, r.2)
                  | false ↦ run s fuel interval max_cycles r.0 r.1 r.2
                ]
              ]).1
      go true over one more = inl refl
      go false true one more = one
      go false false one more =
          Moves-trans server d r.0 (run s fuel interval max_cycles r.0 r.1 r.2).1 one more

  -- At the end of a run the device has the version that it started with, or one that its server
  -- announced in an answer of status 200 to a message, and whose image it then downloaded
  -- completely from the announced address, with status 200 and the hash of the announcement, where
  -- that has one.
  pub run-IsVerified :
      (fuel interval max_cycles : ℕ) (d : SimulatedDevice) (cycles : ℕ) (w : W)
      → let d' = (run s fuel interval max_cycles d cycles w).1 in
        (d'.firmware_version ≡ d.firmware_version) ⊎ IsVerified d.server_url d'.firmware_version
  run-IsVerified fuel interval max_cycles d cycles w =
      run-Moves d.server_url fuel interval max_cycles d cycles w refl
