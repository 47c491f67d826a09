-- ===== src/Simulator/Battery.antt =====
-- The battery of the simulated device of tools/simulator/main.go, over all its rounds.
use iot_server.Base.{
  ℕ, zero, suc, ◌+◌, ◌-◌, ◌*◌, ◌/◌, ◌%◌, ◌^◌, ◌≤◌, ◌<◌, ◌≡◌, refl, true, false, none, some, arith,
  List, [], ◌∷◌, inl, inr, Option-cases, subst, sym, ◌∙◌, Option, Bool, ◌==◌, ltb, leb, ◌&&◌,
  if◌then◌else◌,
}
use iot_server.Base.Text.{Bytes}
use iot_server.Simulator.Environment.{HttpResponse, Surroundings}
use iot_server.Models.{DeviceCommand, OtaInfo}
use iot_server.Simulator.Device.{
  SimulatedDevice, drain, battery_pct, execute_action, execute_command, execute_commands,
  perform_ota, update_firmware, follow_response, settle, prepare, round, Next, stopped, completed,
  run,
}

-- The levels that a battery can have: the last step from an odd level goes below 3300.
abbrev pub IsLevel : ℕ → Type 0
IsLevel mv = (3299 ≤ mv) × (mv ≤ 4100)

drain-IsLevel : (mv : ℕ) → IsLevel mv → IsLevel (drain mv) × (drain mv ≤ mv)
unfolding drain
drain-IsLevel mv h = ground arith

-- Within these levels the percentage is right: it is the level above 3300 in 800ths, rounded down,
-- and it is 100 at most.
pub battery_pct_lem :
    (mv : ℕ) → IsLevel mv → (battery_pct mv ≡ (mv - 3300) * 100 / 800) × (battery_pct mv ≤ 100)
unfolding battery_pct
battery_pct_lem mv h = ground arith

-- What no command and no update touches.
pub record Kept (d d' : SimulatedDevice) : Type 0 where
  pub battery : d'.battery_mv ≡ d.battery_mv
  pub seq_no : d'.seq_no ≡ d.seq_no
  pub device_id : d'.device_id ≡ d.device_id
  pub server_url : d'.server_url ≡ d.server_url

Kept-refl : (d : SimulatedDevice) → Kept d d
Kept-refl d = record { battery = refl; seq_no = refl; device_id = refl; server_url = refl }

Kept-trans : (a b c : SimulatedDevice) → Kept a b → Kept b c → Kept a c
Kept-trans a b c x y = record {
  battery = y.battery ∙ x.battery;
  seq_no = y.seq_no ∙ x.seq_no;
  device_id = y.device_id ∙ x.device_id;
  server_url = y.server_url ∙ x.server_url;
}

execute_action-Kept : (action : Bytes) (d : SimulatedDevice) → Kept d (execute_action action d).0
unfolding execute_action
execute_action-Kept action d = ground arith

module _ {W : Type 0} (s : Surroundings W) where
  pub execute_commands-Kept :
      (cs : List DeviceCommand) (d : SimulatedDevice) (w : W) → Kept d (execute_commands s cs d w).0
  unfolding execute_commands execute_command
  execute_commands-Kept [] d w = Kept-refl d
  execute_commands-Kept (c ∷ cs) d w =
      let d' = (execute_command s c d w).0 in
      Kept-trans d d' _ (execute_action-Kept c.action d)
        (execute_commands-Kept cs d' (execute_command s c d w).1)

  pub update_firmware-Kept :
      (ota : Option OtaInfo) (d : SimulatedDevice) (w : W) → Kept d (update_firmware s ota d w).0
  unfolding update_firmware perform_ota
  update_firmware-Kept none d w = Kept-refl d
  update_firmware-Kept (some ota) d w = ground arith

  pub follow_response-Kept :
      (body : Bytes) (d : SimulatedDevice) (w : W) → Kept d (follow_response s body d w).0
  unfolding follow_response
  follow_response-Kept body d w = elim (Option-cases (s.codec.unmarshal_response body)) [
    | inl e ↦
        let nothing : follow_response s body d w ≡ (d, w) = rw (e, follow_response) in
        subst (λ (z : SimulatedDevice × W). Kept d z.0) (sym nothing) (Kept-refl d)
    | inr (r, e) ↦
        let u = update_firmware s r.ota d w in
        let follows : follow_response s body d w ≡ execute_commands s r.commands u.0 u.1 =
          rw (e, follow_response) in
        subst (λ (z : SimulatedDevice × W). Kept d z.0) (sym follows)
          (Kept-trans d u.0 _ (update_firmware-Kept r.ota d w)
            (execute_commands-Kept r.commands u.0 u.1))
  ]

  -- What a round does to the device.
  pub record Rounds (n : ℕ) (d : SimulatedDevice) (cycles : ℕ) (d' : SimulatedDevice) (cycles' : ℕ)
      : Type 0 where
    pub level : IsLevel d'.battery_mv
    pub falls : d'.battery_mv ≤ d.battery_mv
    pub counted : d'.seq_no ≡ (d.seq_no + n) % 2 ^ 32
    pub named : d'.device_id ≡ d.device_id
    pub from : cycles ≤ cycles'
    pub to : cycles' ≤ cycles + n

  settle-Rounds :
      (result : Option HttpResponse) (d d' : SimulatedDevice) (cycles : ℕ) (w : W)
      → Rounds 1 d cycles d' cycles
      → Rounds 1 d cycles (settle s result d' cycles w).0 (settle s result d' cycles w).1
  unfolding settle
  settle-Rounds none d d' cycles w h = h
  settle-Rounds (some r) d d' cycles w h =
      go (r.status_code == 200) (follow_response s r.body d' w) (follow_response-Kept r.body d' w)
    where
      go :
          (b : Bool) (f : SimulatedDevice × W)
          → Kept d' f.0
          → let out : SimulatedDevice × ℕ × W =
              if b then (f.0, cycles + 1, f.1) else (d', cycles, w) in
            Rounds 1 d cycles out.0 out.1
      go true f k = record {
        level = subst IsLevel (sym k.battery) h.level;
        falls = subst (λ z. z ≤ d.battery_mv) (sym k.battery) h.falls;
        counted = k.seq_no ∙ h.counted;
        named = k.device_id ∙ h.named;
        from = omega arith;
        to = omega arith;
      }
      go false f k = h

  round-Rounds :
      (interval : ℕ) (d : SimulatedDevice) (cycles : ℕ) (w : W)
      → IsLevel d.battery_mv
      → Rounds 1 d cycles (round s interval d cycles w).0 (round s interval d cycles w).1
  unfolding round prepare
  round-Rounds interval d cycles w h =
      let (level, falls) = drain-IsLevel d.battery_mv h in
      settle-Rounds _ d _ cycles _ (record {
        level = level;
        falls = falls;
        counted = refl;
        named = refl;
        from = omega arith;
        to = omega arith;
      })

  Rounds-trans :
      (n : ℕ) (a b c : SimulatedDevice) (i j k : ℕ)
      → Rounds 1 a i b j
      → Rounds n b j c k
      → Rounds (suc n) a i c k
  Rounds-trans n a b c i j k x y = record {
    level = y.level;
    falls = omega (arith, x.falls, y.falls);
    counted = omega (arith, x.counted, y.counted);
    named = y.named ∙ x.named;
    from = omega (arith, x.from, y.from);
    to = omega (arith, x.to, y.to);
  }

  -- The number of rounds that a run makes: none once the context is done, and none behind the one
  -- that finishes the last cycle.
  unfoldable pub rounds_made : ℕ → ℕ → ℕ → SimulatedDevice → ℕ → W → ℕ
  rounds_made zero interval max_cycles d cycles w = 0
  rounds_made (suc fuel) interval max_cycles d cycles w = elim (s.done w) [
    | true ↦ 0
    | false ↦
        let (d', cycles', w') = round s interval d cycles w in
        elim (ltb 0 max_cycles && leb max_cycles cycles') [
          | true ↦ 1
          | false ↦ suc (rounds_made fuel interval max_cycles d' cycles' w')
        ]
  ]

  -- What these rounds have done, of at most `fuel`.
  abbrev pub Within : ℕ → ℕ → SimulatedDevice → ℕ → Next × SimulatedDevice × ℕ × W → Type 0
  Within fuel n d cycles z = (n ≤ fuel) × Rounds n d cycles z.1 z.2

  -- Whatever the server answers, and however the run ends: within `fuel` rounds the battery stays
  -- within its levels and does not rise, each round made has taken one sequence
  -- number, the device keeps
  -- its identifier, and no more cycles are finished than rounds were made.
  pub run-Within :
      (fuel interval max_cycles : ℕ) (d : SimulatedDevice) (cycles : ℕ) (w : W)
      → IsLevel d.battery_mv
      → d.seq_no < 2 ^ 32
      → Within fuel
          (rounds_made fuel interval max_cycles d cycles w)
          d
          cycles
          (run s fuel interval max_cycles d cycles w)
  unfolding run rounds_made
  run-Within zero interval max_cycles d cycles w h small = (
    omega arith,
    record {
      level = h;
      falls = omega arith;
      counted = omega arith;
      named = refl;
      from = omega arith;
      to = omega arith;
    },
  )
  run-Within (suc fuel) interval max_cycles d cycles w h small =
      go (s.done w) (completed s max_cycles r.1)
        (run-Within fuel interval max_cycles r.0 r.1 r.2 once.level (omega (arith, once.counted)))
    where
      r : SimulatedDevice × ℕ × W
      r = round s interval d cycles w

      once : Rounds 1 d cycles r.0 r.1
      once = round-Rounds interval d cycles w h

      go :
          (done over : Bool)
          → Within fuel
              (rounds_made fuel interval max_cycles r.0 r.1 r.2)
              r.0
              r.1
              (run s fuel interval max_cycles r.0 r.1 r.2)
          → Within
              (suc fuel)
              (elim done as (λ _. ℕ) [
                | true ↦ 0
                | false ↦ elim over as (λ _. ℕ) [
                  | true ↦ 1
                  | false ↦ suc (rounds_made fuel interval max_cycles r.0 r.1 r.2)
                ]
              ])
              d
              cycles
              (elim done as (λ _. Next × SimulatedDevice × ℕ × W) [
                | true ↦ (stopped, d, cycles, w)
                | false ↦ elim over as (λ _. Next × SimulatedDevice × ℕ × W) [
                  | true ↦ (stopped, r.0, r.1, r.2)
                  | false ↦ run s fuel interval max_cycles r.0 r.1 r.2
                ]
              ])
      go true over later = (
        omega arith,
        record {
          level = h;
          falls = omega arith;
          counted = omega arith;
          named = refl;
          from = omega arith;
          to = omega arith;
        },
      )
      go false true later = (omega arith, once)
      go false false (few, more) =
          (omega (arith, few), Rounds-trans _ d r.0 _ cycles r.1 _ once more)
