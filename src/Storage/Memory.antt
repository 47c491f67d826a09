-- ===== src/Storage/Memory.antt =====
-- `InMemoryRepository` of server/storage/repository.go. Its mutex makes each method one step. The
-- devices are behind pointers, which `GetDevice` and `ListDevices` hand out: `cells` is the store
-- that they point into. Commands are never written after they are queued, so they are values here.
pub mod Heap
pub mod Devices
pub mod History
pub mod Reports
pub mod Acks
use iot_server.Base.{
  ℕ, ◌+◌, ◌-◌, ◌%◌, ◌^◌, Option, none, some, List, [], ◌∷◌, ◌++◌, map, length, drop, ltb, not, ◌&&◌,
  if◌then◌else◌,
}
use iot_server.Base.Text.{Bytes, utf8, bytes_eq}
use iot_server.Base.Int.{ℤ, pos, negsuc}
use iot_server.Base.Assoc.{Assoc, lookup, insert}
use iot_server.Base.Cells.{get_elem?, update}
use iot_server.Models.{TelemetryPayload, EventPayload, DeviceCommand, DeviceState, zero_metrics}
use iot_server.Storage.Interface.{StorageError, device_not_found, Result, ok, err, Repository}

pub record InMemoryRepository : Type 0 where
  pub cells : List DeviceState
  pub devices : Assoc ℕ
  pub telemetries : Assoc (List TelemetryPayload)
  pub events : Assoc (List EventPayload)
  pub commands : Assoc (List DeviceCommand)

abbrev pub new_in_memory_repository : InMemoryRepository
new_in_memory_repository = record {
  cells = [];
  devices = [];
  telemetries = [];
  events = [];
  commands = [];
}

-- m[k] of a map of slices: nil for a missing key.
unfoldable pub get_slice {ℓ} : {A : Type ℓ} → Bytes → Assoc (List A) → List A
get_slice k m = elim (lookup k m) [ none ↦ [] | some xs ↦ xs ]

-- `&models.DeviceState{DeviceID: deviceID}`
abbrev pub fresh_device : Bytes → DeviceState
fresh_device device_id = record {
  device_id = device_id;
  firmware_version = [];
  last_seen_at = 0;
  last_seq_no = 0;
  last_metrics = zero_metrics;
  last_status = none;
  status = [];
  total_telemetries = 0;
  pending_commands_count = 0;
  current_interval_sec = 0;
}

-- The assignments to `dev` of `SaveTelemetry`. The counter is a uint64.
abbrev pub touch : ℕ → TelemetryPayload → DeviceState → DeviceState
touch now t dev = record dev {
  firmware_version = t.header.firmware_version;
  last_seen_at = now;
  last_seq_no = t.header.seq_no;
  last_metrics = t.metrics;
  last_status = t.status;
  status = utf8 "ONLINE";
  total_telemetries = (dev.total_telemetries + 1) % 2 ^ 64;
}

-- The pointer to the device of a message: the one in the map, or that of a new cell.
unfoldable pub find_or_create : Bytes → InMemoryRepository → ℕ × InMemoryRepository
find_or_create device_id r = elim (lookup device_id r.devices) [
  | some at ↦ (at, r)
  | none ↦ (
    length r.cells,
    record r {
      cells = r.cells ++ (fresh_device device_id ∷ []);
      devices = insert device_id (length r.cells) r.devices;
    },
  )
]

unfoldable pub save_telemetry :
    ℕ → TelemetryPayload → InMemoryRepository → InMemoryRepository × Option StorageError
save_telemetry now t r =
    let device_id = t.header.device_id in
    let (at, r') = find_or_create device_id r in
    (
      record r' {
        cells = update at (touch now t) r'.cells;
        telemetries =
            insert device_id (get_slice device_id r'.telemetries ++ (t ∷ [])) r'.telemetries;
      },
      none,
    )

unfoldable pub save_event :
    ℕ → EventPayload → InMemoryRepository → InMemoryRepository × Option StorageError
save_event now e r =
    let device_id = e.header.device_id in
    (
      record r { events = insert device_id (get_slice device_id r.events ++ (e ∷ [])) r.events },
      none,
    )

-- The pointer that `GetDevice` returns.
unfoldable pub get_device_pointer : Bytes → InMemoryRepository → Result ℕ
get_device_pointer device_id r = elim (lookup device_id r.devices) [
  | none ↦ err device_not_found
  | some at ↦ ok at
]

-- The pointers that `ListDevices` returns, in no order that the code promises.
unfoldable pub list_device_pointers : InMemoryRepository → List ℕ
list_device_pointers r = map (λ (d : Bytes × ℕ). d.1) r.devices

unfoldable pub get_telemetry_history :
    Bytes → ℤ → InMemoryRepository → Result (List TelemetryPayload)
get_telemetry_history device_id limit r = elim (lookup device_id r.telemetries) [
  | none ↦ ok []
  | some hist ↦ elim limit [
    | pos n ↦ ok (if ltb 0 n && ltb n (length hist) then drop (length hist - n) hist else hist)
    | negsuc n ↦ ok hist
  ]
]

unfoldable pub queue_command :
    ℕ → Bytes → DeviceCommand → InMemoryRepository → InMemoryRepository × Option StorageError
queue_command now device_id cmd r = (
  record r {
    commands = insert device_id (get_slice device_id r.commands ++ (cmd ∷ [])) r.commands;
  },
  none,
)

unfoldable pub get_pending_commands :
    ℕ → Bytes → InMemoryRepository → InMemoryRepository × Result (List DeviceCommand)
get_pending_commands now device_id r = (r, ok (get_slice device_id r.commands))

-- The loop of `AckCommand` over the commands of the device.
unfoldable pub without_command : Bytes → List DeviceCommand → List DeviceCommand
without_command command_id [] = []
without_command command_id (c ∷ cs) =
    let remaining = without_command command_id cs in
    if not (bytes_eq c.command_id command_id) then c ∷ remaining else remaining

unfoldable pub ack_command :
    ℕ → Bytes → Bytes → Bytes → InMemoryRepository → InMemoryRepository × Option StorageError
ack_command now device_id command_id result r = (
  record r {
    commands =
        insert device_id (without_command command_id (get_slice device_id r.commands)) r.commands;
  },
  none,
)

-- What is behind a pointer now.
abbrev pub deref : InMemoryRepository → ℕ → Option DeviceState
deref r at = get_elem? r.cells at

-- The device with an identifier as it is now.
unfoldable pub device_of : Bytes → InMemoryRepository → Option DeviceState
device_of device_id r = elim (lookup device_id r.devices) [ none ↦ none | some at ↦ deref r at ]

unfoldable pub get_device : Bytes → InMemoryRepository → Result DeviceState
get_device device_id r = elim (device_of device_id r) [
  | none ↦ err device_not_found
  | some dev ↦ ok dev
]

-- A pointer that dangled would fault; see `Heap` for that none does.
unfoldable pub follow : InMemoryRepository → List ℕ → List DeviceState
follow r [] = []
follow r (at ∷ ats) =
    let more = follow r ats in elim (deref r at) [ none ↦ more | some dev ↦ dev ∷ more ]

-- The implementation of the interface, with pointers followed at once.
abbrev pub memory_repository : Repository InMemoryRepository
memory_repository = record {
  save_telemetry = save_telemetry;
  get_device = get_device;
  list_devices = λ r. follow r (list_device_pointers r);
  save_event = save_event;
  get_telemetry_history = get_telemetry_history;
  queue_command = queue_command;
  get_pending_commands = get_pending_commands;
  ack_command = ack_command;
}
