-- ===== src/Storage/Memory/Devices.antt =====
-- What `SaveTelemetry` of server/storage/repository.go does to the device of a message, to the
-- others, and to the pointers that were handed out.
use iot_server.Base.{
  ℕ, ◌≡◌, ◌≢◌, refl, subst, Option, none, some, [], ◌∷◌, length, arith, inl, inr, Option-cases,
  Bool-cases, true, false, if◌then◌else◌,
}
use iot_server.Base.Text.{Bytes, bytes_eq, bytes_eq_iff}
use iot_server.Base.Assoc.{lookup, lookup-insert, lookup-insert_self}
use iot_server.Base.Cells.{
  get_elem?, get_elem?-update_self, get_elem?-update_ne, get_elem?-append_left,
  get_elem?-append_length,
}
use iot_server.Models.{TelemetryPayload, DeviceState}
use iot_server.Storage.Interface.{ok}
use iot_server.Storage.Memory.{
  InMemoryRepository, fresh_device, touch, find_or_create, save_telemetry, deref, device_of,
  get_device_pointer,
}
use iot_server.Storage.Memory.Heap.{
  IsValid, cells_distinct, write, write-IsValid, find_or_create-IsValid,
}

-- The device of a message before the message: the known one, or a fresh one.
abbrev pub device_or_fresh : Bytes → Option DeviceState → DeviceState
device_or_fresh id none = fresh_device id
device_or_fresh id (some dev) = dev

device_of_owned :
    (r : InMemoryRepository) (k : Bytes) (at : ℕ)
    → IsValid r
    → lookup k r.devices ≡ some at
    → (dev : DeviceState) × (get_elem? r.cells at ≡ some dev) × (device_of k r ≡ some dev)
unfolding device_of
device_of_owned r k at v e =
    let o = v.owned k at e in (o.dev, o.stored, ground (arith, e, o.stored))

module _ (r : InMemoryRepository) (id : Bytes) (v : IsValid r) where
  find_or_create-found : lookup id (find_or_create id r).1.devices ≡ some (find_or_create id r).0
  unfolding find_or_create
  find_or_create-found = elim (Option-cases (lookup id r.devices)) [
    | inr (at, e) ↦ ground (arith, e)
    | inl e ↦ ground (arith, e, lookup-insert_self id (length r.cells) r.devices)
  ]

  find_or_create-stored :
      get_elem? (find_or_create id r).1.cells (find_or_create id r).0
      ≡ some (device_or_fresh id (device_of id r))
  find_or_create-stored = elim (Option-cases (lookup id r.devices)) [
    | inr (at, e) ↦
        let (dev, stored, of) = device_of_owned r id at v e in
        unfold find_or_create in ground (arith, e, stored, of)
    | inl e ↦
        unfold find_or_create device_of in
        ground (arith, e, get_elem?-append_length r.cells (fresh_device id))
  ]

  find_or_create-other :
      (k : Bytes) → bytes_eq id k ≡ false → device_of k (find_or_create id r).1 ≡ device_of k r
  find_or_create-other k other = elim (Option-cases (lookup id r.devices)) [
    | inr (at, e) ↦ unfold find_or_create in ground (arith, e)
    | inl e ↦ elim (Option-cases (lookup k r.devices)) [
      | inl unknown ↦
          unfold find_or_create device_of in
          ground (arith, e, unknown, lookup-insert id k (length r.cells) r.devices)
      | inr (at, known) ↦
          let (dev, stored, of) = device_of_owned r k at v known in
          unfold find_or_create device_of in
          ground (
            arith,
            e,
            known,
            stored,
            lookup-insert id k (length r.cells) r.devices,
            get_elem?-append_left r.cells (fresh_device id ∷ []) at dev stored,
          )
    ]
  ]

-- A device that is in the map stays there, with its pointer.
find_or_create-keeps :
    (r : InMemoryRepository) (id k : Bytes) (at : ℕ)
    → lookup k r.devices ≡ some at
    → lookup k (find_or_create id r).1.devices ≡ some at
find_or_create-keeps r id k at known = elim (Option-cases (lookup id r.devices)) [
  | inr (b, e) ↦ unfold find_or_create in ground (arith, e, known)
  | inl e ↦
      let apart : bytes_eq id k ≡ true → ⊥ = λ same.
        let e' = subst (λ z. lookup z r.devices ≡ none) ((bytes_eq_iff id k).0 same) e in cc in
      unfold find_or_create in
      ground (arith, e, known, apart, lookup-insert id k (length r.cells) r.devices)
]

-- A write at the cell of one device is seen at that device, and at no other.
module _ (f : DeviceState → DeviceState) (r : InMemoryRepository) (id : Bytes) (at : ℕ)
    (v : IsValid r) (found : lookup id r.devices ≡ some at) where
  device_of-write :
      (k : Bytes)
      → device_of k (write at f r)
        ≡ (if bytes_eq id k then some (f (device_or_fresh id (device_of id r))) else device_of k r)
  device_of-write k = elim (Bool-cases (bytes_eq id k)) [
    | inl same ↦
        let (dev, stored, of) = device_of_owned r id at v found in
        let at_k : lookup k r.devices ≡ some at =
          subst (λ z. lookup z r.devices ≡ some at) ((bytes_eq_iff id k).0 same) found in
        unfold device_of in
        ground (arith, same, at_k, found, stored, get_elem?-update_self f r.cells at dev stored)
    | inr other ↦ elim (Option-cases (lookup k r.devices)) [
      | inl unknown ↦ unfold device_of in ground (arith, other, unknown)
      | inr (b, known) ↦
          let apart : at ≢ b = λ e.
            let same =
              cells_distinct r id k b v (subst (λ z. lookup id r.devices ≡ some z) e found) known in
            ground (arith, other, (bytes_eq_iff id k).1 same) in
          unfold device_of in ground (arith, other, known, get_elem?-update_ne f r.cells at b apart)
    ]
  ]

module _ (r : InMemoryRepository) (now : ℕ) (t : TelemetryPayload) (v : IsValid r) where
  -- `SaveTelemetry` keeps the devices apart.
  pub save_telemetry-IsValid : IsValid (save_telemetry now t r).0
  unfolding save_telemetry
  save_telemetry-IsValid = record {
    owned = λ k at e.
        let o = written.owned k at e in record { dev = o.dev; stored = o.stored; named = o.named };
  }
    where
      created : IsValid (find_or_create t.header.device_id r).1
      created = find_or_create-IsValid r t.header.device_id v

      written : IsValid (
          write
            (find_or_create t.header.device_id r).0
            (touch now t)
            (find_or_create t.header.device_id r).1)
      written = write-IsValid (touch now t) (λ d. refl) _ _ created

  -- `SaveTelemetry` sets the state of the device of the message, and of no other.
  pub device_of-save_telemetry :
      (k : Bytes)
      → device_of k (save_telemetry now t r).0 ≡ (
          if bytes_eq t.header.device_id k
          then some
              (touch now t (device_or_fresh t.header.device_id (device_of t.header.device_id r)))
          else device_of k r)
  device_of-save_telemetry k =
      let id = t.header.device_id in
      let at = (find_or_create id r).0 in
      let r' = (find_or_create id r).1 in
      let found = find_or_create-found r id v in
      let saved : device_of k (save_telemetry now t r).0 ≡ device_of k (write at (touch now t) r') =
        unfold save_telemetry device_of in refl in
      let here : device_of id r' ≡ some (device_or_fresh id (device_of id r)) =
        unfold device_of in ground (arith, found, find_or_create-stored r id v) in
      let wrote = device_of-write (touch now t) r' id at (find_or_create-IsValid r id v) found k in
      elim (Bool-cases (bytes_eq id k)) [
        | inl same ↦ ground (arith, same, saved, here, wrote)
        | inr other ↦ ground (arith, other, saved, wrote, find_or_create-other r id v k other)
      ]

  -- A pointer that `GetDevice` returned stays that of its device: after `SaveTelemetry`, what is
  -- behind it is the device as it is then.
  pub pointer_follows :
      (k : Bytes) (at : ℕ)
      → get_device_pointer k r ≡ ok at
      → (get_device_pointer k (save_telemetry now t r).0 ≡ ok at)
        × (deref (save_telemetry now t r).0 at ≡ device_of k (save_telemetry now t r).0)
  pointer_follows k at e =
      let known : lookup k r.devices ≡ some at = unfold get_device_pointer in ground arith in
      let still = find_or_create-keeps r t.header.device_id k at known in
      (
        unfold get_device_pointer save_telemetry in ground (arith, still),
        unfold save_telemetry device_of in ground (arith, still),
      )
