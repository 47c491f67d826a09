-- ===== src/Storage/Memory/Heap.antt =====
-- How server/storage/repository.go keeps its devices apart: each is behind a pointer of its own,
-- also when a device is added.
use iot_server.Base.{
  ℕ, ◌≡◌, sym, ap, ◌∙◌, subst, some, List, [], ◌∷◌, ◌++◌, length, arith, inl, inr, Option-cases,
  Bool-cases,
}
use native.Mathlib.Decide.{ℕ_discrete}
use iot_server.Base.Text.{Bytes, bytes_eq, bytes_eq_iff}
use iot_server.Base.Assoc.{lookup, insert, lookup-insert}
use iot_server.Base.Cells.{
  get_elem?, update, get_elem?-update_self, get_elem?-update_ne, get_elem?-append_left,
  get_elem?-append_length,
}
use iot_server.Models.{DeviceState}
use iot_server.Storage.Memory.{InMemoryRepository, fresh_device, find_or_create}

-- The cell of a device is there, and holds its identifier.
pub record Owns (r : InMemoryRepository) (k : Bytes) (at : ℕ) : Type 0 where
  pub dev : DeviceState
  pub stored : get_elem? r.cells at ≡ some dev
  pub named : dev.device_id ≡ k

pub record IsValid (r : InMemoryRepository) : Type 0 where
  pub owned : (k : Bytes) (at : ℕ) → lookup k r.devices ≡ some at → Owns r k at

-- No two devices share a cell.
pub cells_distinct :
    (r : InMemoryRepository) (j k : Bytes) (at : ℕ)
    → IsValid r
    → lookup j r.devices ≡ some at
    → lookup k r.devices ≡ some at
    → j ≡ k
cells_distinct r j k at v ej ek =
    let a = v.owned j at ej in
    let b = v.owned k at ek in
    let same : a.dev ≡ b.dev = ground (arith, a.stored, b.stored) in
    sym a.named ∙ ap (λ (d : DeviceState). d.device_id) same ∙ b.named

-- The devices are kept apart whatever the other maps hold.
pub others-IsValid :
    (r : InMemoryRepository) (ts : _) (es : _) (cs : _)
    → IsValid r
    → IsValid (record r { telemetries = ts; events = es; commands = cs })
others-IsValid r ts es cs v = record {
  owned = λ k at e.
      let o = v.owned k at e in record { dev = o.dev; stored = o.stored; named = o.named };
}

-- What `save_telemetry` does once it has the pointer.
abbrev pub write : ℕ → (DeviceState → DeviceState) → InMemoryRepository → InMemoryRepository
write at f r = record r { cells = update at f r.cells }

module _ (f : DeviceState → DeviceState)
    (keeps : (d : DeviceState) → (f d).device_id ≡ d.device_id) where
  pub write-IsValid : (r : InMemoryRepository) (at : ℕ) → IsValid r → IsValid (write at f r)
  write-IsValid r at v = record {
    owned = λ k b e. elim (ℕ_discrete at b) [
      | yes same ↦
          let o = v.owned k b e in
          let here = subst (λ z. get_elem? r.cells z ≡ some o.dev) (sym same) o.stored in
          record {
            dev = f o.dev;
            stored =
                subst (λ z. get_elem? (update at f r.cells) z ≡ some (f o.dev)) same
                  (get_elem?-update_self f r.cells at o.dev here);
            named = keeps o.dev ∙ o.named;
          }
      | no other ↦
          let o = v.owned k b e in
          record {
            dev = o.dev;
            stored = get_elem?-update_ne f r.cells at b other ∙ o.stored;
            named = o.named;
          }
    ];
  }

-- A device that is not known gets a cell of its own.
module _ (r : InMemoryRepository) (id : Bytes) (v : IsValid r) where
  pub find_or_create-IsValid : IsValid (find_or_create id r).1
  unfolding find_or_create
  find_or_create-IsValid = elim (Option-cases (lookup id r.devices)) [
    | inr (at, e) ↦ subst (λ z. IsValid z) (ground (arith, e)) v
    | inl e ↦ subst (λ z. IsValid z) (rw (e, find_or_create)) created
  ]
    where
      cells' : List DeviceState
      cells' = r.cells ++ (fresh_device id ∷ [])

      created :
          IsValid (record r { cells = cells'; devices = insert id (length r.cells) r.devices })
      created = record {
        owned = λ k at e. elim (Bool-cases (bytes_eq id k)) [
          | inl same ↦ record {
            dev = fresh_device id;
            stored =
                let here : length r.cells ≡ at =
                  ground (arith, lookup-insert id k (length r.cells) r.devices) in
                subst (λ z. get_elem? cells' z ≡ some (fresh_device id)) here
                  (get_elem?-append_length r.cells (fresh_device id));
            named = (bytes_eq_iff id k).0 same;
          }
          | inr other ↦
              let o =
                v.owned k at (ground (arith, lookup-insert id k (length r.cells) r.devices)) in
              record {
                dev = o.dev;
                stored = get_elem?-append_left r.cells (fresh_device id ∷ []) at o.dev o.stored;
                named = o.named;
              }
        ];
      }
