-- ===== src/Runtime/Admission/Keeping.antt =====
-- An admission keeps the lifecycle tables sound.
use cyber_lab_backend.Prelude.{
  ℕ, All, All-update, All-map, only_row, ◌≡◌, refl, true, arith, Option, none, some, List, [], ◌∷◌,
  Bool-cases, Option-cases, inl, inr, select_one, select_where, update_where, not, ◌&&◌, leb,
  length, map,
}
use cyber_lab_backend.Schema.{
  Database, Instance, LabNode, InstanceStatus, in_array, status_eq, is_active_node,
}
use cyber_lab_backend.Intents.{has_id, active_statuses}
use cyber_lab_backend.Inventory.{includes, to_set}
use cyber_lab_backend.Validity.{IsValid}
use cyber_lab_backend.Validity.Updates.{
  Keeps, limits_kept, update-HoldsInstances, update-HoldsOperations,
}
use cyber_lab_backend.Runtime.Admission.Settling.{settle_induction}
use cyber_lab_backend.Validity.Steps.{Sound, instances-Sound}
use cyber_lab_backend.Runtime.Admission.{
  SpawnRequest, settle, released, admit, refused_row, prepared_row, foreign, reserve, prepare_on,
  prepare_spawn, reserved_on, has_node_id,
}

-- A thrown error writes nothing; else the tables are sound.
abbrev pub KeepsSound {ℓ} : {A : Type ℓ} → Option (Database × A) → Type 0
KeepsSound none = Unit {0}
KeepsSound (some (db, a)) = IsValid db

-- Whatever row stands under the id is awake.
abbrev AwakeAt : ℕ → List Instance → Type 0
AwakeAt id = All (λ y. has_id id y ≡ true → in_array y.status active_statuses ≡ true)

module _ (node : LabNode) (input : SpawnRequest) (current : Instance) (db : Database) where
  settle-Sound :
      (reservations : List Instance) (occupied : List ℕ) (rows' : List Instance)
      (occupied' : List ℕ)
      → settle input.inventory input.now reservations db.instances occupied
        ≡ some (rows', occupied')
      → AwakeAt input.instance_id db.instances × Sound db.instances db.instance_operations
      → AwakeAt input.instance_id rows' × Sound rows' db.instance_operations
  settle-Sound reservations occupied rows' occupied' e p =
      settle_induction input.inventory input.now
        (λ _ rows _. AwakeAt input.instance_id rows × Sound rows db.instance_operations)
        (λ r rest rows _ _ (awake, sound). (
          All-update
              (λ y. has_id input.instance_id y ≡ true → in_array y.status active_statuses ≡ true)
              (has_id r.id) (released input.now) rows (λ y _ h. h) awake,
          instances-Sound (has_id r.id) (released input.now)
              (λ y _. record { id = refl; user = refl; wakes_none = λ a. a }) (λ y w. w) rows
              db.instance_operations sound,
        ))
        (λ r rest rows _ _ h. h) reservations db.instances occupied rows' occupied' e p

  prepared-HoldsInstances :
      (rows : List Instance) (route_key : Option ℕ)
      → AwakeAt input.instance_id rows
      → Sound rows db.instance_operations
      → Sound
          (update_where (has_id input.instance_id) (prepared_row input route_key) rows)
          db.instance_operations
  prepared-HoldsInstances rows route_key awake (v, w) =
      let keeps =
        All-map (λ y. has_id input.instance_id y ≡ true → in_array y.status active_statuses ≡ true)
          (λ y. has_id input.instance_id y ≡ true → Keeps y (prepared_row input route_key y)) rows
          (λ y up h. record { id = refl; user = refl; wakes_none = λ _. up h }) awake in
      (
        update-HoldsInstances (has_id input.instance_id) (prepared_row input route_key) rows keeps
            (limits_kept (has_id input.instance_id) (prepared_row input route_key) rows (λ y w. w)
              v)
            v,
        update-HoldsOperations (has_id input.instance_id) (prepared_row input route_key) rows keeps
            db.instance_operations w,
      )

  admit-IsValid :
      (rows : List Instance) (occupied : List ℕ)
      → AwakeAt input.instance_id rows × Sound rows db.instance_operations
      → IsValid (admit node input current rows occupied db).0
  unfolding admit
  admit-IsValid rows occupied (awake, sound) =
      elim (Bool-cases
        (not (includes current.id occupied) && leb node.capacity_slots (length occupied))) [
          | inl full ↦ rw full (
              let (v, w) =
                instances-Sound (has_id current.id) (refused_row input.now)
                  (λ y _. record { id = refl; user = refl; wakes_none = λ a. ground (arith, a) })
                  (λ y w. w) rows db.instance_operations sound in
              record { of_instances = v; of_operations = w })
          | inr room ↦ rw room (
              let (v, w) = prepared-HoldsInstances rows current.route_key awake sound in
              record { of_instances = v; of_operations = w })
        ]

  reserve-IsValid :
      IsValid db
      → AwakeAt input.instance_id db.instances
      → KeepsSound (reserve node input current db)
  unfolding reserve
  reserve-IsValid v awake = elim (Bool-cases (foreign input current)) [
    | inl other ↦ rw other tt
    | inr ours ↦
        rw ours
          (elim (Option-cases (
            settle input.inventory input.now (select_where (reserved_on input.node_id) db.instances)
              db.instances (to_set (map (λ a. a.instance_id) input.inventory.allocations)))) [
                | inl thrown ↦ rw (thrown, reserve) tt
                | inr ((rows, occupied), settled) ↦
                    rw (settled, reserve)
                      (admit-IsValid rows occupied (
                        settle-Sound _ _ rows occupied settled
                          (awake, (v.of_instances, v.of_operations))))
              ])
  ]

prepare_on-IsValid :
    (node : LabNode) (input : SpawnRequest) (db : Database)
    → IsValid db
    → KeepsSound (prepare_on node input db)
unfolding prepare_on
prepare_on-IsValid node input db v =
    elim (Option-cases (select_one (has_id input.instance_id) db.instances)) [
      | inl e ↦ rw (e, prepare_on) v
      | inr (current, e) ↦
          rw (e, prepare_on)
            (elim (Bool-cases (status_eq current.status InstanceStatus.running)) [
              | inl runs ↦ rw runs v
              | inr idle ↦
                  rw idle
                    (elim (Bool-cases (
                      in_array current.status
                        (InstanceStatus.pending ∷ InstanceStatus.provisioning ∷ []))) [
                          | inl waits ↦
                              rw waits
                                (reserve-IsValid node input current db v (awake current e waits))
                          | inr done ↦ rw done v
                        ])
            ])
    ]
  where
    awake :
        (current : Instance)
        → select_one (has_id input.instance_id) db.instances ≡ some current
        → in_array current.status (InstanceStatus.pending ∷ InstanceStatus.provisioning ∷ []) ≡ true
        → AwakeAt input.instance_id db.instances
    awake current e waits =
        All-map (λ y. has_id input.instance_id y ≡ true → y ≡ current)
          (λ y. has_id input.instance_id y ≡ true → in_array y.status active_statuses ≡ true)
          db.instances (λ y same h. rw (same h) (ground (arith, waits)))
          (only_row (has_id input.instance_id) (has_id input.instance_id) db.instances current
            (λ y h. h) (v.of_instances.one_id input.instance_id) e)

pub prepare_spawn-IsValid :
    (input : SpawnRequest) (db : Database) → IsValid db → KeepsSound (prepare_spawn input db)
unfolding prepare_spawn
prepare_spawn-IsValid input db v =
    elim (Option-cases (select_one (has_node_id input.node_id) db.lab_nodes)) [
      | inl e ↦ rw (e, prepare_spawn) tt
      | inr (node, e) ↦
          rw (e, prepare_spawn)
            (elim (Bool-cases (is_active_node node.status)) [
              | inl up ↦ rw up (prepare_on-IsValid node input db v)
              | inr down ↦ rw down tt
            ])
    ]
