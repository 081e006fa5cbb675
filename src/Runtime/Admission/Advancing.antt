-- ===== src/Runtime/Admission/Advancing.antt =====
-- What an admission does to the table of instances.
use cyber_lab_backend.Prelude.{
  ℕ, All, All-update, All-map, only_row, ◌≡◌, refl, Bool, true, arith, Option, none, some, List, [],
  ◌∷◌, Bool-cases, Option-cases, inl, inr, select_one, select_where, not, ◌&&◌, leb, length, map,
  select_one-holds, ==_iff,
}
use cyber_lab_backend.Schema.{
  Database, Instance, LabNode, InstanceStatus, in_array, status_eq, is_active_node,
}
use cyber_lab_backend.Intents.{has_id}
use cyber_lab_backend.Inventory.{includes, to_set}
use cyber_lab_backend.Validity.{IsValid}
use cyber_lab_backend.Lifecycle.Evolution.{
  Evolves, Evolves-refl, Evolves-trans, Evolves-update, Evolves-everywhere, Follows,
  same_status-Follows, status-Follows,
}
use cyber_lab_backend.Runtime.Admission.Settling.{settle_induction}
use cyber_lab_backend.Runtime.Admission.{
  SpawnRequest, settle, released, admit, refused_row, prepared_row, foreign, reserve, prepare_on,
  prepare_spawn, reserved_on, has_node_id,
}

-- A thrown error writes nothing; else the instances have evolved.
abbrev pub EvolvesFrom : {A : Type 0} → Database → Option (Database × A) → Type 0
EvolvesFrom db none = Unit {0}
EvolvesFrom db (some (next, a)) = Evolves db.instances next.instances

abbrev waiting : InstanceStatus → Bool
waiting s = in_array s (InstanceStatus.pending ∷ InstanceStatus.provisioning ∷ [])

-- Whatever row stands under the id waits for its spawn.
abbrev WaitsAt : ℕ → List Instance → Type 0
WaitsAt id = All (λ y. has_id id y ≡ true → waiting y.status ≡ true)

module _ (node : LabNode) (input : SpawnRequest) (current : Instance) (db : Database)
    (same : current.id ≡ input.instance_id) where
  settle-Evolves :
      (reservations : List Instance) (occupied : List ℕ) (rows' : List Instance)
      (occupied' : List ℕ)
      → settle input.inventory input.now reservations db.instances occupied
        ≡ some (rows', occupied')
      → WaitsAt input.instance_id db.instances
      → WaitsAt input.instance_id rows' × Evolves db.instances rows'
  settle-Evolves reservations occupied rows' occupied' e waits =
      settle_induction input.inventory input.now
        (λ _ rows _. WaitsAt input.instance_id rows × Evolves db.instances rows)
        (λ r rest rows _ _ (w, evolves). (
          All-update (λ y. has_id input.instance_id y ≡ true → waiting y.status ≡ true)
              (has_id r.id) (released input.now) rows (λ y _ h. h) w,
          Evolves-trans evolves (
              Evolves-everywhere (has_id r.id) (released input.now) rows (λ y _.
                same_status-Follows y (released input.now y) refl refl refl refl refl refl refl)),
        ))
        (λ r rest rows _ _ h. h) reservations db.instances occupied rows' occupied' e
        (waits, Evolves-refl db.instances)

  admit-From :
      (rows : List Instance) (occupied : List ℕ)
      → WaitsAt input.instance_id rows
      → Evolves rows (admit node input current rows occupied db).0.instances
  unfolding admit
  admit-From rows occupied waits =
      elim (Bool-cases
        (not (includes current.id occupied) && leb node.capacity_slots (length occupied))) [
          | inl full ↦
              rw (full, same)
                (Evolves-update (has_id input.instance_id) (refused_row input.now) rows (
                  All-map (λ y. has_id input.instance_id y ≡ true → waiting y.status ≡ true)
                    (λ y. has_id input.instance_id y ≡ true → Follows y (refused_row input.now y))
                    rows
                    (λ y w h.
                      status-Follows y (refused_row input.now y) refl refl refl refl refl refl
                        (let at_rest = w h in ground (arith, at_rest)))
                    waits))
          | inr room ↦ rw room (
              Evolves-update (has_id input.instance_id) (prepared_row input current.route_key) rows
                (All-map (λ y. has_id input.instance_id y ≡ true → waiting y.status ≡ true)
                  (λ y.
                    has_id input.instance_id y ≡ true
                    → Follows y (prepared_row input current.route_key y))
                  rows
                  (λ y w h.
                    status-Follows y (prepared_row input current.route_key y) refl refl refl refl
                      refl refl (let at_rest = w h in ground (arith, at_rest)))
                  waits))
        ]

  reserve-From :
      WaitsAt input.instance_id db.instances → EvolvesFrom db (reserve node input current db)
  unfolding reserve
  reserve-From waits = elim (Bool-cases (foreign input current)) [
    | inl other ↦ rw other tt
    | inr ours ↦
        rw ours
          (elim (Option-cases (
            settle input.inventory input.now (select_where (reserved_on input.node_id) db.instances)
              db.instances (to_set (map (λ a. a.instance_id) input.inventory.allocations)))) [
                | inl thrown ↦ rw (thrown, reserve) tt
                | inr ((rows, occupied), settled) ↦
                    rw (settled, reserve)
                      (let (still, evolves) = settle-Evolves _ _ rows occupied settled waits in
                        Evolves-trans evolves (admit-From rows occupied still))
              ])
  ]

prepare_on-From :
    (node : LabNode) (input : SpawnRequest) (db : Database)
    → IsValid db
    → EvolvesFrom db (prepare_on node input db)
unfolding prepare_on
prepare_on-From node input db v =
    elim (Option-cases (select_one (has_id input.instance_id) db.instances)) [
      | inl e ↦ rw (e, prepare_on) (Evolves-refl db.instances)
      | inr (current, e) ↦
          rw (e, prepare_on)
            (elim (Bool-cases (status_eq current.status InstanceStatus.running)) [
              | inl runs ↦ rw runs (Evolves-refl db.instances)
              | inr idle ↦ rw idle (elim (Bool-cases (waiting current.status)) [
                | inl waits ↦ rw waits (
                    reserve-From node input current db
                      ((==_iff _ _).0
                        (select_one-holds (has_id input.instance_id) db.instances current e))
                      (at_rest current e waits))
                | inr done ↦ rw done (Evolves-refl db.instances)
              ])
            ])
    ]
  where
    at_rest :
        (current : Instance)
        → select_one (has_id input.instance_id) db.instances ≡ some current
        → waiting current.status ≡ true
        → WaitsAt input.instance_id db.instances
    at_rest current e waits =
        All-map (λ y. has_id input.instance_id y ≡ true → y ≡ current)
          (λ y. has_id input.instance_id y ≡ true → waiting y.status ≡ true) db.instances
          (λ y same h. rw (same h) waits)
          (only_row (has_id input.instance_id) (has_id input.instance_id) db.instances current
            (λ y h. h) (v.of_instances.one_id input.instance_id) e)

pub prepare_spawn-From :
    (input : SpawnRequest) (db : Database) → IsValid db → EvolvesFrom db (prepare_spawn input db)
unfolding prepare_spawn
prepare_spawn-From input db v =
    elim (Option-cases (select_one (has_node_id input.node_id) db.lab_nodes)) [
      | inl e ↦ rw (e, prepare_spawn) tt
      | inr (node, e) ↦
          rw (e, prepare_spawn)
            (elim (Bool-cases (is_active_node node.status)) [
              | inl up ↦ rw up (prepare_on-From node input db v)
              | inr down ↦ rw down tt
            ])
    ]
