-- ===== src/Runtime/Admission/Capacity.antt =====
-- The capacity of a node: what an admission may add.
use cyber_lab_backend.Prelude.{
  ℕ, ◌≢◌, suc, only_row, select_one-holds, ◌≤◌, All, All-map, All-update_split, count-le-length,
  is_member, ◌≡◌, refl, true, false, arith, none, some, List, [], ◌∷◌, Bool-cases, Option-cases,
  inl, inr, select_one, select_where, update_where, exists_where, count_where, ◌||◌, leb, length,
  map, ==_iff,
}
use cyber_lab_backend.Schema.{Database, Instance, LabNode, InstanceStatus}
use cyber_lab_backend.Intents.{has_id}
use cyber_lab_backend.Inventory.{to_set, observed}
use cyber_lab_backend.Validity.{IsValid}
use cyber_lab_backend.Runtime.{RuntimeInstanceState}
use cyber_lab_backend.Runtime.Admission.{
  SpawnRequest, settle, admit, prepared_row, foreign, reserve, prepare_on, prepare_spawn,
  reserved_on, has_node_id,
}
use cyber_lab_backend.Runtime.Admission.Covering.{
  Covered, reservations_listed, unobserved-is_member, not_reserved, OneId, OneId-update,
  settle-OneId, settle-Covered,
}

module _ (node : LabNode) (input : SpawnRequest) (current : Instance) (db : Database) where
  -- With the new reservation the node's rows are still no more than the occupied ids and one.
  prepared-le :
      (rows : List Instance) (occupied : List ℕ)
      → OneId rows
      → Covered input.node_id [] occupied rows
      → count_where
          (reserved_on input.node_id)
          (update_where (has_id input.instance_id) (prepared_row input current.route_key) rows)
        ≤ suc (length occupied)
  prepared-le rows occupied one covered =
      count-le-length (λ y. y.id) (reserved_on input.node_id)
        (update_where (has_id input.instance_id) (prepared_row input current.route_key) rows)
        (input.instance_id ∷ occupied)
        (OneId-update (has_id input.instance_id) (prepared_row input current.route_key) rows
          (λ y. refl) one)
        (All-update_split
          (λ y.
            reserved_on input.node_id y ≡ true
            → (is_member y.id occupied || exists_where (has_id y.id) []) ≡ true)
          (λ y.
            reserved_on input.node_id y ≡ true
            → is_member y.id (input.instance_id ∷ occupied) ≡ true)
          (has_id input.instance_id) (prepared_row input current.route_key) rows
          (λ y hit h t. ground (arith, hit))
          (λ y miss h t. let covers = h t in ground (arith, covers)) covered)

  admit_bound :
      (rows : List Instance) (occupied : List ℕ) (next : Database) (s : RuntimeInstanceState)
      → is_member current.id occupied ≡ false
      → OneId rows
      → Covered input.node_id [] occupied rows
      → admit node input current rows occupied db ≡ (next, some s)
      → count_where (reserved_on input.node_id) next.instances ≤ node.capacity_slots
  unfolding admit
  admit_bound rows occupied next s absent one covered e =
      elim (Bool-cases (leb node.capacity_slots (length occupied))) [
        | inl full ↦ absurd (ground (arith, full, absent))
        | inr room ↦
            let prepared =
              update_where (has_id input.instance_id) (prepared_row input current.route_key) rows in
            let same : next.instances ≡ prepared = ground (arith, room, absent) in
            rw same (ground (arith, prepared-le rows occupied one covered, room))
      ]

  reserve_bound :
      (next : Database) (s : RuntimeInstanceState)
      → IsValid db
      → current.id ≡ input.instance_id
      → All
          (λ y. has_id input.instance_id y ≡ true → reserved_on input.node_id y ≡ false)
          db.instances
      → observed input.inventory.allocations input.instance_id ≡ none
      → reserve node input current db ≡ some (next, some s)
      → count_where (reserved_on input.node_id) next.instances ≤ node.capacity_slots
  unfolding reserve
  reserve_bound next s v same free unseen e = elim (Bool-cases (foreign input current)) [
    | inl other ↦ absurd (ground (arith, other))
    | inr ours ↦
        elim (Option-cases (settle input.inventory input.now reservations db.instances ids)) [
          | inl thrown ↦ absurd (ground (arith, ours, thrown))
          | inr ((rows, occupied), settled) ↦
              let (covered, absent) =
                settle-Covered input reservations db.instances ids rows occupied settled (
                  reservations_listed input.node_id ids db.instances,
                  (
                    not_reserved input.node_id input.instance_id db.instances free,
                    unobserved-is_member input.inventory.allocations input.instance_id unseen,
                  ),
                ) in
              admit_bound rows occupied next s (rw same absent.1)
                (settle-OneId input.inventory input.now reservations db.instances ids rows occupied
                  settled v.of_instances.one_id)
                covered (ground (arith, ours, settled))
        ]
  ]
    where
      reservations : List Instance
      reservations = select_where (reserved_on input.node_id) db.instances

      ids : List ℕ
      ids = to_set (map (λ a. a.instance_id) input.inventory.allocations)

-- If the admission to a node returns the state of a waiting instance that holds no reservation and
-- of which the inventory shows no resource, then afterwards the node's reservations, the new one
-- included, are at most its capacity; the tables were valid before.
pub prepare_spawn-le-capacity :
    (input : SpawnRequest) (db next : Database) (node : LabNode) (current : Instance)
    (s : RuntimeInstanceState)
    → IsValid db
    → select_one (has_node_id input.node_id) db.lab_nodes ≡ some node
    → select_one (has_id input.instance_id) db.instances ≡ some current
    → current.status ≢ InstanceStatus.running
    → current.node_id ≡ none
    → observed input.inventory.allocations input.instance_id ≡ none
    → prepare_spawn input db ≡ some (next, some s)
    → count_where (reserved_on input.node_id) next.instances ≤ node.capacity_slots
unfolding prepare_spawn prepare_on
prepare_spawn-le-capacity input db next node current s v at_node found idle free unseen e =
    reserve_bound node input current db next s v
      ((==_iff _ _).0 (select_one-holds (has_id input.instance_id) db.instances current found))
      (All-map (λ y. has_id input.instance_id y ≡ true → y ≡ current)
        (λ y. has_id input.instance_id y ≡ true → reserved_on input.node_id y ≡ false) db.instances
        (λ y same h. rw (same h, free))
        (only_row (has_id input.instance_id) (has_id input.instance_id) db.instances current
          (λ y h. h) (v.of_instances.one_id input.instance_id) found))
      unseen (ground (arith, at_node, found, idle))
