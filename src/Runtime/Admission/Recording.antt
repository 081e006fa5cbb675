-- ===== src/Runtime/Admission/Recording.antt =====
-- An admission leaves the table of operations alone.
use cyber_lab_backend.Prelude.{
  ℕ, ◌≡◌, Option, some, List, select_one, select_where, arith, Option-cases, inl, inr, map,
}
use cyber_lab_backend.Schema.{Database, Instance, LabNode}
use cyber_lab_backend.Intents.{has_id}
use cyber_lab_backend.Inventory.{to_set}
use cyber_lab_backend.Runtime.{RuntimeInstanceState}
use cyber_lab_backend.Runtime.Admission.{
  SpawnRequest, settle, admit, reserve, prepare_on, prepare_spawn, reserved_on, has_node_id,
}

admit-operations :
    (node : LabNode) (input : SpawnRequest) (current : Instance) (rows : List Instance)
    (occupied : List ℕ) (db : Database)
    → (admit node input current rows occupied db).0.instance_operations ≡ db.instance_operations
unfolding admit
admit-operations node input current rows occupied db = ground arith

reserve-operations :
    (node : LabNode) (input : SpawnRequest) (current : Instance) (db next : Database)
    (result : Option RuntimeInstanceState)
    → reserve node input current db ≡ some (next, result)
    → next.instance_operations ≡ db.instance_operations
unfolding reserve
reserve-operations node input current db next result e =
    elim (Option-cases (
      settle input.inventory input.now (select_where (reserved_on input.node_id) db.instances)
        db.instances (to_set (map (λ a. a.instance_id) input.inventory.allocations)))) [
          | inl thrown ↦ absurd (ground (arith, thrown))
          | inr ((rows, occupied), settled) ↦
              ground (arith, settled, admit-operations node input current rows occupied db)
        ]

pub prepare_spawn-operations :
    (input : SpawnRequest) (db next : Database) (result : Option RuntimeInstanceState)
    → prepare_spawn input db ≡ some (next, result)
    → next.instance_operations ≡ db.instance_operations
unfolding prepare_spawn prepare_on
prepare_spawn-operations input db next result e =
    elim (Option-cases (select_one (has_node_id input.node_id) db.lab_nodes)) [
      | inl unknown ↦ absurd (ground (arith, unknown))
      | inr (node, at_node) ↦
          elim (Option-cases (select_one (has_id input.instance_id) db.instances)) [
            | inl missing ↦ ground (arith, at_node, missing)
            | inr (current, found) ↦
                let rest = reserve-operations node input current db next result in
                ground (arith, at_node, found, rest)
          ]
    ]
