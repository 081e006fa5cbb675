-- ===== src/Runtime/Admission.antt =====
-- `prepareSpawn` of src/db/lifecycle-state-repository.ts: the admission of an instance to a node, under
-- the node's lock.
pub mod Settling
pub mod Keeping
pub mod Recording
pub mod Covering
pub mod Capacity
pub mod Retrying
pub mod Advancing
use cyber_lab_backend.Prelude.{
  ℕ, Bool, true, false, not, ◌&&◌, ◌||◌, ◌==◌, leb, ltb, if◌then◌else◌, option_eq, is_some, or_else,
  Option, none, some, String, List, [], ◌∷◌, length, map, select_one, select_where, update_where,
  exists_where,
}
use cyber_lab_backend.Schema.{
  Database, Instance, LabNode, InstanceStatus, AuditEvent, of_failure, in_array, status_eq,
  is_active_node,
}
use cyber_lab_backend.Schema
use cyber_lab_backend.Intents.{Transaction, has_id, terminal_statuses}
use mathlib.Core.Option
use text.Mathlib.Text.{◌==◌ as text_eq}
use cyber_lab_backend.Inventory.{
  ManagedRuntimeAllocation, ManagedRuntimeInventory, observed, includes, add_to_set, to_set,
}
use cyber_lab_backend.Runtime.{RuntimeInstanceState, selection}

pub record SpawnRequest : Type 0 where
  pub instance_id : ℕ
  pub node_id : ℕ
  pub route_key : ℕ
  pub inventory : ManagedRuntimeInventory
  pub now : ℕ

abbrev pub has_node_id : ℕ → LabNode → Bool
has_node_id id n = n.id == id

abbrev pub reserved_on : ℕ → Instance → Bool
reserved_on node_id r = option_eq r.node_id (some node_id)

-- `allocation?.challengeId && allocation.challengeId !== challengeId`
abbrev pub challenge_differs : Option ManagedRuntimeAllocation → ℕ → Bool
challenge_differs none challenge_id = false
challenge_differs (some a) challenge_id = elim a.challenge_id [
  | none ↦ false
  | some c ↦ not (c == challenge_id)
]

abbrev pub container_of : Option ManagedRuntimeAllocation → Option ℕ
container_of none = none
container_of (some a) = a.container_id

abbrev pub network_of : Option ManagedRuntimeAllocation → Option ℕ
network_of none = none
network_of (some a) = a.network_id

-- A persisted resource id that the Engine has, but not as the resource of this instance.
abbrev pub mislabeled_id : Option ℕ → List ℕ → Option ℕ → Bool
mislabeled_id none ids labelled = false
mislabeled_id (some id) ids labelled = includes id ids && not (option_eq labelled (some id))

pub misowned : ManagedRuntimeInventory → Instance → Bool
misowned inventory r =
    let a = observed inventory.allocations r.id in
    (mislabeled_id r.container_id inventory.container_ids (container_of a)
      || mislabeled_id r.network_id inventory.network_ids (network_of a))
    || challenge_differs a r.challenge_id

abbrev pub released : ℕ → Instance → Instance
released now r = record r {
  node_id = none;
  container_id = none;
  network_id = none;
  route_key = none;
  updated_at = now;
}

-- Terminal, and nothing of it left on the node.
abbrev pub releasable : ManagedRuntimeInventory → Instance → Bool
releasable inventory r =
    in_array r.status terminal_statuses && not (is_some (observed inventory.allocations r.id))

-- The loop over the node's reservations, with the table and the set of occupied ids.
pub settle :
    ManagedRuntimeInventory
    → ℕ
    → List Instance
    → List Instance
    → List ℕ
    → Option (List Instance × List ℕ)
unfolding misowned
settle inventory now [] rows occupied = some (rows, occupied)
settle inventory now (r ∷ reservations) rows occupied =
    let rest =
      settle inventory now reservations
        (if releasable inventory r then update_where (has_id r.id) (released now) rows else rows)
        (if releasable inventory r then occupied else add_to_set r.id occupied) in
    if misowned inventory r then none else rest

abbrev refused_row : ℕ → Instance → Instance
refused_row now r = record r {
  status = InstanceStatus.failed;
  failure_code = some "node_capacity_exhausted";
  stopped_at = some now;
  updated_at = now;
}

abbrev pub prepared_row : SpawnRequest → Option ℕ → Instance → Instance
prepared_row input route_key r = record r {
  status = InstanceStatus.provisioning;
  node_id = some input.node_id;
  route_key = some (or_else route_key input.route_key);
  updated_at = input.now;
}

abbrev refusal_event : ℕ → Instance → AuditEvent
refusal_event now current = record {
  actor_user_id = none;
  target_user_id = some current.user_id;
  event_type = "instance.capacity_refused";
  correlation_id = none;
  details = of_failure current.id "node_capacity_exhausted";
  created_at = some now;
}

-- The decision, once the reservations are settled.
pub admit :
    LabNode
    → SpawnRequest
    → Instance
    → List Instance
    → List ℕ
    → Database
    → Database × Option RuntimeInstanceState
admit node input current rows occupied db =
    if not (includes current.id occupied) && leb node.capacity_slots (length occupied)
    then (
      record db {
        instances = update_where (has_id current.id) (refused_row input.now) rows;
        audit_events = refusal_event input.now current ∷ db.audit_events;
      },
      none,
    )
    else let prepared =
        update_where (has_id input.instance_id) (prepared_row input current.route_key) rows in
      (
        record db { instances = prepared },
        Option.map selection (select_one (has_id input.instance_id) prepared),
      )

-- A reservation on another node, or a label of another challenge.
abbrev foreign : SpawnRequest → Instance → Bool
foreign input current =
    (is_some current.node_id && not (option_eq current.node_id (some input.node_id)))
    || challenge_differs (observed input.inventory.allocations current.id) current.challenge_id

reserve : LabNode → SpawnRequest → Instance → Database → Transaction (Option RuntimeInstanceState)
unfolding settle admit
reserve node input current db =
    if foreign input current
    then none
    else elim (settle input.inventory input.now
        (select_where (reserved_on input.node_id) db.instances) db.instances
        (to_set (map (λ a. a.instance_id) input.inventory.allocations))) [
          | none ↦ none
          | some (rows, occupied) ↦ some (admit node input current rows occupied db)
        ]

prepare_on : LabNode → SpawnRequest → Database → Transaction (Option RuntimeInstanceState)
unfolding reserve
prepare_on node input db = elim (select_one (has_id input.instance_id) db.instances) [
  | none ↦ some (db, none)
  | some current ↦
      if status_eq current.status InstanceStatus.running
      then some (db, some (selection current))
      else if in_array current.status (InstanceStatus.pending ∷ InstanceStatus.provisioning ∷ [])
      then reserve node input current db
      else some (db, none)
]

unfoldable pub prepare_spawn : SpawnRequest → Database → Transaction (Option RuntimeInstanceState)
unfolding prepare_on
prepare_spawn input db = elim (select_one (has_node_id input.node_id) db.lab_nodes) [
  | none ↦ none
  | some node ↦ if is_active_node node.status then prepare_on node input db else none
]
