-- ===== src/Cleanup/Plan.antt =====
-- `buildCleanupPlan`, `isTerminal` and `resourcesRemain` of src/services/managed-resource-cleanup.ts.
use cyber_lab_backend.Prelude.{
  ℕ, Bool, false, not, ◌&&◌, ◌||◌, ◌==◌, if◌then◌else◌, option_eq, is_some, Option, none, some,
  List, [], ◌∷◌, ◌++◌, select_last, exists_where,
}
use cyber_lab_backend.Schema.{InstanceStatus, in_array}
use cyber_lab_backend.Intents.{terminal_statuses}
use cyber_lab_backend.Inventory.{
  ManagedRuntimeAllocation, ManagedRuntimeInventory, observed, includes,
}
use cyber_lab_backend.Runtime.{RuntimeInstanceState}
use cyber_lab_backend.Runtime.Admission.{challenge_differs, container_of, network_of, mislabeled_id}
use cyber_lab_backend.Cleanup.{CleanupIntent, CleanupReason}

abbrev pub is_terminal : InstanceStatus → Bool
is_terminal s = in_array s terminal_statuses

-- The three reasons for which the snapshot is refused as a whole.
unfoldable pub inconsistent : ℕ → ManagedRuntimeInventory → RuntimeInstanceState → Bool
inconsistent node_id inventory r =
    let a = observed inventory.allocations r.id in
    (is_some a && is_some r.node_id && not (option_eq r.node_id (some node_id)))
    || challenge_differs a r.challenge_id
    || mislabeled_id r.container_id inventory.container_ids (container_of a)
    || mislabeled_id r.network_id inventory.network_ids (network_of a)

abbrev pub record_under : ℕ → List RuntimeInstanceState → Option RuntimeInstanceState
record_under id records = select_last (λ r. r.id == id) records

abbrev awake : Option RuntimeInstanceState → Bool
awake none = false
awake (some r) = not (is_terminal r.status)

abbrev reason_for : Option RuntimeInstanceState → CleanupReason
reason_for none = CleanupReason.missing
reason_for (some r) = CleanupReason.terminal

-- The first loop: the allocations whose instance is unknown or terminal.
unfoldable pub allocation_intents :
    ℕ → List RuntimeInstanceState → List ManagedRuntimeAllocation → List CleanupIntent
allocation_intents node_id records [] = []
allocation_intents node_id records (a ∷ allocations) =
    let rest = allocation_intents node_id records allocations in
    let found = record_under a.instance_id records in
    if awake found
    then rest
    else record {
      instance_id = a.instance_id;
      node_id = node_id;
      reason = reason_for found;
      allocation = a;
      snapshot = found;
    }
      ∷ rest

abbrev pub unobserved : ℕ → ManagedRuntimeInventory → RuntimeInstanceState → Bool
unobserved node_id inventory r =
    option_eq r.node_id (some node_id)
    && is_terminal r.status
    && not (is_some (observed inventory.allocations r.id))

-- The second loop: the terminal reservations of which the node shows nothing.
unfoldable pub reservation_intents :
    ℕ → ManagedRuntimeInventory → List RuntimeInstanceState → List CleanupIntent
reservation_intents node_id inventory [] = []
reservation_intents node_id inventory (r ∷ records) =
    let rest = reservation_intents node_id inventory records in
    if unobserved node_id inventory r
    then record {
      instance_id = r.id;
      node_id = node_id;
      reason = CleanupReason.terminal;
      allocation = record {
        instance_id = r.id;
        challenge_id = some r.challenge_id;
        container_id = none;
        network_id = none;
        route_present = false;
      };
      snapshot = some r;
    }
      ∷ rest
    else rest

-- `none` is a thrown `Error`.
unfoldable pub build_cleanup_plan :
    ℕ → ManagedRuntimeInventory → List RuntimeInstanceState → Option (List CleanupIntent)
unfolding inconsistent allocation_intents reservation_intents
build_cleanup_plan node_id inventory records =
    if exists_where (inconsistent node_id inventory) records
    then none
    else some (
        allocation_intents node_id records inventory.allocations
        ++ reservation_intents node_id inventory records)

abbrev listed : Option ℕ → List ℕ → Bool
listed none ids = false
listed (some id) ids = includes id ids

abbrev pub snapshot_container : Option RuntimeInstanceState → Option ℕ
snapshot_container none = none
snapshot_container (some r) = r.container_id

abbrev pub snapshot_network : Option RuntimeInstanceState → Option ℕ
snapshot_network none = none
snapshot_network (some r) = r.network_id

unfoldable pub resources_remain : ManagedRuntimeInventory → CleanupIntent → Bool
resources_remain inventory intent =
    exists_where (λ (a : ManagedRuntimeAllocation). a.instance_id == intent.instance_id)
      inventory.allocations
    || (listed intent.allocation.container_id inventory.container_ids
        || listed (snapshot_container intent.snapshot) inventory.container_ids)
    || (listed intent.allocation.network_id inventory.network_ids
        || listed (snapshot_network intent.snapshot) inventory.network_ids)
