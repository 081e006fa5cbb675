-- ===== src/Examples/Sweeping.antt =====
-- A sweep over a node on which a failed instance has left its container.
use cyber_lab_backend.Prelude.{◌≡◌, refl, Bool, true, false, none, some, [], ◌∷◌, if◌then◌else◌}
use cyber_lab_backend.Schema.{Database, Instance, InstanceStatus}
use cyber_lab_backend.Inventory.{ManagedRuntimeAllocation, ManagedRuntimeInventory, observed}
use cyber_lab_backend.Cleanup.Sweeper.{CleanupRuntime, Removal, sweep}
use cyber_lab_backend.Cleanup.Plan.{build_cleanup_plan, resources_remain}
use cyber_lab_backend.Cleanup.Repository.{
  read_snapshot, begin_cleanup, complete_cleanup, release_all,
}
use cyber_lab_backend.Examples.{start}

abbrev leftover : ManagedRuntimeAllocation
leftover = record {
  instance_id = 11;
  challenge_id = some 3;
  container_id = some 80;
  network_id = none;
  route_present = false;
}

abbrev pub full : ManagedRuntimeInventory
full = record { allocations = leftover ∷ []; container_ids = 80 ∷ []; network_ids = [] }

abbrev pub empty : ManagedRuntimeInventory
empty = record { allocations = []; container_ids = []; network_ids = [] }

abbrev remove : Removal Bool
remove w = (false, true)

-- The runtime either has the container or not.
abbrev pub docker : CleanupRuntime Bool
docker = record {
  inventory_managed_resources = λ w. some (if w then full else empty);
  prepare_managed_cleanup = λ w allocations. some (remove ∷ []);
}

abbrev pub failed_row : Instance
failed_row = record {
  id = 11;
  user_id = 7;
  challenge_id = 3;
  node_id = some 5;
  status = InstanceStatus.failed;
  route_key = some 70;
  container_id = some 80;
  network_id = none;
  failure_code = some "runtime";
  created_at = 1000;
  updated_at = 1000;
  started_at = none;
  expires_at = 3601000;
  absolute_expires_at = 7201000;
  stopped_at = some 2000;
}

abbrev littered : Database
littered = record start { instances = failed_row ∷ [] }

-- The sweep removes the container and frees the node.
sweep_frees : (sweep docker 5 3000 3001 3002 littered true).returned ≡ true
unfolding sweep build_cleanup_plan read_snapshot begin_cleanup complete_cleanup release_all
    resources_remain observed
sweep_frees = refl
