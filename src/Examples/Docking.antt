-- ===== src/Examples/Docking.antt =====
-- A Docker host with one container on one isolated network, both of instance 11 and challenge 3.
use cyber_lab_backend.Prelude.{
  ℕ, ◌+◌, ◌*◌, ◌≡◌, ◌≢◌, refl, true, false, none, some, [], ◌∷◌, All, arith,
}
use cyber_lab_backend.Inventory.{ManagedRuntimeAllocation, ManagedRuntimeInventory}
use cyber_lab_backend.Orchestrator.{SpawnTargetInput, SpawnedTarget}
use cyber_lab_backend.Orchestrator.{RuntimeManifest}
use cyber_lab_backend.Orchestrator.Registry.{
  register, set_last, create_registry, get_manifest, get_manifest-create_registry,
}
use cyber_lab_backend.Docker.{of_container, of_network, reserved, Resource, managed_labels}
use cyber_lab_backend.Docker.Listing.{
  inventory_managed_resources, visit_all, visit, allocate, put, put_routes,
}
use cyber_lab_backend.Docker.Complete.{IsComplete, inventory-IsComplete}
use cyber_lab_backend.Docker.Client.{
  replied, is_healthy, ContainerInfo, NetworkInfo, userns, apparmor, seccomp, Client, require,
  tolerate, or_missing,
}
use cyber_lab_backend.Docker.Adapter.{
  find_container, find_network, assert_managed_labels, try_container, try_network, status_on,
  status_connected, status_of, status_found, runtime_status,
}
use cyber_lab_backend.Docker.Isolation.{Healthy, runtime_status-Healthy}
use cyber_lab_backend.Docker.Spawning.{
  verify_host_security, assert_managed_network, ensure_ingress_connected, connect_ingress,
  by_health, wait, wait_until_healthy, turns_of, start, launch, restart, spawn_found, spawn_target,
}
use cyber_lab_backend.Docker.Started.{Started, spawn_target-Started}
use cyber_lab_backend.Docker.Waiting.{IsTimed, wait-ends}
use cyber_lab_backend.Docker.Clearing.{Clearing}
use cyber_lab_backend.Docker.Owned.{Owned}
use cyber_lab_backend.Actions.{Host, Call, returned, pure, on_throw, ◌>>=◌, ◌>>◌}
use cyber_lab_backend.Examples.{start as tables}

abbrev container : Resource
container = record {
  id = 80;
  names = reserved true of_container 11 ∷ [];
  labels = managed_labels 11 3;
}

abbrev network : Resource
network = record {
  id = 90;
  names = reserved false of_network 11 ∷ [];
  labels = managed_labels 11 3;
}

abbrev allocation : ManagedRuntimeAllocation
allocation = record {
  instance_id = 11;
  challenge_id = some 3;
  container_id = some 80;
  network_id = some 90;
  route_present = true;
}

abbrev listed : ManagedRuntimeInventory
listed = record { allocations = allocation ∷ []; container_ids = 80 ∷ []; network_ids = 90 ∷ [] }

inventory-IsComplete_example : IsComplete (container ∷ []) (network ∷ []) (some 11 ∷ []) listed
unfolding inventory_managed_resources visit_all visit allocate put put_routes
inventory-IsComplete_example =
    inventory-IsComplete (λ r. false) (container ∷ []) (network ∷ []) (some 11 ∷ []) listed refl

abbrev container_info : ContainerInfo
container_info = record {
  id = 80;
  name = reserved true of_container 11;
  labels = managed_labels 11 3;
  oom_killed = false;
  running = true;
  health = some is_healthy;
  networks = reserved false of_network 11 ∷ [];
}

abbrev network_info : NetworkInfo
network_info = record {
  id = 90;
  name = reserved false of_network 11;
  labels = managed_labels 11 3;
  driver = "bridge";
  enable_ipv6 = false;
  internal = true;
  attachable = false;
  gateway_mode_ipv4 = some "isolated";
  gateway_mode_ipv6 = some "isolated";
  containers = [];
}

-- The world is the time in milliseconds.
abbrev answer : {A : Type 0} → A → Call ℕ A
answer a h = (h, returned a)

abbrev pub docker : Client ℕ
docker = record {
  list_all_containers = answer [];
  list_all_networks = answer [];
  list_instance_ids = answer [];
  list_containers = λ id. answer (80 ∷ []);
  list_networks = λ id. answer (90 ∷ []);
  inspect_container = λ id. answer (replied container_info);
  inspect_named = λ name. answer (replied container_info);
  has_image = λ image. answer (replied tt);
  inspect_network = λ id. answer (replied network_info);
  create_container = λ options. answer (replied 80);
  create_network = λ options. answer (replied 90);
  start_container = λ id. answer (replied tt);
  stop_container = λ id. answer (replied tt);
  delete_container = λ id. answer (replied tt);
  delete_network = λ id. answer (replied tt);
  connect = λ id name. answer (replied tt);
  disconnect = λ id container_id. answer (replied tt);
  upsert_route = λ route. answer tt;
  remove_route = λ id. answer tt;
  validate_managed_route = λ id. answer tt;
  now = λ h. (h, returned h.world);
  pause = λ h. (record h { world = h.world + 500 }, returned tt);
  info =
      answer (record {
        security_options = userns ∷ apparmor ∷ seccomp true ∷ [];
        server_major = some 28;
      });
  host_verified = answer false;
  set_host_verified = answer tt;
}

abbrev here_now : Host ℕ
here_now = record { db = tables; world = 0 }

runtime_status-Healthy_example : Healthy docker none 11
unfolding runtime_status status_found status_of status_connected status_on find_container
    find_network try_container try_network assert_managed_labels or_missing pure ◌>>=◌ ◌>>◌
runtime_status-Healthy_example = runtime_status-Healthy docker none 11 here_now here_now refl

abbrev input : SpawnTargetInput
input = record {
  instance_id = 11;
  challenge_id = 3;
  route_key = 70;
  flag = "flag";
  manifest = record {
    challenge_id = 3;
    image = "image";
    container_port = 8080;
    user = "1000";
    command = none;
    healthcheck = record {
      test = "CMD" ∷ "true" ∷ [];
      interval_seconds = 2;
      timeout_seconds = 1;
      retries = 3;
      startup_seconds = 10;
    };
    resources = record { memory_mb = 128; nano_cpus = 500000000; pids = 64; tmpfs_mb = 16 };
  };
}

abbrev target : SpawnedTarget
target = record { container_id = 80; network_id = 90 }

spawn_target-Started_example : Started docker none (λ key. true) (λ t. 4) input target
unfolding spawn_target spawn_found restart launch verify_host_security find_container find_network
    assert_managed_network assert_managed_labels ensure_ingress_connected connect_ingress start
    wait_until_healthy wait by_health require tolerate on_throw pure ◌>>=◌ ◌>>◌
spawn_target-Started_example =
    spawn_target-Started docker none (λ key. true) (λ t. 4) input here_now here_now target refl

timed : IsTimed docker (λ h. h.world)
timed = record {
  reads = λ h h' now e. ground (arith, e);
  after = λ h h' now e. ground (arith, e);
  inspects = λ id h h' e. ground (arith, e);
  pauses = λ h h' e. ground (arith, e);
}

wait-ends_example :
    wait docker none (λ key. true) (λ t. 4) (turns_of 10) (0 + 10 * 1000) 80 here_now
    ≢ (here_now, returned false)
wait-ends_example =
    wait-ends docker none (λ key. true) (λ t. 4) (λ h. h.world) timed 10 0 80 here_now here_now
      here_now refl

abbrev clearing : Clearing
clearing = record { allocation = allocation; container = some 80; network = some (90, none) }

abbrev second_manifest : RuntimeManifest
second_manifest = record input.manifest { challenge_id = 4 }

get_manifest-create_registry_example :
    All
      (λ m. get_manifest m.challenge_id (input.manifest ∷ second_manifest ∷ []) ≡ some m)
      (input.manifest ∷ second_manifest ∷ [])
unfolding create_registry register set_last
get_manifest-create_registry_example =
    get_manifest-create_registry (input.manifest ∷ second_manifest ∷ [])
      (input.manifest ∷ second_manifest ∷ []) refl
