-- ===== src/Orchestrator.antt =====
-- What the worker asks of the Docker host: the types of src/orchestrator/docker-adapter.ts and
-- src/orchestrator/runtime-manifests.ts, and the interface that the lifecycle handler uses.
pub mod Registry
use cyber_lab_backend.Prelude.{ℕ, Option, String, List}
use cyber_lab_backend.Inventory.{ManagedRuntimeInventory}
use cyber_lab_backend.Actions.{Call}

pub record Healthcheck : Type 0 where
  pub test : List String
  pub interval_seconds : ℕ
  pub timeout_seconds : ℕ
  pub retries : ℕ
  pub startup_seconds : ℕ

-- The share of the processor is in billionths of a core, as Docker takes it.
pub record Resources : Type 0 where
  pub memory_mb : ℕ
  pub nano_cpus : ℕ
  pub pids : ℕ
  pub tmpfs_mb : ℕ

pub record RuntimeManifest : Type 0 where
  pub challenge_id : ℕ
  pub image : String
  pub container_port : ℕ
  pub user : String
  pub command : Option (List String)
  pub healthcheck : Healthcheck
  pub resources : Resources

pub record SpawnTargetInput : Type 0 where
  pub instance_id : ℕ
  pub challenge_id : ℕ
  pub route_key : ℕ
  pub flag : String
  pub manifest : RuntimeManifest

pub record SpawnedTarget : Type 0 where
  pub container_id : ℕ
  pub network_id : ℕ

pub record DestroyTargetInput : Type 0 where
  pub instance_id : ℕ
  pub container_id : Option ℕ
  pub network_id : Option ℕ

pub data RuntimeStatus : Type 0 where
  healthy missing stopped oom unhealthy unsafe_network : RuntimeStatus

-- The calls of `DockerOrchestrator` that the handler makes.
pub record Orchestrator (W : Type 0) : Type 0 where
  pub inventory_managed_resources : Call W ManagedRuntimeInventory
  pub spawn : SpawnTargetInput → Call W SpawnedTarget
  pub destroy : DestroyTargetInput → Call W (Unit {0})
  pub runtime_status : ℕ → Call W RuntimeStatus
