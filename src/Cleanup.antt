-- ===== src/Cleanup.antt =====
-- src/services/managed-resource-cleanup.ts: the plan of the sweep over orphaned resources. The
-- repository of src/db/managed-cleanup-repository.ts and the sweep itself are in the children.
pub mod Plan
pub mod Repository
pub mod Sweeper
pub mod Keeping
pub mod Safety
use cyber_lab_backend.Prelude.{ℕ, Option}
use cyber_lab_backend.Inventory.{ManagedRuntimeAllocation}
use cyber_lab_backend.Runtime.{RuntimeInstanceState}

pub data CleanupReason : Type 0 where
  missing terminal : CleanupReason

pub record CleanupIntent : Type 0 where
  pub instance_id : ℕ
  pub node_id : ℕ
  pub reason : CleanupReason
  pub allocation : ManagedRuntimeAllocation
  pub snapshot : Option RuntimeInstanceState
