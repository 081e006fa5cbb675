-- ===== src/Cleanup/Safety.antt =====
-- What a sweep may do to the instances.
use cyber_lab_backend.Prelude.{◌⊎◌, ℕ, ◌≡◌, Bool, true, false, ◌==◌, some, select_one, exists_where}
use cyber_lab_backend.Schema.{Database, Instance, in_array}
use cyber_lab_backend.Intents.{has_id, terminal_statuses}
use cyber_lab_backend.Inventory.{ManagedRuntimeAllocation, ManagedRuntimeInventory}
use cyber_lab_backend.Cleanup.{CleanupIntent}
use cyber_lab_backend.Cleanup.Sweeper.{CleanupRuntime, Swept}

abbrev pub intended : ℕ → CleanupIntent → Bool
intended id i = i.instance_id == id

abbrev pub shown : ℕ → ManagedRuntimeInventory → Bool
shown id inventory =
    exists_where (λ (a : ManagedRuntimeAllocation). a.instance_id == id) inventory.allocations

module _ {W : Type 0} (runtime : CleanupRuntime W) where
  pub record IsSafe (db : Database) (swept : Swept W) : Type 0 where
    pub kept : swept.returned ≡ false → swept.db.instances ≡ db.instances
    pub freed :
        (id : ℕ) (r : Instance)
        → select_one (has_id id) db.instances ≡ some r
        → (select_one (has_id id) swept.db.instances ≡ some r)
          ⊎ ((in_array r.status terminal_statuses ≡ true)
              × ((remaining : ManagedRuntimeInventory) × (runtime.inventory_managed_resources
                      swept.world
                    ≡ some remaining)
                  × (shown id remaining ≡ false)))
