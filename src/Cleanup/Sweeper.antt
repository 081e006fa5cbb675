-- ===== src/Cleanup/Sweeper.antt =====
-- `ManagedResourceSweeper.sweep` of src/services/managed-resource-cleanup.ts. The Docker runtime is a
-- parameter over a state of its own; every call of it may throw (`none`). A removal that throws may
-- have changed the runtime.
use cyber_lab_backend.Prelude.{
  ℕ, Bool, true, false, if◌then◌else◌, Option, none, some, List, [], ◌∷◌, map, exists_where,
}
use cyber_lab_backend.Schema.{Database}
use cyber_lab_backend.Inventory.{ManagedRuntimeAllocation, ManagedRuntimeInventory}
use cyber_lab_backend.Cleanup.{CleanupIntent}
use cyber_lab_backend.Cleanup.Plan.{build_cleanup_plan, resources_remain}
use cyber_lab_backend.Cleanup.Repository.{
  read_snapshot, begin_cleanup, complete_cleanup, record_cleanup_failure,
}

-- One removal: the runtime after it, and whether it returned.
abbrev pub Removal : Type 0 → Type 0
Removal W = W → W × Bool

pub record CleanupRuntime (W : Type 0) : Type 0 where
  pub inventory_managed_resources : W → Option ManagedRuntimeInventory
  pub prepare_managed_cleanup : W → List ManagedRuntimeAllocation → Option (List (Removal W))

-- What a sweep leaves: the tables, the runtime, and whether it returned.
pub record Swept (W : Type 0) : Type 0 where
  pub db : Database
  pub world : W
  pub returned : Bool

module _ {W : Type 0} where
  -- `for (const remove of cleanup) await remove()`
  unfoldable pub remove_all : List (Removal W) → Removal W
  remove_all [] w = (w, true)
  remove_all (remove ∷ rest) w =
      let first = remove w in
      let later = remove_all rest first.0 in if first.1 then later else (first.0, false)

module _ {W : Type 0} (runtime : CleanupRuntime W) (node_id : ℕ) (begun completed refused : ℕ) where
  -- The check on the second inventory, and the commit. `none` is a throw inside of the `try`.
  unfoldable pub confirm :
      List CleanupIntent → Option ManagedRuntimeInventory → Database → Option Database
  confirm intents none db = none
  confirm intents (some remaining) db =
      if exists_where (resources_remain remaining) intents
      then none
      else complete_cleanup intents completed db

  abbrev pub settled : List CleanupIntent → Database → W → Option Database → Swept W
  settled intents db w none = record {
    db = record_cleanup_failure intents refused db;
    world = w;
    returned = false;
  }
  settled intents db w (some db') = record { db = db'; world = w; returned = true }

  -- The `try` block, after the intents are on record.
  unfoldable pub attempt : List CleanupIntent → List (Removal W) → Database → W → Swept W
  unfolding remove_all confirm
  attempt intents cleanup db w =
      let removed = remove_all cleanup w in
      if removed.1
      then settled intents db removed.0
          (confirm intents (runtime.inventory_managed_resources removed.0) db)
      else settled intents db removed.0 none

  abbrev thrown : Database → W → Swept W
  thrown db w = record { db = db; world = w; returned = false }

  unfoldable pub begin_and_attempt : List CleanupIntent → List (Removal W) → Database → W → Swept W
  unfolding attempt
  begin_and_attempt intents cleanup db w = elim (begin_cleanup intents begun db) [
    | none ↦ thrown db w
    | some db' ↦ attempt intents cleanup db' w
  ]

  -- A sweep with a plan: every resource is validated before the first write.
  unfoldable pub execute : List CleanupIntent → Database → W → Swept W
  unfolding begin_and_attempt
  execute [] db w = record { db = db; world = w; returned = true }
  execute (i ∷ intents) db w =
      elim (runtime.prepare_managed_cleanup w (map (λ j. j.allocation) (i ∷ intents))) [
        | none ↦ thrown db w
        | some cleanup ↦ begin_and_attempt (i ∷ intents) cleanup db w
      ]

  unfoldable pub execute_plan : Option (List CleanupIntent) → Database → W → Swept W
  unfolding execute
  execute_plan none db w = thrown db w
  execute_plan (some intents) db w = execute intents db w

  unfoldable pub sweep : Database → W → Swept W
  unfolding execute_plan
  sweep db w = elim (runtime.inventory_managed_resources w) [
    | none ↦ thrown db w
    | some inventory ↦
        execute_plan
          (build_cleanup_plan node_id inventory (
            read_snapshot node_id
              (map (λ (a : ManagedRuntimeAllocation). a.instance_id) inventory.allocations) db))
          db w
  ]
