-- ===== src/Inventory.antt =====
-- src/services/runtime-inventory.ts, and the `Map` and `Set` that its readers build from it.
use cyber_lab_backend.Prelude.{
  ℕ, Bool, ◌==◌, if◌then◌else◌, Option, none, some, List, [], ◌∷◌, exists_where,
}

pub record ManagedRuntimeAllocation : Type 0 where
  pub instance_id : ℕ
  pub challenge_id : Option ℕ
  pub container_id : Option ℕ
  pub network_id : Option ℕ
  pub route_present : Bool

pub record ManagedRuntimeInventory : Type 0 where
  pub allocations : List ManagedRuntimeAllocation
  pub container_ids : List ℕ
  pub network_ids : List ℕ

-- `new Map(allocations.map((a) => [a.instanceId, a])).get(id)`: the last one under the id.
unfoldable pub observed : List ManagedRuntimeAllocation → ℕ → Option ManagedRuntimeAllocation
observed [] id = none
observed (a ∷ rest) id = elim (observed rest id) [
  | some b ↦ some b
  | none ↦ if a.instance_id == id then some a else none
]

abbrev pub includes : ℕ → List ℕ → Bool
includes id ids = exists_where (λ x. x == id) ids

-- A `Set`, without repeated members.
unfoldable pub add_to_set : ℕ → List ℕ → List ℕ
add_to_set id ids = if includes id ids then ids else id ∷ ids

unfoldable pub to_set : List ℕ → List ℕ
unfolding add_to_set
to_set [] = []
to_set (id ∷ ids) = add_to_set id (to_set ids)
