-- ===== src/Worker/Hosting.antt =====
-- The lifecycle handler on the Docker adapter, as src/worker.ts puts them together.
use cyber_lab_backend.Prelude.{
  ℕ, ◌≡◌, Bool, true, false, ◌&&◌, option_eq, option_eq_iff, and-elim, sym, ◌∙◌, Option, none, some,
  String, List, [], ◌∷◌, All, All-map, exists_where, arith, Bool-cases, inl, inr,
}
use cyber_lab_backend.Inventory.{ManagedRuntimeAllocation, ManagedRuntimeInventory}
use cyber_lab_backend.Runtime.{RuntimeInstanceState, find_instance}
use cyber_lab_backend.Runtime.Outcomes.{StopStatus, complete_stop}
use cyber_lab_backend.Jobs.{ClaimedLifecycleOperation}
use cyber_lab_backend.Orchestrator.{Orchestrator}
use cyber_lab_backend.Docker.{Kind, of_container, of_network, Name, Resource, uuid_of}
use cyber_lab_backend.Docker.Client.{Client}
use cyber_lab_backend.Docker.Listing.{inventory_managed_resources, allocated_to}
use cyber_lab_backend.Docker.Allocating.{shows, Shown}
use cyber_lab_backend.Docker.Complete.{inventory-IsComplete}
use cyber_lab_backend.Docker.Adapter.{runtime_status, destroy_target}
use cyber_lab_backend.Docker.Spawning.{spawn_target}
use cyber_lab_backend.Actions.{Host, Call, returned, pure, raise, ◌>>=◌}
use cyber_lab_backend.Worker.{Environment, HandlerConfig}
use cyber_lab_backend.Worker.Handler.{remains, destroy_instance}
use cyber_lab_backend.Worker.Inversion.{bind-returned}
use cyber_lab_backend.Worker.Absence.{destroy-Confirmed}

module _ {W : Type 0} where
  unfoldable pub unless_thrown : {A : Type 0} → Option A → Call W A
  unless_thrown none = raise
  unless_thrown (some a) = pure a

  unless_thrown-returned :
      {A : Type 0} (o : Option A) (h h' : Host W) (a : A)
      → unless_thrown o h ≡ (h', returned a)
      → o ≡ some a
  unfolding unless_thrown raise pure
  unless_thrown-returned none h h' a e = absurd (ground (arith, e))
  unless_thrown-returned (some b) h h' a e = ground (arith, e)

-- `is_ingress` tells the trusted ingress by its identifier or its name in a listing.
module _ {W : Type 0} (docker : Client W) (ingress : Option Name) (is_ingress : Resource → Bool)
    (is_route_key : ℕ → Bool) (length_of : String → ℕ) where
  unfoldable pub read_inventory : Call W ManagedRuntimeInventory
  unfolding unless_thrown
  read_inventory = do
    containers ← docker.list_all_containers
    networks ← docker.list_all_networks
    routes ← docker.list_instance_ids
    unless_thrown (inventory_managed_resources is_ingress containers networks routes)

  unfoldable pub docker_orchestrator : Orchestrator W
  unfolding read_inventory
  docker_orchestrator = record {
    inventory_managed_resources = read_inventory;
    spawn = spawn_target docker ingress is_route_key length_of;
    destroy = destroy_target docker ingress;
    runtime_status = runtime_status docker ingress;
  }

-- A managed resource of the instance.
abbrev pub is_of : ℕ → Resource → Bool
is_of instance_id r =
    r.labels.managed && option_eq (uuid_of r.labels.instance_label) (some instance_id)

exists-allocated :
    (kind : Kind) (i id : ℕ) (allocations : List ManagedRuntimeAllocation)
    → exists_where (shows kind i id) allocations ≡ true
    → exists_where (allocated_to i) allocations ≡ true
exists-allocated kind i id [] e = absurd (ground (arith, e))
exists-allocated of_container i id (a ∷ allocations) e =
    let rest = exists-allocated of_container i id allocations in ground (arith, rest, e)
exists-allocated of_network i id (a ∷ allocations) e =
    let rest = exists-allocated of_network i id allocations in ground (arith, rest, e)

is_of-label :
    (i j : ℕ) (r : Resource)
    → is_of i r ≡ true
    → uuid_of r.labels.instance_label ≡ some j
    → (r.labels.managed ≡ true) × (j ≡ i)
is_of-label i j r own label =
    let (managed, same) = and-elim r.labels.managed _ own in
    let labelled = (option_eq_iff (uuid_of r.labels.instance_label) (some i)).0 same in
    let both : some j ≡ some i = sym label ∙ labelled in (managed, ground (arith, both))

Shown-absent :
    (kind : Kind) (i : ℕ) (resources : List Resource) (allocations : List ManagedRuntimeAllocation)
    → exists_where (allocated_to i) allocations ≡ false
    → All (Shown kind allocations) resources
    → All (λ r. is_of i r ≡ false) resources
Shown-absent kind i resources allocations gone shown =
    All-map _ _ resources
      (λ r s. elim (Bool-cases (is_of i r)) [
        | inr other ↦ other
        | inl own ↦
            let (managed, _) = and-elim r.labels.managed _ own in
            let (j, label, there) = s managed in
            let (_, same) = is_of-label i j r own label in
            absurd (ground (arith, exists-allocated kind j r.id allocations there, same, gone))
      ])
      shown

module _ {W : Type 0} (docker : Client W) where
  -- Listings of all containers and networks, one after the other, with nothing of the instance.
  pub record IsGone (instance_id : ℕ) : Type 0 where
    pub first : Host W
    pub second : Host W
    pub third : Host W
    pub containers : List Resource
    pub networks : List Resource
    pub listed : docker.list_all_containers first ≡ (second, returned containers)
    pub connected : docker.list_all_networks second ≡ (third, returned networks)
    pub no_container : All (λ r. is_of instance_id r ≡ false) containers
    pub no_network : All (λ r. is_of instance_id r ≡ false) networks

module _ {W : Type 0} (docker : Client W) (ingress : Option Name) (is_ingress : Resource → Bool)
    (is_route_key : ℕ → Bool) (length_of : String → ℕ) where
  inventory-IsGone :
      (s : RuntimeInstanceState) (before seen : Host W) (inventory : ManagedRuntimeInventory)
      → read_inventory docker ingress is_ingress is_route_key length_of before
        ≡ (seen, returned inventory)
      → remains s inventory ≡ false
      → IsGone docker s.id
  unfolding read_inventory
  inventory-IsGone s before seen inventory e gone =
      let (second, containers, listed, rest) = bind-returned _ _ before seen inventory e in
      let (third, networks, connected, routing) = bind-returned _ _ second seen inventory rest in
      let (fourth, routes, _, last) = bind-returned _ _ third seen inventory routing in
      let complete =
        inventory-IsComplete is_ingress containers networks routes inventory
          (unless_thrown-returned _ fourth seen inventory last) in
      let absent : exists_where (allocated_to s.id) inventory.allocations ≡ false =
        ground (arith, gone) in
      record {
        first = before;
        second = second;
        third = third;
        containers = containers;
        networks = networks;
        listed = listed;
        connected = connected;
        no_container =
            Shown-absent of_container s.id containers inventory.allocations absent
              complete.of_containers;
        no_network =
            Shown-absent of_network s.id networks inventory.allocations absent complete.of_networks;
      }

  -- On the Docker adapter, a destroy or reap of an instance that is found, if it returns, has ended
  -- the instance by its last write, and before that a listing of all containers and one of all
  -- networks had nothing that is labelled as managed and as the instance's.
  pub destroy_instance-IsGone :
      (environment : Environment W) (config : HandlerConfig) (status : StopStatus)
      (operation : ClaimedLifecycleOperation) (s : RuntimeInstanceState) (h h' : Host W)
      → find_instance operation.instance.id h.db ≡ some s
      → destroy_instance environment
          (docker_orchestrator docker ingress is_ingress is_route_key length_of)
          config
          status
          operation
          h
        ≡ (h', returned tt)
      → IsGone docker s.id
        × ((timed : Host W) × (now : ℕ) × (h'
              ≡ record timed { db = complete_stop s.id status now timed.db }))
  unfolding docker_orchestrator
  destroy_instance-IsGone environment config status operation s h h' found e =
      let c =
        destroy-Confirmed environment
          (docker_orchestrator docker ingress is_ingress is_route_key length_of) config status
          operation s h h' found e in
      (inventory-IsGone s c.before c.seen c.inventory c.read c.gone, (c.timed, c.now, c.ended))
