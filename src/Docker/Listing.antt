-- ===== src/Docker/Listing.antt =====
-- `inventoryManagedResources` of src/orchestrator/docker-adapter.ts, on what the three listings
-- answered. `none` is a thrown `Error`.
use cyber_lab_backend.Prelude.{
  ℕ, Bool, true, false, not, ◌&&◌, ◌==◌, if◌then◌else◌, Option, none, some, List, [], ◌∷◌, map,
  exists_where, is_some, option_eq, and_then,
}
use cyber_lab_backend.Inventory.{ManagedRuntimeAllocation, ManagedRuntimeInventory, includes}
use cyber_lab_backend.Docker.{
  Kind, of_container, of_network, kind_eq, Resource, is_reserved, is_canonical, uuid_of,
}

abbrev pub allocated_to : ℕ → ManagedRuntimeAllocation → Bool
allocated_to id a = a.instance_id == id

abbrev pub blank : ℕ → ManagedRuntimeAllocation
blank id = record {
  instance_id = id;
  challenge_id = none;
  container_id = none;
  network_id = none;
  route_present = false;
}

-- `allocationFor` and an assignment to what it returns, on the `Map`'s entries in their order.
unfoldable pub put :
    ℕ
    → (ManagedRuntimeAllocation → ManagedRuntimeAllocation)
    → List ManagedRuntimeAllocation
    → List ManagedRuntimeAllocation
put id f [] = f (blank id) ∷ []
put id f (a ∷ allocations) =
    let later = put id f allocations in if allocated_to id a then f a ∷ allocations else a ∷ later

-- The challenge of an allocation that has one is another one.
abbrev inconsistent : ℕ → ManagedRuntimeAllocation → Bool
inconsistent challenge_id a =
    is_some a.challenge_id && not (option_eq a.challenge_id (some challenge_id))

abbrev pub assign :
    Kind → (challenge_id id : ℕ) → ManagedRuntimeAllocation → ManagedRuntimeAllocation
assign of_container challenge_id id a = record a {
  challenge_id = some challenge_id;
  container_id = some id;
}
assign of_network challenge_id id a = record a {
  challenge_id = some challenge_id;
  network_id = some id;
}

pub record Progress : Type 0 where
  pub seen : List ℕ
  pub allocations : List ManagedRuntimeAllocation

unfoldable pub allocate : Kind → Resource → Option ℕ → Option ℕ → Progress → Option Progress
unfolding put
allocate kind r none challenge p = none
allocate kind r (some instance_id) none p = none
allocate kind r (some instance_id) (some challenge_id) p =
    if not (exists_where (is_canonical kind instance_id) r.names)
    then none
    else if includes instance_id p.seen
    then none
    else if exists_where (λ a. allocated_to instance_id a && inconsistent challenge_id a)
        p.allocations
    then none
    else if r.id == 0
    then none
    else some (record {
      seen = instance_id ∷ p.seen;
      allocations = put instance_id (assign kind challenge_id r.id) p.allocations;
    })

-- One turn of the loop. The trusted ingress, if there is one, is a container.
unfoldable pub visit : (is_ingress : Resource → Bool) → Kind → Resource → Progress → Option Progress
unfolding allocate
visit is_ingress kind r p =
    if r.labels.managed
    then (if kind_eq kind of_container && is_ingress r
        then none
        else allocate kind r (uuid_of r.labels.instance_label) (uuid_of r.labels.challenge_label) p)
    else if exists_where is_reserved r.names
    then none
    else some p

unfoldable pub visit_all :
    (is_ingress : Resource → Bool) → Kind → List Resource → Progress → Option Progress
unfolding visit
visit_all is_ingress kind [] p = some p
visit_all is_ingress kind (r ∷ resources) p =
    and_then (visit is_ingress kind r p) (visit_all is_ingress kind resources)

abbrev pub with_route : ManagedRuntimeAllocation → ManagedRuntimeAllocation
with_route a = record a { route_present = true }

-- `none` stands for a route of something that is no UUID.
unfoldable pub put_routes :
    List (Option ℕ) → List ManagedRuntimeAllocation → Option (List ManagedRuntimeAllocation)
unfolding put
put_routes [] allocations = some allocations
put_routes (none ∷ routes) allocations = none
put_routes (some id ∷ routes) allocations = put_routes routes (put id with_route allocations)

abbrev unidentified : Resource → Bool
unidentified r = r.id == 0

abbrev finished :
    List Resource → List Resource → List ManagedRuntimeAllocation → Option ManagedRuntimeInventory
finished containers networks allocations =
    if exists_where unidentified networks
    then none
    else some (record {
      allocations = allocations;
      container_ids = map (λ r. r.id) containers;
      network_ids = map (λ r. r.id) networks;
    })

abbrev pub starting : List ManagedRuntimeAllocation → Progress
starting allocations = record { seen = []; allocations = allocations }

unfoldable pub inventory_managed_resources :
    (is_ingress : Resource → Bool)
    → (containers networks : List Resource) → (routes : List (Option ℕ))
    → Option ManagedRuntimeInventory
unfolding visit_all put_routes
inventory_managed_resources is_ingress containers networks routes =
    and_then (visit_all is_ingress of_container containers (starting [])) λ first.
      and_then (visit_all is_ingress of_network networks (starting first.allocations))
        λ second. and_then (put_routes routes second.allocations) (finished containers networks)
