-- ===== src/Docker/Complete.antt =====
-- An inventory accounts for everything that is labelled as managed.
use cyber_lab_backend.Prelude.{
  ℕ, ◌≡◌, ◌≤◌, refl, Bool, true, ◌&&◌, Option, none, some, List, [], ◌∷◌, All, All-map,
  exists_where, count_where, arith, and_then-some,
}
use cyber_lab_backend.Inventory.{ManagedRuntimeAllocation, ManagedRuntimeInventory}
use cyber_lab_backend.Docker.{Kind, of_container, of_network, Resource}
use cyber_lab_backend.Docker.Listing.{
  allocated_to, put, Progress, visit_all, with_route, put_routes, starting,
  inventory_managed_resources,
}
use cyber_lab_backend.Docker.Allocating.{
  shows, Shown, exists-put, put-exists, count-put, visit_all-Kept, visit_all-Shown, visit_all-count,
}

abbrev pub shows_route : ℕ → ManagedRuntimeAllocation → Bool
shows_route instance_id a = allocated_to instance_id a && a.route_present

put_routes-exists :
    (p : ManagedRuntimeAllocation → Bool)
    → ((a : ManagedRuntimeAllocation) → p a ≡ true → p (with_route a) ≡ true)
    → (routes : List (Option ℕ)) (allocations allocations' : List ManagedRuntimeAllocation)
    → put_routes routes allocations ≡ some allocations'
    → exists_where p allocations ≡ true
    → exists_where p allocations' ≡ true
unfolding put_routes
put_routes-exists p keeps [] allocations allocations' e shown =
    let same : allocations ≡ allocations' = ground (arith, e) in rw (← same) shown
put_routes-exists p keeps (none ∷ routes) allocations allocations' e shown =
    absurd (ground (arith, e))
put_routes-exists p keeps (some id ∷ routes) allocations allocations' e shown =
    put_routes-exists p keeps routes (put id with_route allocations) allocations' e
      (exists-put id with_route p allocations (λ a own. keeps a) shown)

put_routes-count :
    (j : ℕ) (routes : List (Option ℕ)) (allocations allocations' : List ManagedRuntimeAllocation)
    → put_routes routes allocations ≡ some allocations'
    → count_where (allocated_to j) allocations ≤ 1
    → count_where (allocated_to j) allocations' ≤ 1
unfolding put_routes
put_routes-count j [] allocations allocations' e one =
    let same : allocations ≡ allocations' = ground (arith, e) in rw (← same) one
put_routes-count j (none ∷ routes) allocations allocations' e one = absurd (ground (arith, e))
put_routes-count j (some id ∷ routes) allocations allocations' e one =
    put_routes-count j routes (put id with_route allocations) allocations' e
      (count-put id with_route (λ a. refl) j allocations one)

-- The route's instance is in the allocations, with its route.
abbrev pub Routed : List ManagedRuntimeAllocation → Option ℕ → Type 0
Routed allocations route =
    (id : ℕ) × (route ≡ some id) × (exists_where (shows_route id) allocations ≡ true)

put_routes-Routed :
    (routes : List (Option ℕ)) (allocations allocations' : List ManagedRuntimeAllocation)
    → put_routes routes allocations ≡ some allocations'
    → All (Routed allocations') routes
unfolding put_routes
put_routes-Routed [] allocations allocations' e = tt
put_routes-Routed (none ∷ routes) allocations allocations' e = absurd (ground (arith, e))
put_routes-Routed (some id ∷ routes) allocations allocations' e = (
  (
    id,
    refl,
    put_routes-exists (shows_route id) (λ a shown. ground (arith, shown)) routes
        (put id with_route allocations) allocations' e
        (put-exists id with_route (shows_route id) allocations (λ a own. ground (arith, own))),
  ),
  put_routes-Routed routes (put id with_route allocations) allocations' e,
)

shows-route :
    (kind : Kind) (i id : ℕ) (a : ManagedRuntimeAllocation)
    → shows kind i id a ≡ true
    → shows kind i id (with_route a) ≡ true
shows-route of_container i id a e = e
shows-route of_network i id a e = e

put_routes-Shown :
    (kind : Kind) (resources : List Resource) (routes : List (Option ℕ))
    (allocations allocations' : List ManagedRuntimeAllocation)
    → put_routes routes allocations ≡ some allocations'
    → All (Shown kind allocations) resources
    → All (Shown kind allocations') resources
put_routes-Shown kind resources routes allocations allocations' e shown =
    All-map _ _ resources
      (λ r s managed.
        let (i, label, there) = s managed in
        (
          i,
          label,
          put_routes-exists (shows kind i r.id) (shows-route kind i r.id) routes allocations
              allocations' e there,
        ))
      shown

-- The networks leave what is shown of the containers.
networks-Shown :
    (is_ingress : Resource → Bool) (containers networks : List Resource)
    (allocations : List ManagedRuntimeAllocation) (p' : Progress)
    → visit_all is_ingress of_network networks (starting allocations) ≡ some p'
    → All (Shown of_container allocations) containers
    → All (Shown of_container p'.allocations) containers
networks-Shown is_ingress containers networks allocations p' e shown =
    All-map _ _ containers
      (λ r s managed.
        let (i, label, there) = s managed in
        (
          i,
          label,
          (visit_all-Kept is_ingress of_network of_container i r.id networks (starting allocations)
              p' e (record { apart = λ same. absurd (ground (arith, same)); shown = there })).shown,
        ))
      shown

-- Every instance has at most one allocation, and the allocations show every managed container, every
-- managed network and every route.
pub record IsComplete (containers networks : List Resource) (routes : List (Option ℕ))
    (inventory : ManagedRuntimeInventory) : Type 0 where
  pub one : (id : ℕ) → count_where (allocated_to id) inventory.allocations ≤ 1
  pub of_containers : All (Shown of_container inventory.allocations) containers
  pub of_networks : All (Shown of_network inventory.allocations) networks
  pub of_routes : All (Routed inventory.allocations) routes

-- An inventory that does not throw has at most one allocation for each instance, and its
-- allocations show, under the instance of its label, every container and every network that is
-- labelled as managed, and every route.
pub inventory-IsComplete :
    (is_ingress : Resource → Bool) (containers networks : List Resource) (routes : List (Option ℕ))
    (inventory : ManagedRuntimeInventory)
    → inventory_managed_resources is_ingress containers networks routes ≡ some inventory
    → IsComplete containers networks routes inventory
unfolding inventory_managed_resources
inventory-IsComplete is_ingress containers networks routes inventory e =
    let (first, read, rest) =
      and_then-some (visit_all is_ingress of_container containers (starting [])) _ inventory e in
    let (second, connected, rest') =
      and_then-some (visit_all is_ingress of_network networks (starting first.allocations)) _
        inventory rest in
    let (allocations, routed, last) =
      and_then-some (put_routes routes second.allocations) _ inventory rest' in
    let same : allocations ≡ inventory.allocations = ground (arith, last) in
    record {
      one = λ id. rw (← same) (
          put_routes-count id routes second.allocations allocations routed (
            visit_all-count is_ingress of_network id networks (starting first.allocations) second
              connected
              (visit_all-count is_ingress of_container id containers (starting []) first read
                (omega arith))));
      of_containers = rw (← same) (
          put_routes-Shown of_container containers routes second.allocations allocations routed (
            networks-Shown is_ingress containers networks first.allocations second connected
              (visit_all-Shown is_ingress of_container containers (starting []) first read)));
      of_networks = rw (← same) (
          put_routes-Shown of_network networks routes second.allocations allocations routed (
            visit_all-Shown is_ingress of_network networks (starting first.allocations) second
              connected));
      of_routes = rw (← same) (put_routes-Routed routes second.allocations allocations routed);
    }
