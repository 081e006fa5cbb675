-- ===== src/Docker/Clearing.antt =====
-- `prepareManagedCleanup` and `preflight` of `DockerOrchestrator` in
-- src/orchestrator/docker-adapter.ts. The source inspects the allocations' resources concurrently, and
-- the model one after the other.
use cyber_lab_backend.Prelude.{
  ℕ, Bool, true, false, not, ◌&&◌, ◌||◌, ◌==◌, if◌then◌else◌, Option, none, some, String, List, [],
  ◌∷◌, exists_where,
}
use cyber_lab_backend.Inventory.{ManagedRuntimeAllocation}
use cyber_lab_backend.Orchestrator.{RuntimeManifest}
use cyber_lab_backend.Docker.{
  Name, reserved, of_container, of_network, uuid, same_label, has_managed_labels, name_eq,
  resource_name,
}
use cyber_lab_backend.Docker.Client.{ContainerInfo, NetworkInfo, Client, require}
use cyber_lab_backend.Docker.Adapter.{
  try_container, try_network, remove_container, remove_docker_network,
}
use cyber_lab_backend.Docker.Spawning.{verify_host_security}
use cyber_lab_backend.Actions.{Call, pure, raise, ◌>>=◌, ◌>>◌}

-- The trusted ingress itself.
abbrev pub is_trusted : Option ContainerInfo → ContainerInfo → Bool
is_trusted none c = false
is_trusted (some i) c = (c.id == i.id) || name_eq c.name i.name

-- The container is still the instance's, under its own name, and not the ingress.
abbrev pub is_owned_container :
    Option ContainerInfo → (instance_id challenge_id id : ℕ) → ContainerInfo → Bool
is_owned_container ingress instance_id challenge_id id c =
    (c.id == id)
    && name_eq c.name (reserved true of_container instance_id)
    && not (is_trusted ingress c)
    && has_managed_labels c.labels instance_id
    && same_label c.labels.challenge_label (some (uuid challenge_id))

abbrev pub is_owned_network : (instance_id challenge_id id : ℕ) → NetworkInfo → Bool
is_owned_network instance_id challenge_id id n =
    (n.id == id)
    && name_eq n.name (resource_name of_network instance_id)
    && has_managed_labels n.labels instance_id
    && same_label n.labels.challenge_label (some (uuid challenge_id))

-- What the closure of an allocation has captured: the container and the network that were there, and
-- the ingress's identifier if it is on the network.
pub record Clearing : Type 0 where
  pub allocation : ManagedRuntimeAllocation
  pub container : Option ℕ
  pub network : Option (ℕ × Option ℕ)

abbrev pub endpoint : Option ContainerInfo → NetworkInfo → Option ℕ
endpoint none n = none
endpoint (some i) n = if exists_where (λ c. c.0 == i.id) n.containers then some i.id else none

module _ {W : Type 0} (docker : Client W) (ingress : Option Name) where
  unfoldable pub inspect_ingress : Option Name → Call W (Option ContainerInfo)
  inspect_ingress none = pure none
  inspect_ingress (some name) = do
    reply ← docker.inspect_named name
    i ← require reply
    pure (some i)

  unfoldable pub owned_container :
      Option ContainerInfo
      → (instance_id challenge_id id : ℕ) → Option ContainerInfo
      → Call W (Option ℕ)
  owned_container trusted instance_id challenge_id id none = pure none
  owned_container trusted instance_id challenge_id id (some c) =
      if is_owned_container trusted instance_id challenge_id id c then pure (some id) else raise

  unfoldable pub owned_network :
      Option ContainerInfo
      → (instance_id challenge_id id : ℕ) → Option NetworkInfo
      → Call W (Option (ℕ × Option ℕ))
  owned_network trusted instance_id challenge_id id none = pure none
  owned_network trusted instance_id challenge_id id (some n) =
      if is_owned_network instance_id challenge_id id n
      then pure (some (id, endpoint trusted n))
      else raise

  -- A container, and a network, of an allocation without a challenge is an error.
  unfoldable pub check_container :
      Option ContainerInfo → ℕ → (challenge_id id : Option ℕ) → Call W (Option ℕ)
  unfolding owned_container try_container
  check_container trusted instance_id challenge_id none = pure none
  check_container trusted instance_id none (some id) = raise
  check_container trusted instance_id (some challenge_id) (some id) = do
    found ← try_container docker ingress id
    owned_container trusted instance_id challenge_id id found

  unfoldable pub check_network :
      Option ContainerInfo → ℕ → (challenge_id id : Option ℕ) → Call W (Option (ℕ × Option ℕ))
  unfolding owned_network try_network
  check_network trusted instance_id challenge_id none = pure none
  check_network trusted instance_id none (some id) = raise
  check_network trusted instance_id (some challenge_id) (some id) = do
    found ← try_network docker ingress id
    owned_network trusted instance_id challenge_id id found

  unfoldable pub prepare_one : Option ContainerInfo → ManagedRuntimeAllocation → Call W Clearing
  unfolding check_container check_network
  prepare_one trusted a = do
    container ← check_container trusted a.instance_id a.challenge_id a.container_id
    network ← check_network trusted a.instance_id a.challenge_id a.network_id
    if a.route_present then docker.validate_managed_route a.instance_id else pure tt
    pure (record { allocation = a; container = container; network = network })

  unfoldable pub prepare_all :
      Option ContainerInfo → List ManagedRuntimeAllocation → Call W (List Clearing)
  unfolding prepare_one
  prepare_all trusted [] = pure []
  prepare_all trusted (a ∷ allocations) = do
    clearing ← prepare_one trusted a
    rest ← prepare_all trusted allocations
    pure (clearing ∷ rest)

  unfoldable pub prepare_managed_cleanup : List ManagedRuntimeAllocation → Call W (List Clearing)
  unfolding prepare_all inspect_ingress
  prepare_managed_cleanup allocations = do
    trusted ← inspect_ingress ingress
    prepare_all trusted allocations

  unfoldable pub detach_endpoint : ℕ → Option ℕ → Call W (Unit {0})
  detach_endpoint network_id none = pure tt
  detach_endpoint network_id (some container_id) = do
    reply ← docker.disconnect network_id container_id
    require reply

  unfoldable pub clear_network : Option (ℕ × Option ℕ) → Call W (Unit {0})
  unfolding detach_endpoint
  clear_network none = pure tt
  clear_network (some (id, trusted)) = do
    detach_endpoint id trusted
    remove_docker_network docker ingress id

  -- What the closure does.
  unfoldable pub clear : Clearing → Call W (Unit {0})
  unfolding clear_network
  clear c = do
    if c.allocation.route_present then docker.remove_route c.allocation.instance_id else pure tt
    remove_container docker ingress c.container
    clear_network c.network

  unfoldable pub have_images : List RuntimeManifest → Call W (Unit {0})
  have_images [] = pure tt
  have_images (m ∷ manifests) = do
    reply ← docker.has_image m.image
    require reply
    have_images manifests

  unfoldable pub preflight_on : Option Name → List RuntimeManifest → Call W (Unit {0})
  unfolding have_images
  preflight_on none manifests = raise
  preflight_on (some name) [] = raise
  preflight_on (some name) (m ∷ manifests) = do
    reply ← docker.inspect_named name
    i ← require reply
    if i.running then have_images (m ∷ manifests) else raise

  unfoldable pub preflight :
      (is_route_key : ℕ → Bool) (length_of : String → ℕ) → List RuntimeManifest → Call W (Unit {0})
  unfolding preflight_on
  preflight is_route_key length_of manifests =
      verify_host_security docker ingress is_route_key length_of >> preflight_on ingress manifests
