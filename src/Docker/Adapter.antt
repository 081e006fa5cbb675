-- ===== src/Docker/Adapter.antt =====
-- `DockerOrchestrator` of src/orchestrator/docker-adapter.ts: finding and removing the resources of
-- an instance, and the status of its runtime.
use cyber_lab_backend.Prelude.{
  ℕ, Bool, true, false, not, ◌&&◌, ◌==◌, if◌then◌else◌, Option, none, some, String, List, [], ◌∷◌,
  select_one,
}
use text.Mathlib.Text.{◌==◌ as text_eq}
use cyber_lab_backend.Orchestrator.{
  DestroyTargetInput, RuntimeStatus, healthy, missing, stopped, oom, unhealthy, unsafe_network,
}
use cyber_lab_backend.Docker.{Name, Labels, same_label, has_label, has_managed_labels, name_eq}
use cyber_lab_backend.Docker.Client.{
  Health, is_unhealthy, ContainerInfo, NetworkInfo, Client, is_docker_not_found,
  is_docker_not_found_or_stopped, require, tolerate, or_missing,
}
use cyber_lab_backend.Actions.{Call, pure, raise, ◌>>=◌, ◌>>◌}

abbrev is_text : String → Option String → Bool
is_text expected none = false
is_text expected (some t) = text_eq t expected

abbrev pub meets_network_isolation : NetworkInfo → Bool
meets_network_isolation n =
    text_eq n.driver "bridge"
    && not n.enable_ipv6
    && n.internal
    && not n.attachable
    && is_text "isolated" n.gateway_mode_ipv4
    && is_text "isolated" n.gateway_mode_ipv6

abbrev pub is_sick : Option Health → Bool
is_sick (some is_unhealthy) = true
is_sick _ = false

-- `networks[0]`, if there is one and no other.
abbrev only : List Name → Option Name
only (n ∷ []) = some n
only _ = none

abbrev is_only : Name → Option Name → Bool
is_only name none = false
is_only name (some n) = name_eq n name

-- The container is attached to this network alone, and both carry the challenge's label.
abbrev pub is_confined : ContainerInfo → NetworkInfo → Bool
is_confined c n =
    meets_network_isolation n
    && has_label c.labels.challenge_label
    && same_label c.labels.challenge_label n.labels.challenge_label
    && is_only n.name (only c.networks)

abbrev first : List ℕ → Option ℕ
first [] = none
first (id ∷ ids) = some id

abbrev first_identified : List ℕ → Option ℕ
first_identified [] = none
first_identified (id ∷ ids) = if id == 0 then none else some id

module _ {W : Type 0} (docker : Client W) (ingress : Option Name) where
  unfoldable pub find_container : ℕ → Call W (Option ℕ)
  find_container instance_id = do
    containers ← docker.list_containers instance_id
    pure (first containers)

  unfoldable pub find_network : ℕ → Call W (Option ℕ)
  find_network instance_id = do
    networks ← docker.list_networks instance_id
    pure (first_identified networks)

  unfoldable pub assert_managed_labels : Labels → ℕ → Call W (Unit {0})
  assert_managed_labels labels instance_id =
      if has_managed_labels labels instance_id then pure tt else raise

  unfoldable pub try_container : ℕ → Call W (Option ContainerInfo)
  try_container id = do reply ← docker.inspect_container id; or_missing reply

  unfoldable pub try_network : ℕ → Call W (Option NetworkInfo)
  try_network id = do reply ← docker.inspect_network id; or_missing reply

  unfoldable pub status_on : ContainerInfo → ℕ → Option NetworkInfo → Call W RuntimeStatus
  unfolding assert_managed_labels
  status_on c instance_id none = pure unsafe_network
  status_on c instance_id (some n) = do
    assert_managed_labels n.labels instance_id
    pure (if is_confined c n then healthy else unsafe_network)

  unfoldable pub status_connected : ContainerInfo → ℕ → Option ℕ → Call W RuntimeStatus
  unfolding status_on try_network
  status_connected c instance_id none = pure unsafe_network
  status_connected c instance_id (some network_id) = do
    found ← try_network network_id
    status_on c instance_id found

  unfoldable pub status_of : ℕ → Option ContainerInfo → Call W RuntimeStatus
  unfolding status_connected find_network assert_managed_labels
  status_of instance_id none = pure missing
  status_of instance_id (some c) = do
    assert_managed_labels c.labels instance_id
    if c.oom_killed
        then pure oom
        else if not c.running
        then pure stopped
        else if is_sick c.health
        then pure unhealthy
        else (do network ← find_network instance_id; status_connected c instance_id network)

  unfoldable pub status_found : ℕ → Option ℕ → Call W RuntimeStatus
  unfolding status_of try_container
  status_found instance_id none = pure missing
  status_found instance_id (some container_id) = do
    details ← try_container container_id
    status_of instance_id details

  unfoldable pub runtime_status : ℕ → Call W RuntimeStatus
  unfolding status_found find_container
  runtime_status instance_id = do
    existing ← find_container instance_id
    status_found instance_id existing

  unfoldable pub remove_container : Option ℕ → Call W (Unit {0})
  remove_container none = pure tt
  remove_container (some id) = do
    stop ← docker.stop_container id
    tolerate is_docker_not_found_or_stopped stop
    remove ← docker.delete_container id
    tolerate is_docker_not_found remove

  unfoldable pub remove_docker_network : ℕ → Call W (Unit {0})
  remove_docker_network id = do
    remove ← docker.delete_network id
    tolerate is_docker_not_found remove

  -- The trusted ingress's own identifier, if it is on the network.
  abbrev pub attached_ingress : Option Name → NetworkInfo → Option (ℕ × Name)
  attached_ingress none n = none
  attached_ingress (some name) n = select_one (λ c. name_eq c.1 name) n.containers

  unfoldable pub detach : ℕ → Option (ℕ × Name) → Call W (Unit {0})
  detach network_id none = pure tt
  detach network_id (some (container_id, name)) = do
    reply ← docker.disconnect network_id container_id
    require reply

  unfoldable pub remove_inspected : ℕ → Option NetworkInfo → Call W (Unit {0})
  unfolding detach remove_docker_network
  remove_inspected id none = pure tt
  remove_inspected id (some n) = do detach id (attached_ingress ingress n); remove_docker_network id

  unfoldable pub remove_network : Option ℕ → Call W (Unit {0})
  unfolding remove_inspected try_network
  remove_network none = pure tt
  remove_network (some id) = do details ← try_network id; remove_inspected id details

  unfoldable pub managed_container : ℕ → (id : ℕ) → Option ContainerInfo → Call W (Option ℕ)
  unfolding assert_managed_labels
  managed_container instance_id id none = pure none
  managed_container instance_id id (some c) = do
    assert_managed_labels c.labels instance_id
    pure (some id)

  unfoldable pub managed_network : ℕ → (id : ℕ) → Option NetworkInfo → Call W (Option ℕ)
  unfolding assert_managed_labels
  managed_network instance_id id none = pure none
  managed_network instance_id id (some n) = do
    assert_managed_labels n.labels instance_id
    pure (some id)

  -- The recorded container, if it is there and is managed, or the one that is found.
  unfoldable pub container_of : ℕ → Option ℕ → Call W (Option ℕ)
  unfolding managed_container try_container find_container
  container_of instance_id none = find_container instance_id
  container_of instance_id (some id) = do
    details ← try_container id
    managed_container instance_id id details

  unfoldable pub network_of : ℕ → Option ℕ → Call W (Option ℕ)
  unfolding managed_network try_network find_network
  network_of instance_id none = find_network instance_id
  network_of instance_id (some id) = do
    details ← try_network id
    managed_network instance_id id details

  unfoldable pub destroy_target : DestroyTargetInput → Call W (Unit {0})
  unfolding container_of network_of remove_container remove_network
  destroy_target input = do
    docker.remove_route input.instance_id
    container ← container_of input.instance_id input.container_id
    remove_container container
    network ← network_of input.instance_id input.network_id
    remove_network network
