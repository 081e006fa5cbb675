-- ===== src/Docker/Spawning.antt =====
-- `spawn` of `DockerOrchestrator` in src/orchestrator/docker-adapter.ts, and what it is made of.
use cyber_lab_backend.Prelude.{
  ℕ, zero, suc, ◌+◌, ◌*◌, Bool, true, false, not, ◌&&◌, ◌==◌, ltb, if◌then◌else◌, Option, none,
  some, String, exists_where,
}
use cyber_lab_backend.Orchestrator.{SpawnTargetInput, SpawnedTarget}
use cyber_lab_backend.Docker.{Name, uuid, of_container, same_label, name_eq, resource_name}
use cyber_lab_backend.Docker.Client.{
  Reply, replied, failed, Health, is_healthy, is_unhealthy, Route, Client,
  is_docker_already_started, is_docker_conflict, require, tolerate,
}
use cyber_lab_backend.Docker.Options.{is_secure, network_options, build_container_options}
use cyber_lab_backend.Docker.Adapter.{
  meets_network_isolation, find_container, find_network, assert_managed_labels, remove_container,
  remove_docker_network, remove_network,
}
use cyber_lab_backend.Actions.{Call, pure, raise, ignore, on_throw, ◌>>=◌, ◌>>◌}

-- The fuel of a wait: each turn takes at least half a second.
abbrev pub turns_of : ℕ → ℕ
turns_of startup_seconds = suc (startup_seconds * 2)

-- `is_route_key` is the pattern of route keys, and `length_of` the length of a text in JavaScript.
module _ {W : Type 0} (docker : Client W) (ingress : Option Name) (is_route_key : ℕ → Bool)
    (length_of : String → ℕ) where
  abbrev pub is_valid_input : SpawnTargetInput → Bool
  is_valid_input input =
      (input.manifest.challenge_id == input.challenge_id)
      && is_route_key input.route_key
      && not (length_of input.flag == 0)
      && not (ltb 256 (length_of input.flag))

  unfoldable pub verify_host_security : Call W (Unit {0})
  verify_host_security = do
    verified ← docker.host_verified
    if verified
        then pure tt
        else do info ← docker.info; if is_secure info then docker.set_host_verified else raise

  unfoldable pub assert_managed_network : (id instance_id challenge_id : ℕ) → Call W (Unit {0})
  assert_managed_network id instance_id challenge_id = do
    reply ← docker.inspect_network id
    n ← require reply
    assert_managed_labels docker ingress n.labels instance_id
    if same_label n.labels.challenge_label (some (uuid challenge_id))
        then (if meets_network_isolation n then pure tt else raise)
        else raise

  -- The network, once it has been checked.
  unfoldable pub asserted : SpawnTargetInput → ℕ → Call W ℕ
  unfolding assert_managed_network
  asserted input id = do assert_managed_network id input.instance_id input.challenge_id; pure id

  unfoldable pub recovered : SpawnTargetInput → Option ℕ → Call W ℕ
  unfolding asserted
  recovered input none = raise
  recovered input (some id) = asserted input id

  -- What was made, which is removed again if it does not pass; a conflict means that it was there.
  -- An inspection does not answer with a conflict.
  unfoldable pub created : SpawnTargetInput → Reply ℕ → Call W ℕ
  unfolding asserted recovered
  created input (replied id) =
      on_throw (ignore (remove_docker_network docker ingress id)) (asserted input id)
  created input (failed status_code) =
      if is_docker_conflict status_code
      then (do found ← find_network docker ingress input.instance_id; recovered input found)
      else raise

  unfoldable pub ensured : SpawnTargetInput → Option ℕ → Call W ℕ
  unfolding created
  ensured input none = do reply ← docker.create_network (network_options input); created input reply
  ensured input (some id) = asserted input id

  unfoldable pub ensure_network : SpawnTargetInput → Call W ℕ
  unfolding ensured
  ensure_network input = do
    existing ← find_network docker ingress input.instance_id
    ensured input existing

  unfoldable pub is_attached : Name → ℕ → Call W Bool
  is_attached name id = do
    reply ← docker.inspect_network id
    n ← require reply
    pure (exists_where (λ c. name_eq c.1 name) n.containers)

  unfoldable pub connected : Name → ℕ → Reply (Unit {0}) → Call W (Unit {0})
  unfolding is_attached
  connected name id (replied u) = pure tt
  connected name id (failed status_code) = do
    attached ← is_attached name id
    if attached then pure tt else raise

  unfoldable pub connect_ingress : Option Name → ℕ → Call W (Unit {0})
  unfolding connected
  connect_ingress none id = pure tt
  connect_ingress (some name) id = do
    attached ← is_attached name id
    if attached then pure tt else do reply ← docker.connect id name; connected name id reply

  unfoldable pub ensure_ingress_connected : ℕ → Call W (Unit {0})
  unfolding connect_ingress
  ensure_ingress_connected id = connect_ingress ingress id

  unfoldable pub by_health : Option Health → Call W Bool → Call W Bool
  by_health (some is_healthy) rest = pure true
  by_health (some is_unhealthy) rest = raise
  by_health _ rest = rest

  -- False if the fuel has run out.
  unfoldable pub wait : (fuel deadline id : ℕ) → Call W Bool
  unfolding by_health
  wait zero deadline id = pure false
  wait (suc fuel) deadline id =
      let rest = wait fuel deadline id in
      docker.now >>= λ now.
      if ltb now deadline
      then (docker.inspect_container id >>= λ reply. require reply >>= λ c.
          if c.running then by_health c.health (docker.pause >> rest) else raise)
      else raise

  unfoldable pub wait_until_healthy : (id startup_seconds : ℕ) → Call W (Unit {0})
  unfolding wait
  wait_until_healthy id startup_seconds = do
    now ← docker.now
    healthy ← wait (turns_of startup_seconds) (now + startup_seconds * 1000) id
    if healthy then pure tt else raise

  unfoldable pub start : ℕ → Call W (Unit {0})
  start id = do reply ← docker.start_container id; tolerate is_docker_already_started reply

  abbrev route_of : SpawnTargetInput → Route
  route_of input = record {
    instance_id = input.instance_id;
    route_key = input.route_key;
    target_host = resource_name of_container input.instance_id;
    target_port = input.manifest.container_port;
  }

  -- What a spawn that throws takes back.
  unfoldable pub abandon : ℕ → (container_id network_id : Option ℕ) → Call W (Unit {0})
  abandon instance_id container_id network_id = do
    ignore (docker.remove_route instance_id)
    ignore (remove_container docker ingress container_id)
    ignore (remove_network docker ingress network_id)

  unfoldable pub launch : SpawnTargetInput → (container_id network_id : ℕ) → Call W SpawnedTarget
  unfolding start wait_until_healthy
  launch input container_id network_id = do
    start container_id
    docker.upsert_route (route_of input)
    wait_until_healthy container_id input.manifest.healthcheck.startup_seconds
    pure (record { container_id = container_id; network_id = network_id })

  unfoldable pub restart : SpawnTargetInput → ℕ → Option ℕ → Call W SpawnedTarget
  unfolding launch abandon ensure_ingress_connected assert_managed_network
  restart input container_id none = raise
  restart input container_id (some network_id) = do
    assert_managed_network network_id input.instance_id input.challenge_id
    on_throw (abandon input.instance_id (some container_id) (some network_id))
        (do ensure_ingress_connected network_id; launch input container_id network_id)

  unfoldable pub create : SpawnTargetInput → ℕ → Call W ℕ
  unfolding ensure_ingress_connected
  create input network_id = do
    ensure_ingress_connected network_id
    reply ← docker.create_container (build_container_options input)
    require reply

  unfoldable pub spawn_found : SpawnTargetInput → Option ℕ → Call W SpawnedTarget
  unfolding restart create launch abandon ensure_network
  spawn_found input none = do
    network_id ← on_throw (abandon input.instance_id none none) (ensure_network input)
    container_id ←
        on_throw (abandon input.instance_id none (some network_id)) (create input network_id)
    on_throw (abandon input.instance_id (some container_id) (some network_id))
        (launch input container_id network_id)
  spawn_found input (some container_id) = do
    network ← find_network docker ingress input.instance_id
    restart input container_id network

  unfoldable pub spawn_target : SpawnTargetInput → Call W SpawnedTarget
  unfolding spawn_found verify_host_security
  spawn_target input =
      if is_valid_input input
      then (do
        verify_host_security
        existing ← find_container docker ingress input.instance_id
        spawn_found input existing)
      else raise
