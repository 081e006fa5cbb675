-- ===== src/Docker/Started.antt =====
-- A spawn answers with a target that was checked.
use cyber_lab_backend.Prelude.{ℕ, ◌+◌, ◌*◌, ◌≡◌, Bool, true, Option, none, some, String, arith}
use cyber_lab_backend.Orchestrator.{SpawnTargetInput, SpawnedTarget}
use cyber_lab_backend.Docker.{Name}
use cyber_lab_backend.Docker.Client.{Client}
use cyber_lab_backend.Docker.Spawning.{
  is_valid_input, ensure_network, wait_until_healthy, turns_of, launch, restart, spawn_found,
  spawn_target,
}
use cyber_lab_backend.Docker.Launching.{
  Isolated, Alive, assert-Isolated, ensured-Isolated, wait-Alive,
}
use cyber_lab_backend.Actions.{Host, returned, pure, raise}
use cyber_lab_backend.Worker.Inversion.{bind-returned, then-returned, guarded, on_throw-returned}

module _ {W : Type 0} (docker : Client W) (ingress : Option Name) (is_route_key : ℕ → Bool)
    (length_of : String → ℕ) where
  wait_until_healthy-Alive :
      (id startup_seconds : ℕ) (h h' : Host W)
      → wait_until_healthy docker ingress is_route_key length_of id startup_seconds h
        ≡ (h', returned tt)
      → Alive docker id
  unfolding wait_until_healthy
  wait_until_healthy-Alive id startup_seconds h h' e =
      let (timed, now, _, rest) = bind-returned _ _ h h' tt e in
      let (waited, healthy, waits, last) = bind-returned _ _ timed h' tt rest in
      let (done, _) = guarded healthy _ waited h' tt last in
      wait-Alive docker ingress is_route_key length_of (turns_of startup_seconds)
        (now + startup_seconds * 1000) id timed waited (rw done at waits)

  launch-Alive :
      (input : SpawnTargetInput) (container_id network_id : ℕ) (h h' : Host W)
      (target : SpawnedTarget)
      → launch docker ingress is_route_key length_of input container_id network_id h
        ≡ (h', returned target)
      → Alive docker target.container_id × (target.network_id ≡ network_id)
  unfolding launch pure
  launch-Alive input container_id network_id h h' target e =
      let (started, _, rest) = then-returned _ _ h h' target e in
      let (routed, _, to_wait) = then-returned _ _ started h' target rest in
      let (healthy, waits, last) = then-returned _ _ routed h' target to_wait in
      let same : container_id ≡ target.container_id = ground (arith, last) in
      (
        rw (← same) (
            wait_until_healthy-Alive container_id input.manifest.healthcheck.startup_seconds routed
              healthy waits),
        ground (arith, last),
      )

  -- The target's container was seen running and healthy, and its network isolated.
  pub record Started (input : SpawnTargetInput) (target : SpawnedTarget) : Type 0 where
    pub valid : is_valid_input docker ingress is_route_key length_of input ≡ true
    pub alive : Alive docker target.container_id
    pub isolated : Isolated docker input.instance_id input.challenge_id target.network_id

  Checked : SpawnTargetInput → SpawnedTarget → Type 0
  Checked input target =
      Alive docker target.container_id
      × Isolated docker input.instance_id input.challenge_id target.network_id

  launched :
      (input : SpawnTargetInput) (container_id network_id : ℕ) (h h' : Host W)
      (target : SpawnedTarget)
      → launch docker ingress is_route_key length_of input container_id network_id h
        ≡ (h', returned target)
      → Isolated docker input.instance_id input.challenge_id network_id
      → Checked input target
  unfolding Checked
  launched input container_id network_id h h' target e isolated =
      let (alive, same) = launch-Alive input container_id network_id h h' target e in
      (alive, rw same isolated)

  restart-Checked :
      (input : SpawnTargetInput) (container_id : ℕ) (o : Option ℕ) (h h' : Host W)
      (target : SpawnedTarget)
      → restart docker ingress is_route_key length_of input container_id o h ≡ (h', returned target)
      → Checked input target
  unfolding restart raise
  restart-Checked input container_id none h h' target e = absurd (ground (arith, e))
  restart-Checked input container_id (some network_id) h h' target e =
      let (passed, asserts, rest) = then-returned _ _ h h' target e in
      let (joined, _, last) =
        then-returned _ _ passed h' target (on_throw-returned _ _ passed h' target rest) in
      launched input container_id network_id joined h' target last (
        assert-Isolated docker ingress is_route_key length_of network_id input.instance_id
          input.challenge_id h passed asserts)

  spawn_found-Checked :
      (input : SpawnTargetInput) (o : Option ℕ) (h h' : Host W) (target : SpawnedTarget)
      → spawn_found docker ingress is_route_key length_of input o h ≡ (h', returned target)
      → Checked input target
  unfolding spawn_found ensure_network
  spawn_found-Checked input none h h' target e =
      let (made, network_id, ensures, rest) = bind-returned _ _ h h' target e in
      let (built, container_id, _, last) = bind-returned _ _ made h' target rest in
      let ensures_it = on_throw-returned _ _ h made network_id ensures in
      let (looked, existing, _, ensures_one) = bind-returned _ _ h made network_id ensures_it in
      launched input container_id network_id built h' target
        (on_throw-returned _ _ built h' target last)
        (ensured-Isolated docker ingress is_route_key length_of input existing network_id looked
          made ensures_one)
  spawn_found-Checked input (some container_id) h h' target e =
      let (looked, network, _, rest) = bind-returned _ _ h h' target e in
      restart-Checked input container_id network looked h' target rest

  -- A spawn on the Docker host that returns a target had a valid request (the manifest is the
  -- challenge's, the route key fits its pattern and the flag has one to 256 characters), has seen
  -- the target's container running and past its health check, and has seen the target's network
  -- labelled as managed, as the instance's and as the challenge's, internal, not attachable,
  -- without IPv6 and with isolated gateways.
  pub spawn_target-Started :
      (input : SpawnTargetInput) (h h' : Host W) (target : SpawnedTarget)
      → spawn_target docker ingress is_route_key length_of input h ≡ (h', returned target)
      → Started input target
  unfolding spawn_target Checked
  spawn_target-Started input h h' target e =
      let (valid, rest) = guarded _ _ h h' target e in
      let (verified, _, search) = then-returned _ _ h h' target rest in
      let (looked, existing, _, found) = bind-returned _ _ verified h' target search in
      let (alive, isolated) = spawn_found-Checked input existing looked h' target found in
      record { valid = valid; alive = alive; isolated = isolated }
