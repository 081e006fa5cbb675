-- ===== src/Docker/Launching.antt =====
-- What a target that was started has shown.
use cyber_lab_backend.Prelude.{
  ℕ, zero, suc, ◌≡◌, ◌⊎◌, refl, Bool, true, ltb, Option, none, some, String, arith, Option-cases,
  inl, inr,
}
use cyber_lab_backend.Orchestrator.{SpawnTargetInput}
use cyber_lab_backend.Docker.{Name, uuid, same_label, has_managed_labels}
use cyber_lab_backend.Docker.Client.{
  Reply, replied, failed, Health, is_starting, is_healthy, is_unhealthy, ContainerInfo, NetworkInfo,
  Client, require, is_docker_conflict,
}
use cyber_lab_backend.Docker.Adapter.{meets_network_isolation}
use cyber_lab_backend.Docker.Isolation.{assert-owned}
use cyber_lab_backend.Docker.Spawning.{
  assert_managed_network, asserted, recovered, created, ensured, by_health, wait,
}
use cyber_lab_backend.Actions.{Host, Call, returned, pure, raise}
use cyber_lab_backend.Worker.Inversion.{bind-returned, then-returned, guarded, on_throw-returned}

module _ {W : Type 0} where
  pub require-replied :
      {A : Type 0} (reply : Reply A) (h h' : Host W) (a : A)
      → require reply h ≡ (h', returned a)
      → (reply ≡ replied a) × (h ≡ h')
  unfolding require pure raise
  require-replied (replied b) h h' a e = (ground (arith, e), ground (arith, e))
  require-replied (failed code) h h' a e = absurd (ground (arith, e))

module _ {W : Type 0} (docker : Client W) where
  -- An inspection of a network that is isolated and belongs to the instance and the challenge.
  pub record Isolated (instance_id challenge_id network_id : ℕ) : Type 0 where
    pub before : Host W
    pub after : Host W
    pub network : NetworkInfo
    pub inspected : docker.inspect_network network_id before ≡ (after, returned (replied network))
    pub owned : has_managed_labels network.labels instance_id ≡ true
    pub labelled : same_label network.labels.challenge_label (some (uuid challenge_id)) ≡ true
    pub isolated : meets_network_isolation network ≡ true

  -- An inspection of a container that runs and has passed its health check.
  pub record Alive (container_id : ℕ) : Type 0 where
    pub before : Host W
    pub after : Host W
    pub container : ContainerInfo
    pub inspected :
        docker.inspect_container container_id before ≡ (after, returned (replied container))
    pub runs : container.running ≡ true
    pub well : container.health ≡ some is_healthy

module _ {W : Type 0} (docker : Client W) (ingress : Option Name) (is_route_key : ℕ → Bool)
    (length_of : String → ℕ) where
  pub assert-Isolated :
      (id instance_id challenge_id : ℕ) (h h' : Host W)
      → assert_managed_network docker ingress is_route_key length_of id instance_id challenge_id h
        ≡ (h', returned tt)
      → Isolated docker instance_id challenge_id id
  unfolding assert_managed_network
  assert-Isolated id i c h h' e =
      let (seen, reply, inspected, rest) = bind-returned _ _ h h' tt e in
      let (mid, n, required, checks) = bind-returned _ _ seen h' tt rest in
      let (replies, _) = require-replied reply seen mid n required in
      let (owned, labelled, last) = then-returned _ _ mid h' tt checks in
      let (same, at_last) = guarded _ _ owned h' tt last in
      let (isolated, _) = guarded _ _ owned h' tt at_last in
      record {
        before = h;
        after = seen;
        network = n;
        inspected = rw (← replies) inspected;
        owned = assert-owned docker ingress i n.labels mid owned labelled;
        labelled = same;
        isolated = isolated;
      }

  asserted-Isolated :
      (input : SpawnTargetInput) (id id' : ℕ) (h h' : Host W)
      → asserted docker ingress is_route_key length_of input id h ≡ (h', returned id')
      → Isolated docker input.instance_id input.challenge_id id'
  unfolding asserted pure
  asserted-Isolated input id id' h h' e =
      let (mid, first, rest) = then-returned _ _ h h' id' e in
      let same : id ≡ id' = ground (arith, rest) in
      rw (← same) (assert-Isolated id input.instance_id input.challenge_id h mid first)

  created-Isolated :
      (input : SpawnTargetInput) (reply : Reply ℕ) (id : ℕ) (h h' : Host W)
      → created docker ingress is_route_key length_of input reply h ≡ (h', returned id)
      → Isolated docker input.instance_id input.challenge_id id
  unfolding created recovered raise
  created-Isolated input (replied new) id h h' e =
      asserted-Isolated input new id h h' (on_throw-returned _ _ h h' id e)
  created-Isolated input (failed code) id h h' e =
      let (conflict, e') = guarded (is_docker_conflict code) _ h h' id e in
      let (mid, found, first, rest) = bind-returned _ _ h h' id e' in
      elim (Option-cases found) [
        | inl gone ↦ absurd (ground (arith, rw gone at rest))
        | inr (there, e_there) ↦ asserted-Isolated input there id mid h' (rw e_there at rest)
      ]

  pub ensured-Isolated :
      (input : SpawnTargetInput) (o : Option ℕ) (id : ℕ) (h h' : Host W)
      → ensured docker ingress is_route_key length_of input o h ≡ (h', returned id)
      → Isolated docker input.instance_id input.challenge_id id
  unfolding ensured
  ensured-Isolated input none id h h' e =
      let (mid, reply, first, rest) = bind-returned _ _ h h' id e in
      created-Isolated input reply id mid h' rest
  ensured-Isolated input (some there) id h h' e = asserted-Isolated input there id h h' e

  by_health-true :
      (o : Option Health) (rest : Call W Bool) (h h' : Host W)
      → by_health docker ingress is_route_key length_of o rest h ≡ (h', returned true)
      → (o ≡ some is_healthy) ⊎ (rest h ≡ (h', returned true))
  unfolding by_health raise
  by_health-true none rest h h' e = inr e
  by_health-true (some is_healthy) rest h h' e = inl refl
  by_health-true (some is_unhealthy) rest h h' e = absurd (ground (arith, e))
  by_health-true (some is_starting) rest h h' e = inr e

  pub wait-Alive :
      (fuel deadline id : ℕ) (h h' : Host W)
      → wait docker ingress is_route_key length_of fuel deadline id h ≡ (h', returned true)
      → Alive docker id
  unfolding wait pure
  wait-Alive zero deadline id h h' e = absurd (ground (arith, e))
  wait-Alive (suc fuel) deadline id h h' e =
      let (timed, now, _, rest) = bind-returned _ _ h h' true e in
      let (early, then_rest) = guarded (ltb now deadline) _ timed h' true rest in
      let (seen, reply, inspected, more_rest) = bind-returned _ _ timed h' true then_rest in
      let (mid, c, required, judged) = bind-returned _ _ seen h' true more_rest in
      let (runs, last) = guarded c.running _ mid h' true judged in
      let (replies, _) = require-replied reply seen mid c required in
      elim (by_health-true c.health _ mid h' last) [
        | inl well ↦ record {
          before = timed;
          after = seen;
          container = c;
          inspected = rw (← replies) inspected;
          runs = runs;
          well = well;
        }
        | inr again ↦
            let (paused, _, onward) = then-returned _ _ mid h' true again in
            wait-Alive fuel deadline id paused h' onward
      ]
