-- ===== src/Docker/Waiting.antt =====
-- The wait for a target ends: its fuel is enough.
use cyber_lab_backend.Prelude.{
  ℕ, zero, suc, ◌+◌, ◌*◌, ◌≤◌, ◌≡◌, ◌≢◌, ap, Bool, false, ltb, Option, none, some, String, arith,
}
use cyber_lab_backend.Docker.{Name}
use cyber_lab_backend.Docker.Client.{
  Reply, ContainerInfo, Health, is_starting, is_healthy, is_unhealthy, Client,
}
use cyber_lab_backend.Docker.Spawning.{by_health, wait, turns_of}
use cyber_lab_backend.Docker.Launching.{require-replied}
use cyber_lab_backend.Actions.{Host, Result, Call, returned, pure, raise}
use cyber_lab_backend.Worker.Inversion.{bind-returned, then-returned, guarded}

module _ {W : Type 0} (docker : Client W) where
  -- A clock that does not run backwards: it answers with the time, an inspection takes some, and a
  -- pause takes the half second that it was asked for.
  pub record IsTimed (time : Host W → ℕ) : Type 0 where
    pub reads : (h h' : Host W) (now : ℕ) → docker.now h ≡ (h', returned now) → time h ≤ now
    pub after : (h h' : Host W) (now : ℕ) → docker.now h ≡ (h', returned now) → now ≤ time h'
    pub inspects :
        (id : ℕ) (h h' : Host W) {reply : Result (Reply ContainerInfo)}
        → docker.inspect_container id h ≡ (h', reply)
        → time h ≤ time h'
    pub pauses : (h h' : Host W) → docker.pause h ≡ (h', returned tt) → time h + 500 ≤ time h'

module _ {W : Type 0} (docker : Client W) (ingress : Option Name) (is_route_key : ℕ → Bool)
    (length_of : String → ℕ) (time : Host W → ℕ) (timed : IsTimed docker time) where
  by_health-false :
      (o : Option Health) (rest : Call W Bool) (h h' : Host W)
      → by_health docker ingress is_route_key length_of o rest h ≡ (h', returned false)
      → rest h ≡ (h', returned false)
  unfolding by_health raise pure
  by_health-false none rest h h' e = e
  by_health-false (some is_healthy) rest h h' e = absurd (ground (arith, e))
  by_health-false (some is_unhealthy) rest h h' e = absurd (ground (arith, e))
  by_health-false (some is_starting) rest h h' e = e

  -- A turn that did not end the wait was early, and took half a second.
  wait-turn :
      (fuel deadline id : ℕ) (h h' : Host W)
      → wait docker ingress is_route_key length_of (suc fuel) deadline id h ≡ (h', returned false)
      → (paused : Host W) × (suc (time h) ≤ deadline)
        × (time h + 500 ≤ time paused)
        × (wait docker ingress is_route_key length_of fuel deadline id paused
            ≡ (h', returned false))
  unfolding wait
  wait-turn fuel deadline id h h' e =
      let (read, now, reads, rest) = bind-returned _ _ h h' false e in
      let (early, inspection) = guarded (ltb now deadline) _ read h' false rest in
      let (seen, reply, inspected, on_reply) = bind-returned _ _ read h' false inspection in
      let (mid, c, required, judged) = bind-returned _ _ seen h' false on_reply in
      let (runs, last) = guarded c.running _ mid h' false judged in
      let again = by_health-false c.health _ mid h' last in
      let (paused, slept, onward) = then-returned _ _ mid h' false again in
      let (_, same) = require-replied reply seen mid c required in
      let before = timed.reads h read now reads in
      let after = timed.after h read now reads in
      let inspecting = timed.inspects id read seen inspected in
      let pausing = timed.pauses mid paused slept in
      let still : time seen ≡ time mid = ap time same in
      (
        paused,
        ground (arith, before, early),
        ground (arith, before, after, inspecting, pausing, still),
        onward,
      )

  -- A wait that has run out of fuel has spent half a second a turn before its deadline.
  wait-spends :
      (fuel deadline id : ℕ) (h h' : Host W)
      → wait docker ingress is_route_key length_of (suc fuel) deadline id h ≡ (h', returned false)
      → suc (time h + 500 * fuel) ≤ deadline
  wait-spends zero deadline id h h' e =
      let (paused, early, _, _) = wait-turn zero deadline id h h' e in ground (arith, early)
  wait-spends (suc fuel) deadline id h h' e =
      let (paused, early, slept, onward) = wait-turn (suc fuel) deadline id h h' e in
      let rest = wait-spends fuel deadline id paused h' onward in ground (arith, early, slept, rest)

  -- The wait for a target to become healthy ends before its fuel of two turns for each second of
  -- the startup time and one more does: it returns or throws, where the clock does not run
  -- backwards, an inspection takes no negative time and a pause takes half a second at least.
  pub wait-ends :
      (startup_seconds now id : ℕ) (h read h' : Host W)
      → docker.now h ≡ (read, returned now)
      → wait docker ingress is_route_key length_of
          (turns_of startup_seconds)
          (now + startup_seconds * 1000)
          id
          read
        ≢ (h', returned false)
  wait-ends startup_seconds now id h read h' reads e =
      let after = timed.after h read now reads in
      let spent = wait-spends (startup_seconds * 2) (now + startup_seconds * 1000) id read h' e in
      ground (arith, after, spent)
