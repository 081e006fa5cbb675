-- ===== src/Docker/Isolation.antt =====
-- What a healthy runtime has shown.
use cyber_lab_backend.Prelude.{
  ℕ, ◌≡◌, true, false, not, if◌then◌else◌, Option, none, some, arith, Bool-cases, Option-cases, inl,
  inr,
}
use cyber_lab_backend.Orchestrator.{healthy, stopped, oom, unhealthy}
use cyber_lab_backend.Docker.{Name, Labels, has_managed_labels}
use cyber_lab_backend.Docker.Client.{
  Reply, replied, failed, ContainerInfo, NetworkInfo, Client, or_missing, is_docker_not_found,
}
use cyber_lab_backend.Docker.Adapter.{
  is_sick, is_confined, find_network, assert_managed_labels, try_container, try_network, status_on,
  status_connected, status_of, status_found, runtime_status,
}
use cyber_lab_backend.Actions.{Host, returned, pure, raise, ◌>>=◌}
use cyber_lab_backend.Worker.Inversion.{bind-returned, then-returned, if-returned}

module _ {W : Type 0} where
  pub or_missing-replied :
      {A : Type 0} (reply : Reply A) (h h' : Host W) (a : A)
      → or_missing reply h ≡ (h', returned (some a))
      → reply ≡ replied a
  unfolding or_missing pure raise
  or_missing-replied (replied b) h h' a e = ground (arith, e)
  or_missing-replied (failed code) h h' a e = elim (Bool-cases (is_docker_not_found code)) [
    | inl gone ↦ absurd (ground (arith, gone, e))
    | inr other ↦ absurd (ground (arith, other, e))
  ]

module _ {W : Type 0} (docker : Client W) (ingress : Option Name) (instance_id : ℕ) where
  -- An inspection of a network of the instance that confines the container.
  pub record Confines (c : ContainerInfo) : Type 0 where
    pub network_id : ℕ
    pub before : Host W
    pub after : Host W
    pub network : NetworkInfo
    pub inspected : docker.inspect_network network_id before ≡ (after, returned (replied network))
    pub owned : has_managed_labels network.labels instance_id ≡ true
    pub confined : is_confined c network ≡ true

  -- An inspection of a container of the instance that runs, is not found unhealthy, and is confined.
  pub record Healthy : Type 0 where
    pub container_id : ℕ
    pub before : Host W
    pub after : Host W
    pub container : ContainerInfo
    pub inspected :
        docker.inspect_container container_id before ≡ (after, returned (replied container))
    pub owned : has_managed_labels container.labels instance_id ≡ true
    pub runs : container.running ≡ true
    pub alive : container.oom_killed ≡ false
    pub not_sick : is_sick container.health ≡ false
    pub network : Confines container

  pub assert-owned :
      (labels : Labels) (h h' : Host W)
      → assert_managed_labels docker ingress labels instance_id h ≡ (h', returned tt)
      → has_managed_labels labels instance_id ≡ true
  unfolding assert_managed_labels raise pure
  assert-owned labels h h' e = ground (arith, e)

  status_on-owned :
      (c : ContainerInfo) (n : NetworkInfo) (h h' : Host W)
      → status_on docker ingress c instance_id (some n) h ≡ (h', returned healthy)
      → (has_managed_labels n.labels instance_id ≡ true) × (is_confined c n ≡ true)
  unfolding status_on pure
  status_on-owned c n h h' e =
      let (mid, first, rest) = then-returned _ _ h h' healthy e in
      (assert-owned n.labels h mid first, ground (arith, rest))

  status_connected-Confines :
      (c : ContainerInfo) (o : Option ℕ) (h h' : Host W)
      → status_connected docker ingress c instance_id o h ≡ (h', returned healthy)
      → Confines c
  unfolding status_connected try_network pure
  status_connected-Confines c none h h' e = absurd (ground (arith, e))
  status_connected-Confines c (some id) h h' e =
      let (mid, found, tried, rest) = bind-returned _ _ h h' healthy e in
      let (seen, reply, inspected, last) = bind-returned _ _ h mid found tried in
      elim (Option-cases found) [
        | inl gone ↦ absurd (ground (arith, rw gone at rest))
        | inr (n, there) ↦
            let (owned, confined) = status_on-owned c n mid h' (rw there at rest) in
            let replies = or_missing-replied reply seen mid n (rw there at last) in
            record {
              network_id = id;
              before = h;
              after = seen;
              network = n;
              inspected = rw (← replies) inspected;
              owned = owned;
              confined = confined;
            }
      ]

  -- What is left of the status when the container is the instance's.
  running-Confines :
      (c : ContainerInfo) (h h' : Host W)
      → (if c.oom_killed
            then pure oom
            else if not c.running
            then pure stopped
            else if is_sick c.health
            then pure unhealthy
            else (find_network docker ingress instance_id
                >>= status_connected docker ingress c instance_id))
          h
        ≡ (h', returned healthy)
      → (c.oom_killed ≡ false) × (c.running ≡ true) × (is_sick c.health ≡ false) × Confines c
  unfolding pure
  running-Confines c h h' e =
      let (alive, e') =
        if-returned c.oom_killed (pure oom) _ h (λ o. absurd (ground (arith, o))) e in
      let (on, e2) =
        if-returned (not c.running) (pure stopped) _ h (λ o. absurd (ground (arith, o))) e' in
      let (well, e3) =
        if-returned (is_sick c.health) (pure unhealthy) _ h (λ o. absurd (ground (arith, o))) e2 in
      let (mid, network, found, rest) = bind-returned _ _ h h' healthy e3 in
      (alive, ground (arith, on), well, status_connected-Confines c network mid h' rest)

  status_found-Healthy :
      (o : Option ℕ) (h h' : Host W)
      → status_found docker ingress instance_id o h ≡ (h', returned healthy)
      → Healthy
  unfolding status_found status_of try_container pure
  status_found-Healthy none h h' e = absurd (ground (arith, e))
  status_found-Healthy (some id) h h' e =
      let (mid, details, tried, rest) = bind-returned _ _ h h' healthy e in
      let (seen, reply, inspected, last) = bind-returned _ _ h mid details tried in
      elim (Option-cases details) [
        | inl gone ↦ absurd (ground (arith, rw gone at rest))
        | inr (c, there) ↦
            let (checked, labelled, status) = then-returned _ _ mid h' healthy (rw there at rest) in
            let (alive, runs, well, confines) = running-Confines c checked h' status in
            let replies = or_missing-replied reply seen mid c (rw there at last) in
            record {
              container_id = id;
              before = h;
              after = seen;
              container = c;
              inspected = rw (← replies) inspected;
              owned = assert-owned c.labels mid checked labelled;
              runs = runs;
              alive = alive;
              not_sick = well;
              network = confines;
            }
      ]

  -- A runtime that is reported as healthy was seen as a container with the instance's labels that
  -- runs, was not killed for its memory and is not found unhealthy, and that is attached to one
  -- network only, which has the instance's labels and the same challenge label and is isolated.
  pub runtime_status-Healthy :
      (h h' : Host W)
      → runtime_status docker ingress instance_id h ≡ (h', returned healthy)
      → Healthy
  unfolding runtime_status
  runtime_status-Healthy h h' e =
      let (mid, existing, found, rest) = bind-returned _ _ h h' healthy e in
      status_found-Healthy existing mid h' rest
