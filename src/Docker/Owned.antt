-- ===== src/Docker/Owned.antt =====
-- A cleanup that was prepared removes only what was seen to belong to its allocations.
use cyber_lab_backend.Prelude.{
  ℕ, ◌≡◌, refl, true, Option, none, some, List, [], ◌∷◌, map, All, arith, Option-cases, inl, inr,
}
use cyber_lab_backend.Inventory.{ManagedRuntimeAllocation}
use cyber_lab_backend.Docker.{Name}
use cyber_lab_backend.Docker.Client.{replied, ContainerInfo, NetworkInfo, Client}
use cyber_lab_backend.Docker.Adapter.{try_container, try_network}
use cyber_lab_backend.Docker.Isolation.{or_missing-replied}
use cyber_lab_backend.Docker.Clearing.{
  is_owned_container, is_owned_network, Clearing, owned_container, owned_network, check_container,
  check_network, prepare_one, prepare_all,
}
use cyber_lab_backend.Actions.{Host, returned, pure, raise}
use cyber_lab_backend.Worker.Inversion.{bind-returned, then-returned, guarded}

module _ {W : Type 0} (docker : Client W) (trusted : Option ContainerInfo) where
  -- An inspection of the instance's own container.
  pub record OwnedContainer (instance_id : ℕ) (challenge : Option ℕ) (id : ℕ) : Type 0 where
    pub challenge_id : ℕ
    pub labelled : challenge ≡ some challenge_id
    pub before : Host W
    pub after : Host W
    pub info : ContainerInfo
    pub inspected : docker.inspect_container id before ≡ (after, returned (replied info))
    pub owned : is_owned_container trusted instance_id challenge_id id info ≡ true

  pub record OwnedNetwork (instance_id : ℕ) (challenge : Option ℕ) (id : ℕ) : Type 0 where
    pub challenge_id : ℕ
    pub labelled : challenge ≡ some challenge_id
    pub before : Host W
    pub after : Host W
    pub info : NetworkInfo
    pub inspected : docker.inspect_network id before ≡ (after, returned (replied info))
    pub owned : is_owned_network instance_id challenge_id id info ≡ true

  -- Whatever a closure would remove was seen to be its allocation's.
  pub record Owned (c : Clearing) : Type 0 where
    pub of_container :
        (id : ℕ)
        → c.container ≡ some id
        → OwnedContainer c.allocation.instance_id c.allocation.challenge_id id
    pub of_network :
        (id : ℕ) (ingress_id : Option ℕ)
        → c.network ≡ some (id, ingress_id)
        → OwnedNetwork c.allocation.instance_id c.allocation.challenge_id id

module _ {W : Type 0} (docker : Client W) (ingress : Option Name)
    (trusted : Option ContainerInfo) where
  check_container-Owned :
      (instance_id : ℕ) (challenge o : Option ℕ) (id : ℕ) (h h' : Host W)
      → check_container docker ingress trusted instance_id challenge o h ≡ (h', returned (some id))
      → OwnedContainer docker trusted instance_id challenge id
  unfolding check_container try_container owned_container pure raise
  check_container-Owned i challenge none id h h' e = absurd (ground (arith, e))
  check_container-Owned i none (some own) id h h' e = absurd (ground (arith, e))
  check_container-Owned i (some c) (some own) id h h' e =
      let (mid, found, tried, rest) = bind-returned _ _ h h' (some id) e in
      let (seen, reply, inspected, last) = bind-returned _ _ h mid found tried in
      elim (Option-cases found) [
        | inl gone ↦ absurd (ground (arith, rw gone at rest))
        | inr (info, there) ↦
            let (owned, done) = guarded _ _ mid h' (some id) (rw there at rest) in
            let same : own ≡ id = ground (arith, done) in
            let replies = or_missing-replied reply seen mid info (rw there at last) in
            record {
              challenge_id = c;
              labelled = refl;
              before = h;
              after = seen;
              info = info;
              inspected = rw (← replies, ← same) inspected;
              owned = rw (← same) owned;
            }
      ]

  check_network-Owned :
      (instance_id : ℕ) (challenge o : Option ℕ) (id : ℕ) (ingress_id : Option ℕ) (h h' : Host W)
      → check_network docker ingress trusted instance_id challenge o h
        ≡ (h', returned (some (id, ingress_id)))
      → OwnedNetwork docker trusted instance_id challenge id
  unfolding check_network try_network owned_network pure raise
  check_network-Owned i challenge none id x h h' e = absurd (ground (arith, e))
  check_network-Owned i none (some own) id x h h' e = absurd (ground (arith, e))
  check_network-Owned i (some c) (some own) id x h h' e =
      let (mid, found, tried, rest) = bind-returned _ _ h h' (some (id, x)) e in
      let (seen, reply, inspected, last) = bind-returned _ _ h mid found tried in
      elim (Option-cases found) [
        | inl gone ↦ absurd (ground (arith, rw gone at rest))
        | inr (info, there) ↦
            let (owned, done) = guarded _ _ mid h' (some (id, x)) (rw there at rest) in
            let same : own ≡ id = ground (arith, done) in
            let replies = or_missing-replied reply seen mid info (rw there at last) in
            record {
              challenge_id = c;
              labelled = refl;
              before = h;
              after = seen;
              info = info;
              inspected = rw (← replies, ← same) inspected;
              owned = rw (← same) owned;
            }
      ]

  prepare_one-Owned :
      (a : ManagedRuntimeAllocation) (c : Clearing) (h h' : Host W)
      → prepare_one docker ingress trusted a h ≡ (h', returned c)
      → Owned docker trusted c × (c.allocation ≡ a)
  unfolding prepare_one pure
  prepare_one-Owned a c h h' e =
      let (first, container, one, rest) = bind-returned _ _ h h' c e in
      let (second, network, two, route) = bind-returned _ _ first h' c rest in
      let (third, _, last) = then-returned _ _ second h' c route in
      let made : record { allocation = a; container = container; network = network } ≡ c =
        ground (arith, last) in
      (
        rw (← made) (record {
          of_container = λ id same.
              check_container-Owned a.instance_id a.challenge_id a.container_id id h first
                (rw same at one);
          of_network = λ id x same.
              check_network-Owned a.instance_id a.challenge_id a.network_id id x first second
                (rw same at two);
        }),
        rw (← made) refl,
      )

  pub prepare_all-Owned :
      (allocations : List ManagedRuntimeAllocation) (cs : List Clearing) (h h' : Host W)
      → prepare_all docker ingress trusted allocations h ≡ (h', returned cs)
      → All (Owned docker trusted) cs × (map (λ c. c.allocation) cs ≡ allocations)
  unfolding prepare_all pure
  prepare_all-Owned [] cs h h' e =
      let none_left : [] ≡ cs = ground (arith, e) in (rw (← none_left) tt, rw (← none_left) refl)
  prepare_all-Owned (a ∷ allocations) cs h h' e =
      let (mid, c, one, rest) = bind-returned _ _ h h' cs e in
      let (after, cs', others, last) = bind-returned _ _ mid h' cs rest in
      let made : c ∷ cs' ≡ cs = ground (arith, last) in
      let (owned, same) = prepare_one-Owned a c h mid one in
      let (all_owned, same_rest) = prepare_all-Owned allocations cs' mid after others in
      (rw (← made) (owned, all_owned), rw (← made) (rw (same, same_rest) refl))
