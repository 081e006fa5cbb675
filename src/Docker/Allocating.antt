-- ===== src/Docker/Allocating.antt =====
-- How the allocations of an inventory grow while the listings are read.
use cyber_lab_backend.Prelude.{
  ℕ, ◌≡◌, ◌≤◌, ◌⊎◌, refl, Bool, true, false, ◌&&◌, ◌==◌, Option, none, some, List, [], ◌∷◌, All,
  exists_where, count_where, option_eq, arith, Bool-cases, inl, inr, ==_iff, ==_refl, and_then-some,
}
use cyber_lab_backend.Inventory.{ManagedRuntimeAllocation, includes}
use cyber_lab_backend.Docker.{Kind, of_container, of_network, Resource, uuid_of}
use cyber_lab_backend.Docker.Listing.{
  allocated_to, blank, put, assign, Progress, allocate, visit, visit_all,
}

-- The allocation of the instance shows the resource.
abbrev pub shows : Kind → (instance_id id : ℕ) → ManagedRuntimeAllocation → Bool
shows of_container instance_id id a =
    allocated_to instance_id a && option_eq a.container_id (some id)
shows of_network instance_id id a = allocated_to instance_id a && option_eq a.network_id (some id)

module _ (id : ℕ) (f : ManagedRuntimeAllocation → ManagedRuntimeAllocation) where
  pub exists-put :
      (p : ManagedRuntimeAllocation → Bool) (allocations : List ManagedRuntimeAllocation)
      → ((a : ManagedRuntimeAllocation) → allocated_to id a ≡ true → p a ≡ true → p (f a) ≡ true)
      → exists_where p allocations ≡ true
      → exists_where p (put id f allocations) ≡ true
  unfolding put
  exists-put p [] keeps e = absurd (ground arith)
  exists-put p (a ∷ allocations) keeps e =
      let rest = exists-put p allocations keeps in ground (arith, rest, keeps a, e)

  pub put-exists :
      (p : ManagedRuntimeAllocation → Bool) (allocations : List ManagedRuntimeAllocation)
      → ((a : ManagedRuntimeAllocation) → allocated_to id a ≡ true → p (f a) ≡ true)
      → exists_where p (put id f allocations) ≡ true
  unfolding put
  put-exists p [] holds = let h = holds (blank id) (==_refl id) in ground (arith, h)
  put-exists p (a ∷ allocations) holds =
      let rest = put-exists p allocations holds in ground (arith, rest, holds a)

  module _ (same : (a : ManagedRuntimeAllocation) → (f a).instance_id ≡ a.instance_id) where
    count-put_other :
        (j : ℕ) (allocations : List ManagedRuntimeAllocation)
        → (j == id) ≡ false
        → count_where (allocated_to j) (put id f allocations)
          ≡ count_where (allocated_to j) allocations
    unfolding put
    count-put_other j [] e = ground (arith, same (blank id), e)
    count-put_other j (a ∷ allocations) e =
        let rest = count-put_other j allocations e in
        ground (arith, rest, same a, e, ==_iff a.instance_id id)

    pub count-put :
        (j : ℕ) (allocations : List ManagedRuntimeAllocation)
        → count_where (allocated_to j) allocations ≤ 1
        → count_where (allocated_to j) (put id f allocations) ≤ 1
    unfolding put
    count-put j [] one = ground arith
    count-put j (a ∷ allocations) one = elim (Bool-cases (allocated_to id a)) [
      | inl hit ↦ rw hit (ground (arith, same a, one))
      | inr miss ↦ elim (Bool-cases (j == id)) [
        | inl own ↦
            let rest = count-put j allocations in rw miss (ground (arith, rest, miss, own, one))
        | inr apart ↦
            let rest = count-put_other j allocations apart in rw miss (ground (arith, rest, one))
      ]
    ]

shows-assign :
    (kind kind' : Kind) (i j id : ℕ) (challenge id' : ℕ) (a : ManagedRuntimeAllocation)
    → (kind ≡ kind' → (i == j) ≡ false)
    → allocated_to j a ≡ true
    → shows kind i id a ≡ true
    → shows kind i id (assign kind' challenge id' a) ≡ true
shows-assign of_container of_container i j id challenge id' a apart own e =
    absurd (ground (arith, apart refl, own, e))
shows-assign of_container of_network i j id challenge id' a apart own e = e
shows-assign of_network of_container i j id challenge id' a apart own e = e
shows-assign of_network of_network i j id challenge id' a apart own e =
    absurd (ground (arith, apart refl, own, e))

assign-shows :
    (kind : Kind) (i challenge id : ℕ) (a : ManagedRuntimeAllocation)
    → allocated_to i a ≡ true
    → shows kind i id (assign kind challenge id a) ≡ true
assign-shows of_container i challenge id a own = ground (arith, own, ==_refl id)
assign-shows of_network i challenge id a own = ground (arith, own, ==_refl id)

assign-instance :
    (kind : Kind) (challenge id : ℕ) (a : ManagedRuntimeAllocation)
    → (assign kind challenge id a).instance_id ≡ a.instance_id
assign-instance of_container challenge id a = refl
assign-instance of_network challenge id a = refl

-- What a turn of the loop on a managed resource has done.
record Allocated (kind : Kind) (r : Resource) (p p' : Progress) : Type 0 where
  instance_id : ℕ
  challenge_id : ℕ
  label : uuid_of r.labels.instance_label ≡ some instance_id
  unseen : includes instance_id p.seen ≡ false
  seen : p'.seen ≡ instance_id ∷ p.seen
  allocations : p'.allocations ≡ put instance_id (assign kind challenge_id r.id) p.allocations

allocate-Allocated :
    (kind : Kind) (r : Resource) (instance_id challenge_id : Option ℕ) (p p' : Progress)
    → uuid_of r.labels.instance_label ≡ instance_id
    → allocate kind r instance_id challenge_id p ≡ some p'
    → Allocated kind r p p'
unfolding allocate
allocate-Allocated kind r none c p p' l e = absurd (ground arith)
allocate-Allocated kind r (some i) none p p' l e = absurd (ground arith)
allocate-Allocated kind r (some i) (some c) p p' l e = record {
  instance_id = i;
  challenge_id = c;
  label = l;
  unseen = ground (arith, e);
  seen = ground (arith, e);
  allocations = ground (arith, e);
}

visit-cases :
    (is_ingress : Resource → Bool) (kind : Kind) (r : Resource) (p p' : Progress)
    → visit is_ingress kind r p ≡ some p'
    → ((r.labels.managed ≡ false) × (p ≡ p')) ⊎ Allocated kind r p p'
unfolding visit
visit-cases is_ingress kind r p p' e = elim (Bool-cases r.labels.managed) [
  | inl managed ↦ inr (
      allocate-Allocated kind r (uuid_of r.labels.instance_label) (uuid_of r.labels.challenge_label)
        p p' refl (ground (arith, e, managed)))
  | inr unmanaged ↦ inl (unmanaged, ground (arith, e, unmanaged))
]

includes-apart :
    (i j : ℕ) (ids : List ℕ) → includes i ids ≡ true → includes j ids ≡ false → (i == j) ≡ false
includes-apart i j ids there gone = elim (Bool-cases (i == j)) [
  | inl same ↦ let e : i ≡ j = (==_iff i j).0 same in absurd (ground (arith, rw e at there, gone))
  | inr apart ↦ apart
]

-- While a listing is read, what is shown stays shown: of the other kind, and of an instance seen.
pub record Kept (kind kind' : Kind) (i id : ℕ) (p : Progress) : Type 0 where
  pub apart : kind ≡ kind' → includes i p.seen ≡ true
  pub shown : exists_where (shows kind i id) p.allocations ≡ true

Allocated-Kept :
    (kind kind' : Kind) (i id : ℕ) (r : Resource) (p p' : Progress)
    → Allocated kind' r p p'
    → Kept kind kind' i id p
    → Kept kind kind' i id p'
Allocated-Kept kind kind' i id r p p' a k = record {
  apart = λ e. rw a.seen (let there = k.apart e in ground (arith, there));
  shown = rw a.allocations (
      exists-put a.instance_id (assign kind' a.challenge_id r.id) (shows kind i id) p.allocations
        (λ x own shown.
          shows-assign kind kind' i a.instance_id id a.challenge_id r.id x
            (λ e. includes-apart i a.instance_id p.seen (k.apart e) a.unseen) own shown)
        k.shown);
}

module _ (is_ingress : Resource → Bool) (kind' : Kind) where
  pub visit_all-Kept :
      (kind : Kind) (i id : ℕ) (resources : List Resource) (p p' : Progress)
      → visit_all is_ingress kind' resources p ≡ some p'
      → Kept kind kind' i id p
      → Kept kind kind' i id p'
  unfolding visit_all
  visit_all-Kept kind i id [] p p' e k = let same : p ≡ p' = ground (arith, e) in rw (← same) k
  visit_all-Kept kind i id (r ∷ resources) p p' e k =
      let (mid, first, rest) = and_then-some (visit is_ingress kind' r p) _ p' e in
      visit_all-Kept kind i id resources mid p' rest
        (elim (visit-cases is_ingress kind' r p mid first) [
          | inl (unmanaged, same) ↦ rw (← same) k
          | inr a ↦ Allocated-Kept kind kind' i id r p mid a k
        ])

-- A managed resource is in the allocations, under its instance.
abbrev pub Shown : Kind → List ManagedRuntimeAllocation → Resource → Type 0
Shown kind allocations r =
    r.labels.managed ≡ true
    → (instance_id : ℕ) × (uuid_of r.labels.instance_label ≡ some instance_id)
      × (exists_where (shows kind instance_id r.id) allocations ≡ true)

module _ (is_ingress : Resource → Bool) (kind : Kind) where
  Allocated-Shown :
      (r : Resource) (resources : List Resource) (p mid p' : Progress)
      → Allocated kind r p mid
      → visit_all is_ingress kind resources mid ≡ some p'
      → Shown kind p'.allocations r
  Allocated-Shown r resources p mid p' a rest managed = (
    a.instance_id,
    a.label,
    (visit_all-Kept is_ingress kind kind a.instance_id r.id resources mid p' rest (record {
      apart = λ e. rw a.seen (let own = ==_refl a.instance_id in ground (arith, own));
      shown = rw a.allocations (
          put-exists a.instance_id (assign kind a.challenge_id r.id) (shows kind a.instance_id r.id)
            p.allocations (λ x own. assign-shows kind a.instance_id a.challenge_id r.id x own));
    })).shown,
  )

  pub visit_all-Shown :
      (resources : List Resource) (p p' : Progress)
      → visit_all is_ingress kind resources p ≡ some p'
      → All (Shown kind p'.allocations) resources
  unfolding visit_all
  visit_all-Shown [] p p' e = tt
  visit_all-Shown (r ∷ resources) p p' e =
      let (mid, first, rest) = and_then-some (visit is_ingress kind r p) _ p' e in
      (
        elim (visit-cases is_ingress kind r p mid first) [
          | inl (unmanaged, same) ↦ λ managed. absurd (ground (arith, managed, unmanaged))
          | inr a ↦ Allocated-Shown r resources p mid p' a rest
        ],
        visit_all-Shown resources mid p' rest,
      )

  pub visit_all-count :
      (j : ℕ) (resources : List Resource) (p p' : Progress)
      → visit_all is_ingress kind resources p ≡ some p'
      → count_where (allocated_to j) p.allocations ≤ 1
      → count_where (allocated_to j) p'.allocations ≤ 1
  unfolding visit_all
  visit_all-count j [] p p' e one = let same : p ≡ p' = ground (arith, e) in rw (← same) one
  visit_all-count j (r ∷ resources) p p' e one =
      let (mid, first, rest) = and_then-some (visit is_ingress kind r p) _ p' e in
      visit_all-count j resources mid p' rest (elim (visit-cases is_ingress kind r p mid first) [
        | inl (unmanaged, same) ↦ rw (← same) one
        | inr a ↦ rw a.allocations (
            count-put a.instance_id (assign kind a.challenge_id r.id)
              (assign-instance kind a.challenge_id r.id) j p.allocations one)
      ])
