-- ===== src/Runtime/Admission/Covering.antt =====
-- What the set of occupied ids covers while the reservations of the node are settled.
use cyber_lab_backend.Prelude.{
  ℕ, count-update, ◌≤◌, All, All-map, All-update_split, All-everywhere, is_member, ◌≡◌, refl, Bool,
  true, false, arith, none, some, List, [], ◌∷◌, Bool-cases, inl, inr, select_where, update_where,
  exists_where, count_where, ◌||◌, map, ==_iff, ==_refl, ◌==◌,
}
use cyber_lab_backend.Schema.{Instance}
use cyber_lab_backend.Intents.{has_id}
use cyber_lab_backend.Inventory.{
  ManagedRuntimeAllocation, ManagedRuntimeInventory, to_set, add_to_set, observed,
}
use cyber_lab_backend.Runtime.Admission.Settling.{settle_induction}
use cyber_lab_backend.Runtime.Admission.{SpawnRequest, settle, released, reserved_on}

-- Every row that the node holds is among the occupied ids, or is still to be looked at.
abbrev pub Covered : ℕ → List Instance → List ℕ → List Instance → Type 0
Covered node_id rest occupied = All (λ y.
    reserved_on node_id y ≡ true
    → (is_member y.id occupied || exists_where (has_id y.id) rest) ≡ true)

-- The id is neither among the occupied ones nor still to come.
abbrev pub Absent : ℕ → List Instance → List ℕ → Type 0
Absent id rest occupied = (exists_where (has_id id) rest ≡ false) × (is_member id occupied ≡ false)

pub is_member-add :
    (id other : ℕ) (ids : List ℕ)
    → is_member other (add_to_set id ids) ≡ ((id == other) || is_member other ids)
unfolding add_to_set
is_member-add id other ids = elim (Bool-cases (is_member id ids)) [
  | inr fresh ↦ rw fresh
  | inl there ↦ rw there (elim (Bool-cases (id == other)) [
    | inr differ ↦ rw differ
    | inl same ↦ rw same (let e = (==_iff id other).0 same in rw (← e) there)
  ])
]

module _ (input : SpawnRequest) where
  pub settle-Covered :
      (reservations rows : List Instance) (occupied : List ℕ) (rows' : List Instance)
      (occupied' : List ℕ)
      → settle input.inventory input.now reservations rows occupied ≡ some (rows', occupied')
      → Covered input.node_id reservations occupied rows
        × Absent input.instance_id reservations occupied
      → Covered input.node_id [] occupied' rows' × Absent input.instance_id [] occupied'
  settle-Covered =
      settle_induction input.inventory input.now
        (λ rest rows occupied.
          Covered input.node_id rest occupied rows × Absent input.instance_id rest occupied)
        (λ r rest rows occupied _ (covered, (a, b)). (
          All-update_split
              (λ y.
                reserved_on input.node_id y ≡ true
                → (is_member y.id occupied || exists_where (has_id y.id) (r ∷ rest)) ≡ true)
              (λ y.
                reserved_on input.node_id y ≡ true
                → (is_member y.id occupied || exists_where (has_id y.id) rest) ≡ true)
              (has_id r.id) (released input.now) rows (λ y hit h t. absurd (ground arith))
              (λ y miss h t. let covers = h t in ground (arith, covers, miss, ==_iff r.id y.id))
              covered,
          (ground (arith, a), b),
        ))
        (λ r rest rows occupied _ (covered, (a, b)). (
          All-map
              (λ y.
                reserved_on input.node_id y ≡ true
                → (is_member y.id occupied || exists_where (has_id y.id) (r ∷ rest)) ≡ true)
              (λ y.
                reserved_on input.node_id y ≡ true
                → (is_member y.id (add_to_set r.id occupied) || exists_where (has_id y.id) rest)
                  ≡ true)
              rows
              (λ y h t.
                let covers = h t in rw (is_member-add r.id y.id occupied) (ground (arith, covers)))
              covered,
          (
            ground (arith, a),
            rw (is_member-add r.id input.instance_id occupied) (ground (arith, a, b)),
          ),
        ))

-- What the loop starts from covers every reservation of the node.
pub reservations_listed :
    (node_id : ℕ) (occupied : List ℕ) (rows : List Instance)
    → Covered node_id (select_where (reserved_on node_id) rows) occupied rows
reservations_listed node_id occupied [] = tt
reservations_listed node_id occupied (y ∷ rows) = (
  (λ t. ground (arith, t, ==_refl y.id)),
  All-map
      (λ z.
        reserved_on node_id z ≡ true
        → (is_member z.id occupied
            || exists_where (has_id z.id) (select_where (reserved_on node_id) rows))
          ≡ true)
      (λ z.
        reserved_on node_id z ≡ true
        → (is_member z.id occupied
            || exists_where (has_id z.id) (select_where (reserved_on node_id) (y ∷ rows)))
          ≡ true)
      rows (λ z h t. let covers = h t in ground (arith, covers))
      (reservations_listed node_id occupied rows),
)

-- An id that the inventory does not show is not in the set of its ids.
pub unobserved-is_member :
    (allocations : List ManagedRuntimeAllocation) (id : ℕ)
    → observed allocations id ≡ none
    → is_member id (to_set (map (λ a. a.instance_id) allocations)) ≡ false
unfolding observed to_set
unobserved-is_member [] id e = refl
unobserved-is_member (a ∷ allocations) id e =
    rw (is_member-add a.instance_id id (to_set (map (λ b. b.instance_id) allocations)))
      (ground (arith, unobserved-is_member allocations id))

-- A row that is not on the node is not among the node's reservations.
pub not_reserved :
    (node_id id : ℕ) (rows : List Instance)
    → All (λ y. has_id id y ≡ true → reserved_on node_id y ≡ false) rows
    → exists_where (has_id id) (select_where (reserved_on node_id) rows) ≡ false
not_reserved node_id id [] h = refl
not_reserved node_id id (y ∷ rows) (here, later) = elim (Bool-cases (reserved_on node_id y)) [
  | inl hit ↦
      rw hit (let rest = not_reserved node_id id rows later in ground (arith, here, rest, hit))
  | inr miss ↦ rw miss (not_reserved node_id id rows later)
]

-- The primary key of the table.
abbrev pub OneId : List Instance → Type 0
OneId rows = (id : ℕ) → count_where (has_id id) rows ≤ 1

pub OneId-update :
    (q : Instance → Bool) (f : Instance → Instance) (rows : List Instance)
    → ((y : Instance) → (f y).id ≡ y.id)
    → OneId rows
    → OneId (update_where q f rows)
OneId-update q f rows same one id =
    rw
      (count-update (has_id id) q f rows (
        All-everywhere (λ y. q y ≡ true → has_id id (f y) ≡ has_id id y) rows (λ y _. rw (same y))))
      (one id)

pub settle-OneId :
    (inventory : ManagedRuntimeInventory) (now : ℕ) (reservations rows : List Instance)
    (occupied : List ℕ) (rows' : List Instance) (occupied' : List ℕ)
    → settle inventory now reservations rows occupied ≡ some (rows', occupied')
    → OneId rows
    → OneId rows'
settle-OneId inventory now =
    settle_induction inventory now (λ _ rows _. OneId rows)
      (λ r rest rows _ _ one. OneId-update (has_id r.id) (released now) rows (λ y. refl) one)
      (λ r rest rows _ _ one. one)
