-- ===== src/Runtime/Admission/Retrying.antt =====
-- A spawn that is tried again keeps its place on the node.
use cyber_lab_backend.Prelude.{
  ℕ, ◌≡◌, refl, Bool, true, false, ◌||◌, Option, some, List, [], ◌∷◌, All, is_member, map, All-map,
  select_one, select_where, exists_where, arith, Bool-cases, Option-cases, inl, inr, ==_iff,
  ==_refl, only_row, All-select_where, select_one-holds, exists_of_select, not_exists_of_select,
  exists-update, All-everywhere, or_else, select_one-update,
}
use cyber_lab_backend.Schema.{Database, Instance, InstanceStatus, LabNode, in_array, is_active_node}
use cyber_lab_backend.Validity.{IsValid}
use cyber_lab_backend.Intents.{has_id, terminal_statuses}
use cyber_lab_backend.Inventory.{ManagedRuntimeInventory, to_set}
use cyber_lab_backend.Runtime.{RuntimeInstanceState, selection}
use cyber_lab_backend.Runtime.Admission.Settling.{settle_induction}
use cyber_lab_backend.Runtime.Admission.{
  SpawnRequest, settle, released, admit, foreign, reserve, prepare_on, prepare_spawn, reserved_on,
  has_node_id, prepared_row,
}
use cyber_lab_backend.Runtime.Admission.Covering.{is_member-add}

-- The reservation is counted, or still to be looked at; and it is not terminal.
abbrev Counted : ℕ → List Instance → List ℕ → Type 0
Counted id rest occupied =
    ((is_member id occupied || exists_where (has_id id) rest) ≡ true)
    × All (λ y. has_id id y ≡ true → in_array y.status terminal_statuses ≡ false) rest

settle-Counted :
    (inventory : ManagedRuntimeInventory) (now id : ℕ) (reservations rows : List Instance)
    (occupied : List ℕ) (rows' : List Instance) (occupied' : List ℕ)
    → settle inventory now reservations rows occupied ≡ some (rows', occupied')
    → Counted id reservations occupied
    → Counted id [] occupied'
settle-Counted inventory now id =
    settle_induction inventory now (λ rest _ occupied. Counted id rest occupied)
      (λ r rest rows occupied gone (counted, (here, later)).
        (ground (arith, counted, gone, here), later))
      (λ r rest rows occupied held (counted, (here, later)).
        (rw (is_member-add r.id id occupied) (ground (arith, counted)), later))

settle-exists :
    (inventory : ManagedRuntimeInventory) (now id : ℕ) (reservations rows : List Instance)
    (occupied : List ℕ) (rows' : List Instance) (occupied' : List ℕ)
    → settle inventory now reservations rows occupied ≡ some (rows', occupied')
    → exists_where (has_id id) rows ≡ true
    → exists_where (has_id id) rows' ≡ true
settle-exists inventory now id =
    settle_induction inventory now (λ _ rows _. exists_where (has_id id) rows ≡ true)
      (λ r rest rows occupied _ there.
        rw
          (exists-update (has_id id) (has_id r.id) (released now) rows (
            All-everywhere (λ y. has_id r.id y ≡ true → has_id id (released now y) ≡ has_id id y)
              rows (λ y _. refl)))
          there)
      (λ r rest rows occupied _ there. there)

-- What an admission answers for an instance that keeps its place.
abbrev pub Keeps : SpawnRequest → Instance → Option RuntimeInstanceState → Type 0
Keeps input current result =
    (s : RuntimeInstanceState) × (result ≡ some s)
    × (s.id ≡ input.instance_id)
    × (s.status ≡ InstanceStatus.provisioning)
    × (s.node_id ≡ some input.node_id)
    × (s.route_key ≡ some (or_else current.route_key input.route_key))

admit-Keeps :
    (node : LabNode) (input : SpawnRequest) (current : Instance) (rows : List Instance)
    (occupied : List ℕ) (db : Database)
    → is_member current.id occupied ≡ true
    → exists_where (has_id input.instance_id) rows ≡ true
    → Keeps input current (admit node input current rows occupied db).1
unfolding admit
admit-Keeps node input current rows occupied db placed there =
    elim (Option-cases (select_one (has_id input.instance_id) rows)) [
      | inl missing ↦
          absurd
            (ground (arith, there, not_exists_of_select (has_id input.instance_id) rows missing))
      | inr (y, found) ↦
          let own = select_one-holds (has_id input.instance_id) rows y found in
          let after =
            select_one-update (has_id input.instance_id) (has_id input.instance_id)
              (prepared_row input current.route_key) rows (λ _ _. refl) y found in
          (
            selection (prepared_row input current.route_key y),
            ground (arith, placed, after, own),
            (==_iff y.id input.instance_id).0 own,
            refl,
            refl,
            refl,
          )
    ]

not_terminal :
    (s : InstanceStatus)
    → in_array s (InstanceStatus.pending ∷ InstanceStatus.provisioning ∷ []) ≡ true
    → in_array s terminal_statuses ≡ false
not_terminal s h = ground arith

selected-exists :
    (q p : Instance → Bool) (rows : List Instance) (r : Instance)
    → select_one p rows ≡ some r
    → q r ≡ true
    → exists_where p (select_where q rows) ≡ true
selected-exists q p [] r found hit = absurd (ground arith)
selected-exists q p (y ∷ rows) r found hit = elim (Bool-cases (p y)) [
  | inl own ↦
      let same : y ≡ r = ground (arith, own) in
      rw (same, hit) (let h : p r ≡ true = rw (← same) own in rw h refl)
  | inr other ↦
      let rest = selected-exists q p rows r (ground (arith, other)) hit in
      ground (arith, rest, other)
]

-- Where the tables are valid, a waiting instance that already holds a reservation on the node is
-- never refused for want of capacity: if the admission does not throw, it answers with the
-- instance, provisioning on the same node, under the route key that it has, or the new one if it
-- has none.
pub prepare_spawn-Keeps :
    (input : SpawnRequest) (db next : Database) (node : LabNode) (current : Instance)
    (result : Option RuntimeInstanceState)
    → IsValid db
    → select_one (has_node_id input.node_id) db.lab_nodes ≡ some node
    → select_one (has_id input.instance_id) db.instances ≡ some current
    → in_array current.status (InstanceStatus.pending ∷ InstanceStatus.provisioning ∷ []) ≡ true
    → current.node_id ≡ some input.node_id
    → prepare_spawn input db ≡ some (next, result)
    → Keeps input current result
unfolding prepare_spawn prepare_on reserve
prepare_spawn-Keeps input db next node current result v at_node found waiting placed e =
    elim (Bool-cases (is_active_node node.status)) [
      | inr offline ↦ absurd (ground (arith, at_node, offline))
      | inl online ↦ elim (Bool-cases (foreign input current)) [
        | inl other ↦ absurd (ground (arith, at_node, found, waiting, online, other))
        | inr ours ↦
            elim (Option-cases (settle input.inventory input.now reservations db.instances ids)) [
              | inl thrown ↦ absurd (ground (arith, at_node, found, waiting, online, ours, thrown))
              | inr ((rows, occupied), settled) ↦
                  let (counted, _) =
                    settle-Counted input.inventory input.now input.instance_id reservations
                      db.instances ids rows occupied settled (held, lasting) in
                  let there =
                    settle-exists input.inventory input.now input.instance_id reservations
                      db.instances ids rows occupied settled
                      (exists_of_select (has_id input.instance_id) db.instances current found) in
                  let answer : result ≡ (admit node input current rows occupied db).1 =
                    ground (arith, at_node, found, waiting, online, ours, settled) in
                  rw answer (
                    admit-Keeps node input current rows occupied db
                      (rw same (ground (arith, counted))) there)
            ]
      ]
    ]
  where
    reservations : List Instance
    reservations = select_where (reserved_on input.node_id) db.instances

    ids : List ℕ
    ids = to_set (map (λ a. a.instance_id) input.inventory.allocations)

    same : current.id ≡ input.instance_id
    same = (==_iff _ _).0 (select_one-holds (has_id input.instance_id) db.instances current found)

    held :
        (is_member input.instance_id ids || exists_where (has_id input.instance_id) reservations)
        ≡ true
    held =
        let listed =
          selected-exists (reserved_on input.node_id) (has_id input.instance_id) db.instances
            current found (rw placed (==_refl input.node_id)) in
        ground (arith, listed)

    lasting :
        All
          (λ y. has_id input.instance_id y ≡ true → in_array y.status terminal_statuses ≡ false)
          reservations
    lasting =
        All-select_where
          (λ y. has_id input.instance_id y ≡ true → in_array y.status terminal_statuses ≡ false)
          (reserved_on input.node_id) db.instances
          (All-map (λ y. has_id input.instance_id y ≡ true → y ≡ current)
            (λ y. has_id input.instance_id y ≡ true → in_array y.status terminal_statuses ≡ false)
            db.instances (λ y only h. rw (only h) (not_terminal current.status waiting))
            (only_row (has_id input.instance_id) (has_id input.instance_id) db.instances current
              (λ y h. h) (v.of_instances.one_id input.instance_id) found))
