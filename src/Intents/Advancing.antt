-- ===== src/Intents/Advancing.antt =====
-- What the intents do to the table of instances.
use cyber_lab_backend.Prelude.{
  ℕ, ◌≡◌, refl, true, false, some, All, All-map, select_one, exists_where, arith, Option-cases,
  Bool-cases, inl, inr, ltb, leb, ◌&&◌,
}
use cyber_lab_backend.Schema.{
  Database, Instance, InstanceStatus, spawn, extend, destroy, in_array, status_eq,
}
use cyber_lab_backend.Intents.{
  CreateIntent, ExtendIntent, DestroyIntent, has_id, owned_by, active_for, startable, next_expiry,
  terminal_statuses, stopping_rows, create_instance_intent, create_new, extend_instance_intent,
  extend_new, extend_checked, extend_row, destroy_instance_intent, destroy_new, destroy_row,
  find_operation,
}
use cyber_lab_backend.Intents.Commits.{Commits}
use cyber_lab_backend.Validity.{IsValid}
use cyber_lab_backend.Validity.Queries.{found_only, found_by_id, owned_narrow, updated_by_id}
use cyber_lab_backend.Lifecycle.Evolution.{Evolves, created, Evolves-refl, Evolves-update, Follows}

-- The instances of the next state have evolved from those of this one.
abbrev pub From : Database → Database → Type 0
From db next = Evolves db.instances next.instances

module _ (instance_id operation_id : ℕ) (input : CreateIntent) (db : Database) where
  create_new-From : Commits (From db) (create_new instance_id operation_id input db)
  unfolding create_new
  create_new-From = elim (Option-cases (select_one (startable input.challenge_id) db.challenges)) [
    | inl e ↦ rw (e, create_new) (Evolves-refl db.instances)
    | inr (c, e) ↦ elim (Bool-cases (exists_where (active_for input.user_id) db.instances)) [
      | inl busy ↦ rw (e, create_new, busy) (Evolves-refl db.instances)
      | inr idle ↦ rw (e, create_new, idle) (created (Evolves-refl db.instances))
    ]
  ]

  pub create-From : Commits (From db) (create_instance_intent instance_id operation_id input db)
  unfolding create_instance_intent
  create-From = elim (Option-cases (find_operation db input.user_id spawn input.idempotency_key)) [
    | inl e ↦ rw (e, create_instance_intent) create_new-From
    | inr ((o, r), e) ↦ rw (e, create_instance_intent) (Evolves-refl db.instances)
  ]

module _ (operation_id : ℕ) (input : ExtendIntent) (db : Database) (v : IsValid db) where
  extend_row-From :
      (current : Instance)
      → select_one (owned_by input.user_id input.instance_id) db.instances ≡ some current
      → leb (next_expiry current input.extension_ms) current.expires_at ≡ false
      → Commits (From db) (extend_row operation_id input current db)
  unfolding extend_row
  extend_row-From current e longer =
      rw
        (
          updated_by_id db.instances f current (λ y. refl)
              (found_by_id v.of_instances _ current narrow e),
          extend_row,
        )
        (Evolves-update (has_id current.id) f db.instances follows)
    where
      narrow :
          (y : Instance)
          → owned_by input.user_id input.instance_id y ≡ true
          → has_id current.id y ≡ true
      narrow = owned_narrow db.instances input.user_id input.instance_id current e

      f : Instance → Instance
      f r = record r { expires_at = next_expiry current input.extension_ms; updated_at = input.now }

      follows : All (λ r. has_id current.id r ≡ true → Follows r (f r)) db.instances
      follows =
          All-map (λ y. has_id current.id y ≡ true → y ≡ current)
            (λ r. has_id current.id r ≡ true → Follows r (f r)) db.instances
            (λ r same h. rw (same h) (record {
              id = refl;
              user = refl;
              challenge = refl;
              created = refl;
              limit = refl;
              time = ground (arith, longer);
              status = ground arith;
            }))
            (found_only v.of_instances _ current narrow e)

  extend_checked-From :
      (current : Instance)
      → select_one (owned_by input.user_id input.instance_id) db.instances ≡ some current
      → Commits (From db) (extend_checked operation_id input current db)
  unfolding extend_checked
  extend_checked-From current found =
      elim (Bool-cases
        (status_eq current.status InstanceStatus.running && ltb input.now current.expires_at)) [
          | inl live ↦
              elim (Bool-cases (leb (next_expiry current input.extension_ms) current.expires_at)) [
                | inl over ↦ rw (live, over) (Evolves-refl db.instances)
                | inr room ↦ rw (live, room) (extend_row-From current found room)
              ]
          | inr dead ↦ rw dead (Evolves-refl db.instances)
        ]

  pub extend-From : Commits (From db) (extend_instance_intent operation_id input db)
  unfolding extend_instance_intent extend_new
  extend-From = elim (Option-cases (find_operation db input.user_id extend input.idempotency_key)) [
    | inr ((o, r), e) ↦ rw (e, extend_instance_intent) (Evolves-refl db.instances)
    | inl e ↦
        rw (e, extend_instance_intent)
          (elim (Option-cases
            (select_one (owned_by input.user_id input.instance_id) db.instances)) [
              | inl none_owned ↦ rw (none_owned, extend_new) (Evolves-refl db.instances)
              | inr (current, found) ↦ rw (found, extend_new) (extend_checked-From current found)
            ])
  ]

module _ (operation_id : ℕ) (input : DestroyIntent) (db : Database) (v : IsValid db) where
  stopping_rows-Evolves :
      (current : Instance)
      → select_one (owned_by input.user_id input.instance_id) db.instances ≡ some current
      → Evolves db.instances (stopping_rows input current db.instances)
        × ((r : Instance) × (select_one
                (has_id current.id)
                (stopping_rows input current db.instances)
              ≡ some r))
  stopping_rows-Evolves current e = elim (Bool-cases (in_array current.status terminal_statuses)) [
    | inl terminal ↦ rw terminal (Evolves-refl db.instances, (current, found))
    | inr live ↦ rw live (
      Evolves-update (has_id current.id) f db.instances (follows live),
      (f current, updated_by_id db.instances f current (λ y. refl) found),
    )
  ]
    where
      narrow :
          (y : Instance)
          → owned_by input.user_id input.instance_id y ≡ true
          → has_id current.id y ≡ true
      narrow = owned_narrow db.instances input.user_id input.instance_id current e

      found : select_one (has_id current.id) db.instances ≡ some current
      found = found_by_id v.of_instances _ current narrow e

      f : Instance → Instance
      f r = record r { status = InstanceStatus.stopping; updated_at = input.now }

      follows :
          in_array current.status terminal_statuses ≡ false
          → All (λ r. has_id current.id r ≡ true → Follows r (f r)) db.instances
      follows live =
          All-map (λ y. has_id current.id y ≡ true → y ≡ current)
            (λ r. has_id current.id r ≡ true → Follows r (f r)) db.instances
            (λ r same h. rw (same h) (record {
              id = refl;
              user = refl;
              challenge = refl;
              created = refl;
              limit = refl;
              time = omega arith;
              status = ground (arith, live);
            }))
            (found_only v.of_instances _ current narrow e)

  pub destroy-From : Commits (From db) (destroy_instance_intent operation_id input db)
  unfolding destroy_instance_intent destroy_new destroy_row
  destroy-From =
      elim (Option-cases (find_operation db input.user_id destroy input.idempotency_key)) [
        | inr ((o, r), e) ↦ rw (e, destroy_instance_intent) (Evolves-refl db.instances)
        | inl e ↦
            rw (e, destroy_instance_intent)
              (elim (Option-cases
                (select_one (owned_by input.user_id input.instance_id) db.instances)) [
                  | inl none_owned ↦ rw (none_owned, destroy_new) (Evolves-refl db.instances)
                  | inr (current, found) ↦
                      let (evolves, (r, returned)) = stopping_rows-Evolves current found in
                      rw (found, destroy_new, returned, destroy_row) evolves
                ])
      ]
