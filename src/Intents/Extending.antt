-- ===== src/Intents/Extending.antt =====
-- `extendInstanceIntent` keeps the lifecycle tables sound.
use cyber_lab_backend.Prelude.{
  refl, ltb, leb, ◌&&◌, All, All-map, ℕ, ◌≡◌, true, false, some, exists_where, select_one, arith,
  Option-cases, Bool-cases, inl, inr, exists_of_select, update_where,
}
use cyber_lab_backend.Schema.{InstanceStatus, status_eq, Database, Instance, Operation, extend}
use cyber_lab_backend.Intents.{
  ExtendIntent, has_id, next_expiry, owned_by, used_key, pending_operation, extend_instance_intent,
  extend_new, extend_row, extend_checked, find_operation,
}
use cyber_lab_backend.Validity.{WithinLimit, IsValid}
use cyber_lab_backend.Validity.Queries.{found_only, found_by_id, owned_narrow, updated_by_id}
use cyber_lab_backend.Validity.Updates.{
  KeepsAll, keep_everywhere, update-HoldsInstances, update-HoldsOperations, insert-HoldsOperations,
}
use cyber_lab_backend.Intents.Commits.{FreshOperation, Commits, unused_of_none}

module _ (operation_id : ℕ) (input : ExtendIntent) (db : Database) (v : IsValid db)
    (new_operation_id : FreshOperation operation_id db) where
  extend_row-IsValid :
      (current : Instance)
      → select_one (owned_by input.user_id input.instance_id) db.instances ≡ some current
      → exists_where (used_key input.user_id extend input.idempotency_key) db.instance_operations
        ≡ false
      → Commits IsValid (extend_row operation_id input current db)
  unfolding extend_row
  extend_row-IsValid current e unused =
      rw (returned, extend_row)
        (record {
          of_instances =
              update-HoldsInstances (has_id current.id) f db.instances keeps limits v.of_instances;
          of_operations =
              insert-HoldsOperations (update_where (has_id current.id) f db.instances) operation
                db.instance_operations new_operation_id unused
                (exists_of_select (has_id current.id)
                  (update_where (has_id current.id) f db.instances) (f current) returned)
                (update-HoldsOperations (has_id current.id) f db.instances keeps
                  db.instance_operations v.of_operations);
        })
    where
      narrow :
          (y : Instance)
          → owned_by input.user_id input.instance_id y ≡ true
          → has_id current.id y ≡ true
      narrow = owned_narrow db.instances input.user_id input.instance_id current e

      f : Instance → Instance
      f r = record r { expires_at = next_expiry current input.extension_ms; updated_at = input.now }

      returned :
          select_one (has_id current.id) (update_where (has_id current.id) f db.instances)
          ≡ some (f current)
      returned =
          updated_by_id db.instances f current (λ y. refl)
            (found_by_id v.of_instances _ current narrow e)

      keeps : KeepsAll (has_id current.id) f db.instances
      keeps =
          keep_everywhere (has_id current.id) f db.instances
            λ r h. record { id = refl; user = refl; wakes_none = λ a. a }

      limits : All (λ r. has_id current.id r ≡ true → WithinLimit (f r)) db.instances
      limits =
          All-map (λ y. has_id current.id y ≡ true → y ≡ current)
            (λ r. has_id current.id r ≡ true → WithinLimit (f r)) db.instances
            (λ r same h. let eq = same h in rw eq (omega arith))
            (found_only v.of_instances _ current narrow e)

      operation : Operation
      operation =
          pending_operation operation_id current.id input.user_id extend input.idempotency_key
            input.request_hash input.now

  extend_checked-IsValid :
      (current : Instance)
      → select_one (owned_by input.user_id input.instance_id) db.instances ≡ some current
      → exists_where (used_key input.user_id extend input.idempotency_key) db.instance_operations
        ≡ false
      → Commits IsValid (extend_checked operation_id input current db)
  unfolding extend_checked
  extend_checked-IsValid current found unused =
      elim (Bool-cases
        (status_eq current.status InstanceStatus.running && ltb input.now current.expires_at)) [
          | inl live ↦
              elim (Bool-cases (leb (next_expiry current input.extension_ms) current.expires_at)) [
                | inl over ↦ rw (live, over) v
                | inr room ↦ rw (live, room) (extend_row-IsValid current found unused)
              ]
          | inr dead ↦ rw dead v
        ]

  pub extend-IsValid : Commits IsValid (extend_instance_intent operation_id input db)
  unfolding extend_instance_intent extend_new
  extend-IsValid =
      elim (Option-cases (find_operation db input.user_id extend input.idempotency_key)) [
        | inr ((o, r), e) ↦ rw (e, extend_instance_intent) v
        | inl e ↦
            rw (e, extend_instance_intent)
              (elim (Option-cases
                (select_one (owned_by input.user_id input.instance_id) db.instances)) [
                  | inl none_owned ↦ rw (none_owned, extend_new) v
                  | inr (current, found) ↦
                      rw (found, extend_new)
                        (extend_checked-IsValid current found (
                          unused_of_none db input.user_id extend input.idempotency_key
                            v.of_operations e))
                ])
      ]
