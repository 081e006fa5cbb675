-- ===== src/Intents/Destroying.antt =====
-- `destroyInstanceIntent` keeps the lifecycle tables sound.
use cyber_lab_backend.Prelude.{
  refl, All, All-map, ℕ, ◌≡◌, true, false, some, exists_where, select_one, arith, Option-cases,
  Bool-cases, inl, inr, exists_of_select,
}
use cyber_lab_backend.Schema.{in_array, InstanceStatus, Database, Instance, destroy}
use cyber_lab_backend.Intents.{
  active_statuses, DestroyIntent, has_id, owned_by, destroy_operation, stopping_rows,
  terminal_statuses, used_key, destroy_instance_intent, destroy_new, destroy_row, find_operation,
}
use cyber_lab_backend.Validity.{WithinLimit, IsValid, HoldsInstances, HoldsOperations}
use cyber_lab_backend.Validity.Queries.{found_only, found_by_id, owned_narrow, updated_by_id}
use cyber_lab_backend.Validity.Updates.{
  Keeps, KeepsAll, limits_kept, update-HoldsInstances, update-HoldsOperations,
  insert-HoldsOperations,
}
use cyber_lab_backend.Intents.Commits.{FreshOperation, Commits, unused_of_none}

-- A status is active or terminal.
active_of_not_terminal :
    (s : InstanceStatus) → in_array s terminal_statuses ≡ false → in_array s active_statuses ≡ true
active_of_not_terminal s h = ground arith

module _ (operation_id : ℕ) (input : DestroyIntent) (db : Database) (v : IsValid db)
    (new_operation_id : FreshOperation operation_id db) where
  -- The rows after the branch on `terminal`, which hold the row that the branch returns.
  stopped_rows-Holds :
      (current : Instance)
      → select_one (owned_by input.user_id input.instance_id) db.instances ≡ some current
      → let rows = stopping_rows input current db.instances in
        HoldsInstances rows
        × HoldsOperations rows db.instance_operations
        × ((r : Instance) × (select_one (has_id current.id) rows ≡ some r))
  stopped_rows-Holds current e = elim (Bool-cases (in_array current.status terminal_statuses)) [
    | inl terminal ↦ rw terminal (v.of_instances, v.of_operations, (current, found))
    | inr live ↦ rw live (
      update-HoldsInstances (has_id current.id) f db.instances (keeps live) limits v.of_instances,
      update-HoldsOperations (has_id current.id) f db.instances (keeps live) db.instance_operations
          v.of_operations,
      (f current, updated_by_id db.instances f current (λ y. refl) found),
    )
  ]
    where
      narrow :
          (y : Instance)
          → owned_by input.user_id input.instance_id y ≡ true
          → has_id current.id y ≡ true
      narrow = owned_narrow db.instances input.user_id input.instance_id current e

      found : select_one (has_id current.id) db.instances ≡ some current
      found = found_by_id v.of_instances _ current narrow e

      f : Instance → Instance
      f r = record r { status = InstanceStatus.stopping; updated_at = input.now }

      keeps :
          in_array current.status terminal_statuses ≡ false
          → KeepsAll (has_id current.id) f db.instances
      keeps live =
          All-map (λ y. has_id current.id y ≡ true → y ≡ current)
            (λ r. has_id current.id r ≡ true → Keeps r (f r)) db.instances
            (λ r same h. record {
              id = refl;
              user = refl;
              wakes_none = λ a. rw (same h) (active_of_not_terminal current.status live);
            })
            (found_only v.of_instances _ current narrow e)

      limits : All (λ r. has_id current.id r ≡ true → WithinLimit (f r)) db.instances
      limits = limits_kept (has_id current.id) f db.instances (λ r w. w) v.of_instances

  destroy_row-IsValid :
      (current : Instance)
      → select_one (owned_by input.user_id input.instance_id) db.instances ≡ some current
      → exists_where (used_key input.user_id destroy input.idempotency_key) db.instance_operations
        ≡ false
      → Commits IsValid (destroy_row operation_id input current db)
  unfolding destroy_row
  destroy_row-IsValid current e unused =
      let (vi, vo, (r, found)) = stopped_rows-Holds current e in
      rw (found, destroy_row)
        (record {
          of_instances = vi;
          of_operations =
              insert-HoldsOperations (stopping_rows input current db.instances)
                (destroy_operation operation_id input current) db.instance_operations
                new_operation_id unused
                (exists_of_select (has_id current.id) (stopping_rows input current db.instances) r
                  found)
                vo;
        })

  pub destroy-IsValid : Commits IsValid (destroy_instance_intent operation_id input db)
  unfolding destroy_instance_intent destroy_new
  destroy-IsValid =
      elim (Option-cases (find_operation db input.user_id destroy input.idempotency_key)) [
        | inr ((o, r), e) ↦ rw (e, destroy_instance_intent) v
        | inl e ↦
            rw (e, destroy_instance_intent)
              (elim (Option-cases
                (select_one (owned_by input.user_id input.instance_id) db.instances)) [
                  | inl none_owned ↦ rw (none_owned, destroy_new) v
                  | inr (current, found) ↦
                      rw (found, destroy_new)
                        (destroy_row-IsValid current found (
                          unused_of_none db input.user_id destroy input.idempotency_key
                            v.of_operations e))
                ])
      ]
