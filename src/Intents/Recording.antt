-- ===== src/Intents/Recording.antt =====
-- What an intent does to the table of operations: nothing, or one new row.
use cyber_lab_backend.Prelude.{
  update_where, ℕ, ◌≡◌, ◌⊎◌, refl, ◌&&◌, ltb, leb, Option, none, some, ◌∷◌, select_one,
  exists_where, Option-cases, Bool-cases, inl, inr,
}
use cyber_lab_backend.Schema.{
  Database, Instance, InstanceStatus, Operation, spawn, extend, destroy, status_eq,
}
use cyber_lab_backend.Intents.{
  CreateIntent, ExtendIntent, DestroyIntent, MutationResult, has_id, owned_by, active_for,
  startable, next_expiry, stopping_rows, find_operation, create_new, create_instance_intent,
  extend_row, extend_checked, extend_new, extend_instance_intent, destroy_row, destroy_new,
  destroy_instance_intent, pending_operation, destroy_operation,
}

abbrev pub Appends : ℕ → Database → Database → Type 0
Appends id db next =
    (next.instance_operations ≡ db.instance_operations)
    ⊎ ((n : Operation) × (n.id ≡ id) × (next.instance_operations ≡ n ∷ db.instance_operations))

-- A transaction that may throw.
abbrev pub AppendsIf : ℕ → Database → Option (Database × MutationResult) → Type 0
AppendsIf id db none = Unit {0}
AppendsIf id db (some (next, result)) = Appends id db next

module _ (instance_id operation_id : ℕ) (input : CreateIntent) (db : Database) where
  create_new-Appends : AppendsIf operation_id db (create_new instance_id operation_id input db)
  unfolding create_new
  create_new-Appends =
      elim (Option-cases (select_one (startable input.challenge_id) db.challenges)) [
        | inl e ↦ rw (e, create_new) (inl refl)
        | inr (c, e) ↦ elim (Bool-cases (exists_where (active_for input.user_id) db.instances)) [
          | inl busy ↦ rw (e, create_new, busy) (inl refl)
          | inr idle ↦
              rw (e, create_new, idle)
                (inr (
                  pending_operation operation_id instance_id input.user_id spawn
                      input.idempotency_key input.request_hash input.now,
                  refl,
                  refl,
                ))
        ]
      ]

  pub create-Appends :
      AppendsIf operation_id db (create_instance_intent instance_id operation_id input db)
  unfolding create_instance_intent
  create-Appends =
      elim (Option-cases (find_operation db input.user_id spawn input.idempotency_key)) [
        | inl e ↦ rw (e, create_instance_intent) create_new-Appends
        | inr ((o, r), e) ↦ rw (e, create_instance_intent) (inl refl)
      ]

module _ (operation_id : ℕ) (input : ExtendIntent) (db : Database) where
  extend_row-Appends :
      (current : Instance) → AppendsIf operation_id db (extend_row operation_id input current db)
  unfolding extend_row
  extend_row-Appends current =
      elim (Option-cases (
        select_one (has_id current.id) (
          update_where (has_id current.id)
            (λ r. record r {
              expires_at = next_expiry current input.extension_ms;
              updated_at = input.now;
            })
            db.instances))) [
              | inl e ↦ rw (e, extend_row) tt
              | inr (r, e) ↦
                  rw (e, extend_row)
                    (inr (
                      pending_operation operation_id current.id input.user_id extend
                          input.idempotency_key input.request_hash input.now,
                      refl,
                      refl,
                    ))
            ]

  extend_checked-Appends :
      (current : Instance)
      → AppendsIf operation_id db (extend_checked operation_id input current db)
  unfolding extend_checked
  extend_checked-Appends current =
      elim (Bool-cases
        (status_eq current.status InstanceStatus.running && ltb input.now current.expires_at)) [
          | inl live ↦
              elim (Bool-cases (leb (next_expiry current input.extension_ms) current.expires_at)) [
                | inl over ↦ rw (live, over) (inl refl)
                | inr room ↦ rw (live, room) (extend_row-Appends current)
              ]
          | inr dead ↦ rw dead (inl refl)
        ]

  pub extend-Appends : AppendsIf operation_id db (extend_instance_intent operation_id input db)
  unfolding extend_instance_intent extend_new
  extend-Appends =
      elim (Option-cases (find_operation db input.user_id extend input.idempotency_key)) [
        | inr ((o, r), e) ↦ rw (e, extend_instance_intent) (inl refl)
        | inl e ↦
            rw (e, extend_instance_intent)
              (elim (Option-cases
                (select_one (owned_by input.user_id input.instance_id) db.instances)) [
                  | inl none_owned ↦ rw (none_owned, extend_new) (inl refl)
                  | inr (current, found) ↦ rw (found, extend_new) (extend_checked-Appends current)
                ])
      ]

module _ (operation_id : ℕ) (input : DestroyIntent) (db : Database) where
  destroy_row-Appends :
      (current : Instance) → AppendsIf operation_id db (destroy_row operation_id input current db)
  unfolding destroy_row
  destroy_row-Appends current =
      elim (Option-cases
        (select_one (has_id current.id) (stopping_rows input current db.instances))) [
          | inl e ↦ rw (e, destroy_row) tt
          | inr (r, e) ↦
              rw (e, destroy_row) (inr (destroy_operation operation_id input current, refl, refl))
        ]

  pub destroy-Appends : AppendsIf operation_id db (destroy_instance_intent operation_id input db)
  unfolding destroy_instance_intent destroy_new
  destroy-Appends =
      elim (Option-cases (find_operation db input.user_id destroy input.idempotency_key)) [
        | inr ((o, r), e) ↦ rw (e, destroy_instance_intent) (inl refl)
        | inl e ↦
            rw (e, destroy_instance_intent)
              (elim (Option-cases
                (select_one (owned_by input.user_id input.instance_id) db.instances)) [
                  | inl none_owned ↦ rw (none_owned, destroy_new) (inl refl)
                  | inr (current, found) ↦ rw (found, destroy_new) (destroy_row-Appends current)
                ])
      ]
