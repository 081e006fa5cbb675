-- ===== src/Intents/Creating.antt =====
-- `createInstanceIntent` keeps the lifecycle tables sound.
use cyber_lab_backend.Prelude.{
  ℕ, ◌≤◌, ==_refl, ◌≡◌, false, ◌∷◌, exists_where, select_one, Option-cases, Bool-cases, inl, inr,
}
use cyber_lab_backend.Schema.{Database, Instance, Operation, spawn}
use cyber_lab_backend.Intents.{
  CreateIntent, create_instance_intent, create_new, startable, active_for, used_key, new_instance,
  pending_operation, find_operation,
}
use cyber_lab_backend.Validity.{IsValid}
use cyber_lab_backend.Validity.Updates.{
  insert-HoldsInstances, insert-references, insert-HoldsOperations,
}
use cyber_lab_backend.Intents.Commits.{FreshOperation, FreshInstance, Commits, unused_of_none}

module _ (instance_id operation_id : ℕ) (input : CreateIntent) (db : Database) (v : IsValid db)
    (new_instance_id : FreshInstance instance_id db)
    (new_operation_id : FreshOperation operation_id db)
    (limit : input.expires_at ≤ input.absolute_expires_at) where
  create_new-IsValid :
      exists_where (used_key input.user_id spawn input.idempotency_key) db.instance_operations
        ≡ false
      → Commits IsValid (create_new instance_id operation_id input db)
  unfolding create_new
  create_new-IsValid unused =
      elim (Option-cases (select_one (startable input.challenge_id) db.challenges)) [
        | inl e ↦ rw (e, create_new) v
        | inr (c, e) ↦ elim (Bool-cases (exists_where (active_for input.user_id) db.instances)) [
          | inl busy ↦ rw (e, create_new, busy) v
          | inr idle ↦
              rw (e, create_new, idle)
                (record {
                  of_instances =
                      insert-HoldsInstances row db.instances new_instance_id idle limit
                        v.of_instances;
                  of_operations =
                      insert-HoldsOperations (row ∷ db.instances) operation db.instance_operations
                        new_operation_id unused (rw (==_refl instance_id))
                        (record {
                          one_id = v.of_operations.one_id;
                          one_key = v.of_operations.one_key;
                          references =
                              insert-references row db.instances db.instance_operations
                                v.of_operations.references;
                        });
                })
        ]
      ]
    where
      row : Instance
      row = new_instance instance_id input

      operation : Operation
      operation =
          pending_operation operation_id instance_id input.user_id spawn input.idempotency_key
            input.request_hash input.now

  pub create-IsValid : Commits IsValid (create_instance_intent instance_id operation_id input db)
  unfolding create_instance_intent
  create-IsValid =
      elim (Option-cases (find_operation db input.user_id spawn input.idempotency_key)) [
        | inl e ↦
            rw (e, create_instance_intent)
              (create_new-IsValid
                (unused_of_none db input.user_id spawn input.idempotency_key v.of_operations e))
        | inr ((o, r), e) ↦ rw (e, create_instance_intent) v
      ]
