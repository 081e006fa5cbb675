-- ===== src/Intents/Replaying.antt =====
-- What a retried request is answered.
use cyber_lab_backend.Prelude.{
  ℕ, ◌≡◌, refl, true, false, some, List, ◌∷◌, select_one, exists_where, arith, Option-cases,
  Bool-cases, inl, inr, ==_refl, ◌==◌, if◌then◌else◌,
}
use cyber_lab_backend.Schema.{
  Database, Instance, Operation, IdempotencyKey, spawn, key_eq, client, reap_key, reconcile_key,
}
use cyber_lab_backend.Intents.{
  CreateIntent, InstanceMutation, accepted, refused, idempotency_conflict, has_id, used_key,
  active_for, startable, new_instance, create_instance_intent, create_new, find_operation,
  accepted_as, pending_operation,
}

key_eq_refl : (k : IdempotencyKey) → key_eq k k ≡ true
key_eq_refl (client a) = ==_refl a
key_eq_refl (reap_key i a) = rw (==_refl i, ==_refl a)
key_eq_refl (reconcile_key b) = ==_refl b

used_key_self : (o : Operation) → used_key o.user_id o.type o.idempotency_key o ≡ true
used_key_self o = rw (==_refl o.user_id, key_eq_refl o.idempotency_key) (ground arith)

find_operation-head :
    (db : Database) (o : Operation) (r : Instance) (operations : List Operation)
    (rows : List Instance)
    → db.instance_operations ≡ o ∷ operations
    → db.instances ≡ r ∷ rows
    → o.instance_id ≡ r.id
    → find_operation db o.user_id o.type o.idempotency_key ≡ some (o, r)
unfolding find_operation
find_operation-head db o r operations rows at_head row_at_head same =
    ground (arith, used_key_self o, ==_refl r.id)

-- What a creation that was carried out has left under its key.
abbrev Left : (instance_id operation_id : ℕ) → CreateIntent → Database → InstanceMutation → Type 0
Left instance_id operation_id input next m =
    (find_operation next input.user_id spawn input.idempotency_key
      ≡ some (
        pending_operation operation_id instance_id input.user_id spawn input.idempotency_key
            input.request_hash input.now,
        new_instance instance_id input,
      ))
    × (accepted m ≡ accepted_as (new_instance instance_id input) operation_id false)
    × (select_one (has_id instance_id) next.instances ≡ some (new_instance instance_id input))

module _ (instance_id operation_id : ℕ) (input : CreateIntent) (db next : Database)
    (m : InstanceMutation) where
  created_new :
      create_new instance_id operation_id input db ≡ some (next, accepted m)
      → Left instance_id operation_id input next m
  unfolding create_new find_operation
  created_new e = elim (Option-cases (select_one (startable input.challenge_id) db.challenges)) [
    | inl missing ↦ absurd (ground (arith, missing))
    | inr (c, found) ↦ elim (Bool-cases (exists_where (active_for input.user_id) db.instances)) [
      | inl busy ↦ absurd (ground (arith, found, busy))
      | inr idle ↦
          let rows : next.instances ≡ new_instance instance_id input ∷ db.instances =
            ground (arith, found, idle) in
          let operations : next.instance_operations
              ≡ pending_operation operation_id instance_id input.user_id spawn input.idempotency_key
                  input.request_hash input.now
                ∷ db.instance_operations =
            ground (arith, found, idle) in
          (
            find_operation-head next
                (pending_operation operation_id instance_id input.user_id spawn
                  input.idempotency_key input.request_hash input.now)
                (new_instance instance_id input) db.instance_operations db.instances operations rows
                refl,
            ground (arith, found, idle),
            rw (rows, ==_refl instance_id),
          )
    ]
  ]

  pub created_operation :
      create_instance_intent instance_id operation_id input db ≡ some (next, accepted m)
      → m.replayed ≡ false
      → Left instance_id operation_id input next m
  unfolding create_instance_intent
  created_operation e fresh =
      elim (Option-cases (find_operation db input.user_id spawn input.idempotency_key)) [
        | inl unused ↦ created_new (ground (arith, unused))
        | inr ((o, r), used) ↦ absurd (ground (arith, used))
      ]

-- After a creation that was carried out, a creation by the same user under the same idempotency key
-- leaves the tables as they are: with the same request hash it is answered with the first operation
-- and instance, marked as replayed, and with another hash it is refused as an idempotency conflict.
pub create_retried :
    (instance_id operation_id other_instance other_operation : ℕ) (input again : CreateIntent)
    (db next : Database) (m : InstanceMutation)
    → create_instance_intent instance_id operation_id input db ≡ some (next, accepted m)
    → m.replayed ≡ false
    → again.user_id ≡ input.user_id
    → again.idempotency_key ≡ input.idempotency_key
    → create_instance_intent other_instance other_operation again next
      ≡ some (
        next,
        if input.request_hash == again.request_hash
            then accepted (record m { replayed = true })
            else refused idempotency_conflict,
      )
unfolding create_instance_intent
create_retried instance_id operation_id other_instance other_operation input again db next m e fresh
      user key =
    let (found, same, _) = created_operation instance_id operation_id input db next m e fresh in
    rw (user, key, found, create_instance_intent) (ground (arith, same))
