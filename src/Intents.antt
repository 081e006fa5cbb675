-- ===== src/Intents.antt =====
-- src/db/instance-lifecycle-repository.ts, and the types that it takes from
-- src/services/instance-lifecycle.ts. Each method is one transaction, from the state of the tables
-- to the next. The ids that the database makes up for new rows are arguments. `none` is a thrown
-- `Error`, on which the transaction rolls back. The advisory locks make the transactions of a key,
-- a user or an instance follow one another, so none of them has steps of its own here.
pub mod Commits
pub mod Creating
pub mod Extending
pub mod Destroying
pub mod Advancing
pub mod Replaying
pub mod Recording
mod Types
mod Tables
pub use Types.*
unfoldable pub use Tables.*
use cyber_lab_backend.Prelude.{
  ℕ, ◌+◌, min, Bool, true, false, ◌&&◌, ◌==◌, leb, ltb, if◌then◌else◌, Option, none, some, String,
  List, [], ◌∷◌, select_one, update_where, exists_where,
}
use cyber_lab_backend.Schema.{
  Database, Instance, Operation, Challenge, OperationType, InstanceStatus, IdempotencyKey, spawn,
  extend, destroy, in_array, status_eq, is_web,
}
use cyber_lab_backend.Schema

pub record CreateIntent : Type 0 where
  pub user_id : ℕ
  pub challenge_id : ℕ
  pub idempotency_key : IdempotencyKey
  pub request_hash : ℕ
  pub now : ℕ
  pub expires_at : ℕ
  pub absolute_expires_at : ℕ
  pub correlation_id : Option String

pub record ExtendIntent : Type 0 where
  pub user_id : ℕ
  pub instance_id : ℕ
  pub idempotency_key : IdempotencyKey
  pub request_hash : ℕ
  pub now : ℕ
  pub extension_ms : ℕ
  pub correlation_id : Option String

pub record DestroyIntent : Type 0 where
  pub user_id : ℕ
  pub instance_id : ℕ
  pub idempotency_key : IdempotencyKey
  pub request_hash : ℕ
  pub now : ℕ
  pub correlation_id : Option String

-- The three outcomes of a transaction: it throws, or it returns with the tables that it leaves.
abbrev pub Transaction : Type 0 → Type 0
Transaction A = Option (Database × A)

abbrev pub startable : ℕ → Challenge → Bool
startable id c = (c.id == id) && c.published && is_web c.kind

abbrev new_instance : ℕ → CreateIntent → Instance
new_instance id input = record {
  id = id;
  user_id = input.user_id;
  challenge_id = input.challenge_id;
  node_id = none;
  status = InstanceStatus.pending;
  route_key = none;
  container_id = none;
  network_id = none;
  failure_code = none;
  created_at = input.now;
  updated_at = input.now;
  started_at = none;
  expires_at = input.expires_at;
  absolute_expires_at = input.absolute_expires_at;
  stopped_at = none;
}

-- The branch of a key that was not used before.
create_new : (instance_id operation_id : ℕ) → CreateIntent → Database → Transaction MutationResult
create_new instance_id operation_id input db =
    elim (select_one (startable input.challenge_id) db.challenges) [
      | none ↦ some (db, refused challenge_not_found)
      | some challenge ↦
          if exists_where (active_for input.user_id) db.instances
          then some (db, refused active_instance_exists)
          else some (
            append_audit input.user_id input.correlation_id "instance.spawn.requested" instance_id (
                insert_operation
                  (pending_operation operation_id instance_id input.user_id spawn
                    input.idempotency_key input.request_hash input.now)
                  (record db { instances = new_instance instance_id input ∷ db.instances })),
            accepted_as (new_instance instance_id input) operation_id false,
          )
    ]

unfoldable pub create_instance_intent :
    (instance_id operation_id : ℕ) → CreateIntent → Database → Transaction MutationResult
unfolding create_new
create_instance_intent instance_id operation_id input db =
    elim (find_operation db input.user_id spawn input.idempotency_key) [
      | some (operation, instance) ↦ some (db, replay operation instance input.request_hash)
      | none ↦ create_new instance_id operation_id input db
    ]

abbrev next_expiry : Instance → ℕ → ℕ
next_expiry current extension_ms =
    min (current.expires_at + extension_ms) current.absolute_expires_at

-- The update of the expiry, and what it returns under the instance's id.
extend_row : (operation_id : ℕ) → ExtendIntent → Instance → Database → Transaction MutationResult
extend_row operation_id input current db =
    let rows =
      update_where (has_id current.id)
        (λ r. record r {
          expires_at = next_expiry current input.extension_ms;
          updated_at = input.now;
        })
        db.instances in
    elim (select_one (has_id current.id) rows) [
      | none ↦ none
      | some instance ↦ some (
        append_audit input.user_id input.correlation_id "instance.extend.requested" current.id (
            insert_operation
              (pending_operation operation_id current.id input.user_id extend input.idempotency_key
                input.request_hash input.now)
              (record db { instances = rows })),
        accepted_as instance operation_id false,
      )
    ]

extend_checked :
    (operation_id : ℕ) → ExtendIntent → Instance → Database → Transaction MutationResult
unfolding extend_row
extend_checked operation_id input current db =
    if status_eq current.status InstanceStatus.running && ltb input.now current.expires_at
    then (if leb (next_expiry current input.extension_ms) current.expires_at
        then some (db, refused lifetime_limit)
        else extend_row operation_id input current db)
    else some (db, refused invalid_state)

extend_new : (operation_id : ℕ) → ExtendIntent → Database → Transaction MutationResult
unfolding extend_checked
extend_new operation_id input db =
    elim (select_one (owned_by input.user_id input.instance_id) db.instances) [
      | none ↦ some (db, refused instance_not_found)
      | some current ↦ extend_checked operation_id input current db
    ]

unfoldable pub extend_instance_intent :
    (operation_id : ℕ) → ExtendIntent → Database → Transaction MutationResult
unfolding extend_new
extend_instance_intent operation_id input db =
    elim (find_operation db input.user_id extend input.idempotency_key) [
      | some (operation, instance) ↦ some (db, replay operation instance input.request_hash)
      | none ↦ extend_new operation_id input db
    ]

-- A terminal instance stays as it is, and its operation has succeeded at once.
abbrev stopping_rows : DestroyIntent → Instance → List Instance → List Instance
stopping_rows input current rows =
    if in_array current.status terminal_statuses
    then rows
    else update_where (has_id current.id)
        (λ r. record r { status = InstanceStatus.stopping; updated_at = input.now }) rows

abbrev destroy_operation : (operation_id : ℕ) → DestroyIntent → Instance → Operation
destroy_operation operation_id input current =
    record (pending_operation operation_id current.id input.user_id destroy input.idempotency_key
      input.request_hash input.now) {
        status =
            if in_array current.status terminal_statuses
            then Schema.OperationStatus.succeeded
            else Schema.OperationStatus.pending;
        completed_at = if in_array current.status terminal_statuses then some input.now else none;
      }

destroy_row : (operation_id : ℕ) → DestroyIntent → Instance → Database → Transaction MutationResult
destroy_row operation_id input current db =
    elim (select_one (has_id current.id) (stopping_rows input current db.instances)) [
      | none ↦ none
      | some instance ↦ some (
        append_audit input.user_id input.correlation_id "instance.destroy.requested" current.id (
            insert_operation (destroy_operation operation_id input current)
              (record db { instances = stopping_rows input current db.instances })),
        accepted_as instance operation_id false,
      )
    ]

destroy_new : (operation_id : ℕ) → DestroyIntent → Database → Transaction MutationResult
unfolding destroy_row
destroy_new operation_id input db =
    elim (select_one (owned_by input.user_id input.instance_id) db.instances) [
      | none ↦ some (db, refused instance_not_found)
      | some current ↦ destroy_row operation_id input current db
    ]

pub destroy_instance_intent :
    (operation_id : ℕ) → DestroyIntent → Database → Transaction MutationResult
unfolding destroy_new
destroy_instance_intent operation_id input db =
    elim (find_operation db input.user_id destroy input.idempotency_key) [
      | some (operation, instance) ↦ some (db, replay operation instance input.request_hash)
      | none ↦ destroy_new operation_id input db
    ]
