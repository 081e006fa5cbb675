-- ===== src/Jobs/Maintenance.antt =====
-- `createMaintenanceIntents` of src/db/lifecycle-job-repository.ts. `reap_id` and `reconcile_id` are
-- the ids that the database makes up for the operations of an instance.
pub mod Keeping
use cyber_lab_backend.Prelude.{
  ℕ, Bool, true, false, not, ◌&&◌, ◌||◌, ◌==◌, leb, if◌then◌else◌, Option, none, some, List, [],
  ◌∷◌, select_where, update_where, exists_where,
}
use cyber_lab_backend.Schema.{
  Database, Instance, Operation, InstanceStatus, OperationType, OperationStatus, spawn, reap,
  reconcile, reap_key, reconcile_key, in_array, type_eq,
}
use cyber_lab_backend.Hashing.{HashedText, key_text, bucket_text}
use cyber_lab_backend.Intents.{
  has_id, has_operation_id, used_key, active_statuses, pending_operation, insert_operation,
}
use cyber_lab_backend.Jobs.{operation_in}

-- `insert … on conflict do nothing`, on either unique index.
unfoldable pub insert_or_ignore : Operation → Database → Database
insert_or_ignore o db =
    if exists_where (has_operation_id o.id) db.instance_operations
      || exists_where (used_key o.user_id o.type o.idempotency_key) db.instance_operations
    then db
    else insert_operation o db

abbrev pub reapable_statuses : List InstanceStatus
reapable_statuses =
    InstanceStatus.pending ∷ InstanceStatus.provisioning ∷ InstanceStatus.running ∷ []

abbrev pub run_out : ℕ → Instance → Bool
run_out now r = in_array r.status reapable_statuses && leb r.expires_at now

abbrev pub reapable : ℕ → Instance → Bool
reapable id r = has_id id r && in_array r.status reapable_statuses

abbrev pub stopping_row : ℕ → Instance → Instance
stopping_row now r = record r { status = InstanceStatus.stopping; updated_at = now }

-- A spawn of the instance that is not finished.
abbrev pub open_spawn : ℕ → Operation → Bool
open_spawn instance_id o =
    (o.instance_id == instance_id)
    && type_eq o.type spawn
    && operation_in o.status
        (OperationStatus.pending ∷ OperationStatus.queued ∷ OperationStatus.running ∷ [])

abbrev pub reconcilable : List Operation → Instance → Bool
reconcilable operations r =
    in_array r.status active_statuses && not (exists_where (open_spawn r.id) operations)

module _ (sha256 : HashedText → ℕ) (reap_id reconcile_id : ℕ → ℕ) (now bucket : ℕ) where
  abbrev pub reap_operation : Instance → Operation
  reap_operation r =
      let key = reap_key r.id r.expires_at in
      pending_operation (reap_id r.id) r.id r.user_id reap key (sha256 (key_text key)) now

  unfoldable pub reap_one : Instance → Database → Database
  unfolding insert_or_ignore
  reap_one r db =
      let inserted = insert_or_ignore (reap_operation r) db in
      record inserted {
        instances = update_where (reapable r.id) (stopping_row now) inserted.instances;
      }

  unfoldable pub reap_all : List Instance → Database → Database
  unfolding reap_one
  reap_all [] db = db
  reap_all (r ∷ expired) db = reap_all expired (reap_one r db)

  abbrev pub reconcile_operation : Instance → Operation
  reconcile_operation r =
      pending_operation (reconcile_id r.id) r.id r.user_id reconcile (reconcile_key bucket)
        (sha256 (bucket_text r.id bucket)) now

  unfoldable pub reconcile_all : List Instance → Database → Database
  unfolding insert_or_ignore
  reconcile_all [] db = db
  reconcile_all (r ∷ active) db = reconcile_all active (insert_or_ignore (reconcile_operation r) db)

  unfoldable pub create_maintenance_intents : Database → Database
  unfolding reap_all reconcile_all
  create_maintenance_intents db =
      let reaped = reap_all (select_where (run_out now) db.instances) db in
      reconcile_all (select_where (reconcilable reaped.instance_operations) reaped.instances) reaped
