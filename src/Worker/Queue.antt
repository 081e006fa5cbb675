-- ===== src/Worker/Queue.antt =====
-- `LifecycleQueue` of src/queue/lifecycle-queue.ts. BullMQ's `add` is a parameter; a job's data is the
-- id of the operation. What a worker does with a job that is delivered, and with one that failed, are
-- the two functions that the source hands to BullMQ.
use cyber_lab_backend.Prelude.{
  ℕ, ◌-◌, ◌/◌, ltb, or_else, if◌then◌else◌, Option, none, some, List, [], ◌∷◌, length,
}
use cyber_lab_backend.Schema.{OperationType}
use cyber_lab_backend.Hashing.{HashedText}
use cyber_lab_backend.Jobs.{
  ClaimedLifecycleOperation, recover_stale_operations, list_pending_operations, mark_queued,
  claim_operation, mark_succeeded, mark_failed,
}
use cyber_lab_backend.Jobs.Maintenance.{create_maintenance_intents}
use cyber_lab_backend.Actions.{Call, pure, query, write, transact, ignore, ◌>>=◌, ◌>>◌}
use cyber_lab_backend.Worker.{Environment}

abbrev pub default_stale_after_ms : ℕ
default_stale_after_ms = 300000

abbrev pub default_attempts : ℕ
default_attempts = 5

abbrev pub default_limit : ℕ
default_limit = 100

module _ {W : Type 0} (environment : Environment W)
    (add : ℕ → OperationType → Call W (Unit {0})) where
  unfoldable pub enqueue_all : ℕ → List (ℕ × OperationType) → Call W (Unit {0})
  enqueue_all now [] = pure tt
  enqueue_all now ((id, type) ∷ operations) = do
    add id type
    write (mark_queued id now)
    enqueue_all now operations

  -- The pending operations up to the limit, added and marked, and their number.
  unfoldable pub enqueue_pending : (limit now : ℕ) → Call W ℕ
  unfolding enqueue_all
  enqueue_pending limit now = do
    operations ← query (list_pending_operations limit)
    enqueue_all now operations
    pure (length operations)

  unfoldable pub dispatch_pending : ℕ → Call W ℕ
  unfolding enqueue_pending
  dispatch_pending limit = do
    now ← environment.clock
    updated_at ← environment.clock
    write (recover_stale_operations (now - default_stale_after_ms) updated_at)
    enqueue_pending limit now

  -- The bucket of a reconciliation is the minute, `toISOString().slice(0, 16)`. The ids that the
  -- database makes up for the new rows are functions of the row's instance.
  unfoldable pub schedule_maintenance :
      (sha256 : HashedText → ℕ) (reap_id reconcile_id : ℕ → ℕ) → Call W (Unit {0})
  unfolding dispatch_pending
  schedule_maintenance sha256 reap_id reconcile_id = do
    now ← environment.clock
    write (create_maintenance_intents sha256 reap_id reconcile_id now (now / 60000))
    count ← dispatch_pending default_limit
    pure tt

module _ {W : Type 0} (environment : Environment W)
    (handle : ClaimedLifecycleOperation → Call W (Unit {0})) where
  unfoldable pub process_claimed : Option ClaimedLifecycleOperation → Call W (Unit {0})
  process_claimed none = pure tt
  process_claimed (some operation) = do
    handle operation
    now ← environment.clock
    write (mark_succeeded operation.id now)

  unfoldable pub process_job : ℕ → Call W (Unit {0})
  unfolding process_claimed
  process_job operation_id = do
    now ← environment.clock
    operation ← transact (claim_operation operation_id now)
    process_claimed operation

module _ {W : Type 0} (environment : Environment W) where
  -- `attempts` is the job's option, one where it has none.
  unfoldable pub on_failed :
      (operation_id attempts_made : ℕ) (attempts : Option ℕ) → Call W (Unit {0})
  on_failed operation_id attempts_made attempts =
      if ltb attempts_made (or_else attempts 1) then pure tt else (do
        now ← environment.clock
        ignore (write (mark_failed operation_id "execution_failed" now)))
