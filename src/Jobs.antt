-- ===== src/Jobs.antt =====
-- src/db/lifecycle-job-repository.ts and src/queue/contracts.ts: the durable queue of operations.
-- A method is one transaction; `none` is a thrown `Error`.
pub mod Maintenance
pub mod Keeping
pub mod Recording
pub mod Ordering
pub mod Advancing
use cyber_lab_backend.Prelude.{
  ℕ, ◌+◌, Bool, true, false, ◌&&◌, ◌||◌, ◌==◌, leb, ltb, if◌then◌else◌, or_else, Option, none, some,
  String, List, [], ◌∷◌, take, select_one, select_where, update_where, exists_where, map,
}
use cyber_lab_backend.Schema.{
  Database, Instance, Operation, InstanceStatus, OperationType, OperationStatus, spawn, in_array,
  operation_status_eq, type_eq,
}
use cyber_lab_backend.Schema
use cyber_lab_backend.Intents.{Transaction, has_id, has_operation_id}

abbrev pub operation_in : OperationStatus → List OperationStatus → Bool
operation_in s statuses = exists_where (operation_status_eq s) statuses

-- The instance of a claimed operation.
pub record ClaimedInstance : Type 0 where
  pub id : ℕ
  pub user_id : ℕ
  pub challenge_id : ℕ
  pub status : InstanceStatus
  pub node_id : Option ℕ
  pub route_key : Option ℕ
  pub container_id : Option ℕ
  pub network_id : Option ℕ
  pub expires_at : ℕ
  pub absolute_expires_at : ℕ

pub record ClaimedLifecycleOperation : Type 0 where
  pub id : ℕ
  pub type : OperationType
  pub attempts : ℕ
  pub instance : ClaimedInstance

abbrev pub claimed_operation : Operation → Instance → ClaimedLifecycleOperation
claimed_operation o r = record {
  id = o.id;
  type = o.type;
  attempts = o.attempts;
  instance = record {
    id = r.id;
    user_id = r.user_id;
    challenge_id = r.challenge_id;
    status = r.status;
    node_id = r.node_id;
    route_key = r.route_key;
    container_id = r.container_id;
    network_id = r.network_id;
    expires_at = r.expires_at;
    absolute_expires_at = r.absolute_expires_at;
  };
}

abbrev pub stale : ℕ → Operation → Bool
stale stale_before o =
    operation_status_eq o.status OperationStatus.running && ltb o.updated_at stale_before

-- `now` is the method's own reading of the clock.
unfoldable pub recover_stale_operations : (stale_before now : ℕ) → Database → Database
recover_stale_operations stale_before now db = record db {
  instance_operations =
      update_where (stale stale_before)
        (λ o. record o { status = OperationStatus.pending; updated_at = now })
        db.instance_operations;
}

-- `order by created_at`
pub insert_by_creation : Operation → List Operation → List Operation
insert_by_creation o [] = o ∷ []
insert_by_creation o (p ∷ rest) =
    let later = insert_by_creation o rest in
    if leb o.created_at p.created_at then o ∷ p ∷ rest else p ∷ later

unfoldable pub order_by_creation : List Operation → List Operation
unfolding insert_by_creation
order_by_creation [] = []
order_by_creation (o ∷ rest) = insert_by_creation o (order_by_creation rest)

abbrev pub is_pending : Operation → Bool
is_pending o = operation_status_eq o.status OperationStatus.pending

unfoldable pub list_pending_operations : (limit : ℕ) → Database → List (ℕ × OperationType)
unfolding order_by_creation
list_pending_operations limit db =
    map (λ o. (o.id, o.type))
      (take limit (order_by_creation (select_where is_pending db.instance_operations)))

abbrev pub pending_with : ℕ → Operation → Bool
pending_with id o = has_operation_id id o && is_pending o

unfoldable pub mark_queued : (operation_id now : ℕ) → Database → Database
mark_queued operation_id now db = record db {
  instance_operations =
      update_where (pending_with operation_id)
        (λ o. record o { status = OperationStatus.queued; updated_at = now })
        db.instance_operations;
}

abbrev pub claimable : ℕ → Operation → Bool
claimable id o =
    has_operation_id id o
    && operation_in o.status
        (OperationStatus.pending ∷ OperationStatus.queued ∷ OperationStatus.running ∷ [])

abbrev pub claimed_row : ℕ → Operation → Operation
claimed_row now o = record o {
  status = OperationStatus.running;
  attempts = o.attempts + 1;
  started_at = some (or_else o.started_at now);
  updated_at = now;
}

abbrev joined_claim : List Operation → Database → ℕ → Option ClaimedLifecycleOperation
joined_claim rows db operation_id = elim (select_one (has_operation_id operation_id) rows) [
  | none ↦ none
  | some o ↦ elim (select_one (has_id o.instance_id) db.instances) [
    | none ↦ none
    | some r ↦ some (claimed_operation o r)
  ]
]

abbrev returning_claim :
    Database → Option ClaimedLifecycleOperation → Transaction (Option ClaimedLifecycleOperation)
returning_claim db none = none
returning_claim db (some c) = some (db, some c)

-- Null if no row was updated; a claimed operation without its instance throws.
pub claim_operation :
    (operation_id now : ℕ) → Database → Transaction (Option ClaimedLifecycleOperation)
claim_operation operation_id now db =
    let rows = update_where (claimable operation_id) (claimed_row now) db.instance_operations in
    if exists_where (claimable operation_id) db.instance_operations
    then returning_claim (record db { instance_operations = rows })
        (joined_claim rows db operation_id)
    else some (db, none)

abbrev pub running_with : ℕ → Operation → Bool
running_with id o = has_operation_id id o && operation_status_eq o.status OperationStatus.running

pub mark_succeeded : (operation_id now : ℕ) → Database → Database
mark_succeeded operation_id now db = record db {
  instance_operations =
      update_where (running_with operation_id)
        (λ o. record o {
          status = OperationStatus.succeeded;
          updated_at = now;
          completed_at = some now;
          failure_code = none;
        })
        db.instance_operations;
}

abbrev pub unspawned : ℕ → Instance → Bool
unspawned id r =
    has_id id r && in_array r.status (InstanceStatus.pending ∷ InstanceStatus.provisioning ∷ [])

-- The instance of a spawn that has failed for good fails with it.
abbrev fail_instance : Option Operation → String → ℕ → List Instance → List Instance
fail_instance none failure_code now rows = rows
fail_instance (some o) failure_code now rows =
    if type_eq o.type spawn
    then update_where (unspawned o.instance_id)
        (λ r. record r {
          status = InstanceStatus.failed;
          failure_code = some failure_code;
          stopped_at = some now;
          updated_at = now;
        })
        rows
    else rows

pub mark_failed : (operation_id : ℕ) → String → (now : ℕ) → Database → Database
mark_failed operation_id failure_code now db = record db {
  instances =
      fail_instance (select_one (running_with operation_id) db.instance_operations) failure_code now
        db.instances;
  instance_operations =
      update_where (running_with operation_id)
        (λ o. record o {
          status = OperationStatus.failed;
          updated_at = now;
          completed_at = some now;
          failure_code = some failure_code;
        })
        db.instance_operations;
}
