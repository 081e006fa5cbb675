-- ===== src/Intents/Tables.antt =====
-- The queries and the inserts that the three intents of src/db/instance-lifecycle-repository.ts
-- share, and its two reads.
use cyber_lab_backend.Prelude.{
  ℕ, Bool, true, ◌&&◌, ◌==◌, ltb, if◌then◌else◌, Option, none, some, String, List, [], ◌∷◌,
  select_one,
}
use cyber_lab_backend.Schema.{
  Database, Instance, Operation, OperationType, InstanceStatus, IdempotencyKey, AuditEvent,
  of_instance, in_array, status_eq, type_eq, key_eq,
}
use cyber_lab_backend.Schema
use cyber_lab_backend.Intents.Types.{
  InstanceRecord, instance_selection, MutationResult, accepted, refused, idempotency_conflict,
}

abbrev pub active_statuses : List InstanceStatus
active_statuses =
    InstanceStatus.pending ∷ InstanceStatus.provisioning ∷ InstanceStatus.running
    ∷ InstanceStatus.stopping ∷ []

abbrev pub terminal_statuses : List InstanceStatus
terminal_statuses = InstanceStatus.stopped ∷ InstanceStatus.failed ∷ InstanceStatus.expired ∷ []

abbrev pub has_id : ℕ → Instance → Bool
has_id id r = r.id == id

abbrev pub owned_by : (user_id id : ℕ) → Instance → Bool
owned_by user_id id r = (r.id == id) && (r.user_id == user_id)

abbrev pub active_for : ℕ → Instance → Bool
active_for user_id r = (r.user_id == user_id) && in_array r.status active_statuses

abbrev pub has_operation_id : ℕ → Operation → Bool
has_operation_id id o = o.id == id

abbrev pub used_key : ℕ → OperationType → IdempotencyKey → Operation → Bool
used_key user_id type key o =
    (o.user_id == user_id) && type_eq o.type type && key_eq o.idempotency_key key

abbrev with_instance : List Instance → Operation → Option (Operation × Instance)
with_instance rows o = elim (select_one (has_id o.instance_id) rows) [
  | none ↦ none
  | some r ↦ some (o, r)
]

-- The inner join on the instance; the index on (user, type, key) leaves one operation at most.
unfoldable pub find_operation :
    Database → ℕ → OperationType → IdempotencyKey → Option (Operation × Instance)
find_operation db user_id type key =
    elim (select_one (used_key user_id type key) db.instance_operations) [
      | none ↦ none
      | some o ↦ with_instance db.instances o
    ]

abbrev pub accepted_as : Instance → (operation_id : ℕ) → Bool → MutationResult
accepted_as r operation_id replayed =
    accepted
      (record { instance = instance_selection r; operation_id = operation_id; replayed = replayed })

-- `replay.requestHash === input.requestHash ? accepted(…) : { kind: 'idempotency_conflict' }`
abbrev pub replay : Operation → Instance → ℕ → MutationResult
replay o r request_hash =
    if o.request_hash == request_hash then accepted_as r o.id true else refused idempotency_conflict

abbrev pub pending_operation :
    (id instance_id user_id : ℕ)
    → OperationType
    → IdempotencyKey
    → (request_hash now : ℕ) → Operation
pending_operation id instance_id user_id type key request_hash now = record {
  id = id;
  instance_id = instance_id;
  user_id = user_id;
  type = type;
  status = Schema.OperationStatus.pending;
  idempotency_key = key;
  request_hash = request_hash;
  attempts = 0;
  failure_code = none;
  created_at = now;
  updated_at = now;
  started_at = none;
  completed_at = none;
}

abbrev pub insert_operation : Operation → Database → Database
insert_operation o db = record db { instance_operations = o ∷ db.instance_operations }

abbrev pub append_audit :
    (user_id : ℕ) → Option String → String → (instance_id : ℕ) → Database → Database
append_audit user_id correlation_id event_type instance_id db = record db {
  audit_events =
      record {
        actor_user_id = some user_id;
        target_user_id = some user_id;
        event_type = event_type;
        correlation_id = correlation_id;
        details = of_instance instance_id;
        created_at = none;
      }
      ∷ db.audit_events;
}

unfoldable pub find_owned_instance : Database → (user_id instance_id : ℕ) → Option InstanceRecord
find_owned_instance db user_id instance_id =
    elim (select_one (owned_by user_id instance_id) db.instances) [
      | none ↦ none
      | some r ↦ some (instance_selection r)
    ]

abbrev owned_running : (user_id instance_id now : ℕ) → Instance → Bool
owned_running user_id instance_id now r =
    owned_by user_id instance_id r
    && status_eq r.status InstanceStatus.running
    && ltb now r.expires_at

-- The challenge of the player's instance, while it runs and has not run out.
unfoldable pub find_owned_running_instance : Database → (user_id instance_id now : ℕ) → Option ℕ
find_owned_running_instance db user_id instance_id now =
    elim (select_one (owned_running user_id instance_id now) db.instances) [
      | none ↦ none
      | some r ↦ some r.challenge_id
    ]
