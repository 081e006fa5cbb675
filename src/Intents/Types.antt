-- ===== src/Intents/Types.antt =====
-- The types of src/services/instance-lifecycle.ts that the repository returns.
use cyber_lab_backend.Prelude.{ℕ, Bool, Option, String}
use cyber_lab_backend.Schema.{Instance, InstanceStatus}

pub record InstanceRecord : Type 0 where
  pub id : ℕ
  pub user_id : ℕ
  pub challenge_id : ℕ
  pub status : InstanceStatus
  pub route_key : Option ℕ
  pub created_at : ℕ
  pub started_at : Option ℕ
  pub expires_at : ℕ
  pub absolute_expires_at : ℕ
  pub stopped_at : Option ℕ
  pub failure_code : Option String

abbrev pub instance_selection : Instance → InstanceRecord
instance_selection r = record {
  id = r.id;
  user_id = r.user_id;
  challenge_id = r.challenge_id;
  status = r.status;
  route_key = r.route_key;
  created_at = r.created_at;
  started_at = r.started_at;
  expires_at = r.expires_at;
  absolute_expires_at = r.absolute_expires_at;
  stopped_at = r.stopped_at;
  failure_code = r.failure_code;
}

pub record InstanceMutation : Type 0 where
  pub instance : InstanceRecord
  pub operation_id : ℕ
  pub replayed : Bool

pub data MutationFailure : Type 0 where
  challenge_not_found instance_not_found active_instance_exists : MutationFailure
  invalid_state lifetime_limit idempotency_conflict : MutationFailure

pub data MutationResult : Type 0 where
  accepted : InstanceMutation → MutationResult
  refused : MutationFailure → MutationResult
