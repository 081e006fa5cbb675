-- ===== src/Schema/Rows.antt =====
-- The rows of the tables of src/db/schema.ts. Columns that no operation reads or writes (a
-- challenge's texts, a profile's bio) are left out.
use cyber_lab_backend.Prelude.{ℕ, Bool, false, Option, String, ◌&&◌, ◌==◌}
use cyber_lab_backend.Schema.Enums.{
  InstanceStatus, OperationType, OperationStatus, AccountRole, AccountStatus, EmailTokenPurpose,
  ChallengeKind, LabNodeStatus,
}

-- `users` joined with `user_profiles`, which has one row for each user.
pub record User : Type 0 where
  pub id : ℕ
  pub email : String
  pub password_hash : ℕ
  pub display_name : String
  pub role : AccountRole
  pub status : AccountStatus
  pub email_verified_at : Option ℕ
  pub updated_at : ℕ

pub record Session : Type 0 where
  pub id : ℕ
  pub user_id : ℕ
  pub token_hash : ℕ
  pub created_at : ℕ
  pub last_seen_at : ℕ
  pub idle_expires_at : ℕ
  pub absolute_expires_at : ℕ
  pub revoked_at : Option ℕ
  pub revocation_reason : Option String

pub record EmailToken : Type 0 where
  pub id : ℕ
  pub user_id : ℕ
  pub purpose : EmailTokenPurpose
  pub token_hash : ℕ
  pub created_at : ℕ
  pub expires_at : ℕ
  pub consumed_at : Option ℕ

pub record Challenge : Type 0 where
  pub id : ℕ
  pub points : ℕ
  pub kind : ChallengeKind
  pub published : Bool

pub record LabNode : Type 0 where
  pub id : ℕ
  pub name : String
  pub status : LabNodeStatus
  pub capacity_slots : ℕ
  pub last_seen_at : Option ℕ
  pub created_at : ℕ
  pub updated_at : ℕ

pub record Instance : Type 0 where
  pub id : ℕ
  pub user_id : ℕ
  pub challenge_id : ℕ
  pub node_id : Option ℕ
  pub status : InstanceStatus
  pub route_key : Option ℕ
  pub container_id : Option ℕ
  pub network_id : Option ℕ
  pub failure_code : Option String
  pub created_at : ℕ
  pub updated_at : ℕ
  pub started_at : Option ℕ
  pub expires_at : ℕ
  pub absolute_expires_at : ℕ
  pub stopped_at : Option ℕ

-- The client's header, or the template strings of the maintenance intents. The templates are kept
-- as terms: UUIDs have a fixed length, so two of them spell one key only if they agree in each part.
pub data IdempotencyKey : Type 0 where
  client : ℕ → IdempotencyKey
  reap_key : (instance_id expires_at : ℕ) → IdempotencyKey
  reconcile_key : (bucket : ℕ) → IdempotencyKey

abbrev pub key_eq : IdempotencyKey → IdempotencyKey → Bool
key_eq (client a) (client b) = a == b
key_eq (reap_key i a) (reap_key j b) = (i == j) && (a == b)
key_eq (reconcile_key a) (reconcile_key b) = a == b
key_eq _ _ = false

pub record Operation : Type 0 where
  pub id : ℕ
  pub instance_id : ℕ
  pub user_id : ℕ
  pub type : OperationType
  pub status : OperationStatus
  pub idempotency_key : IdempotencyKey
  pub request_hash : ℕ
  pub attempts : ℕ
  pub failure_code : Option String
  pub created_at : ℕ
  pub updated_at : ℕ
  pub started_at : Option ℕ
  pub completed_at : Option ℕ

pub record Submission : Type 0 where
  pub id : ℕ
  pub user_id : ℕ
  pub challenge_id : ℕ
  pub instance_id : ℕ
  pub correct : Bool
  pub points_awarded : ℕ
  pub created_at : ℕ

pub record Solve : Type 0 where
  pub id : ℕ
  pub user_id : ℕ
  pub challenge_id : ℕ
  pub first_submission_id : ℕ
  pub points : ℕ
  pub solved_at : ℕ

-- The shapes of the `details` column.
pub data Details : Type 0 where
  no_details : Details
  of_instance : (instance_id : ℕ) → Details
  of_failure : (instance_id : ℕ) (failure_code : String) → Details
  of_submission : (challenge_id instance_id : ℕ) (first_solve : Bool) (points : ℕ) → Details
  of_purpose : EmailTokenPurpose → Details
  of_cleanup : (instance_id node_id : ℕ) (reason : String) → Details

-- `created_at = none` is the column's default, the time of the transaction.
pub record AuditEvent : Type 0 where
  pub actor_user_id : Option ℕ
  pub target_user_id : Option ℕ
  pub event_type : String
  pub correlation_id : Option String
  pub details : Details
  pub created_at : Option ℕ
