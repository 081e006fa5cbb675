-- ===== src/Schema/Enums.antt =====
-- The enumerations of src/db/schema.ts, with `===` and `includes` on them.
use cyber_lab_backend.Prelude.{ℕ, ◌≡◌, ◌↔◌, Bool, true, false, List, arith, ◌==◌, exists_where}

pub data InstanceStatus : Type 0 where
  pending provisioning running stopping stopped failed expired : InstanceStatus

pub data OperationType : Type 0 where
  spawn extend destroy reap reconcile : OperationType

pub data OperationStatus : Type 0 where
  pending queued running succeeded failed : OperationStatus

pub data AccountRole : Type 0 where
  player admin : AccountRole

pub data AccountStatus : Type 0 where
  active disabled : AccountStatus

pub data EmailTokenPurpose : Type 0 where
  email_verification password_reset : EmailTokenPurpose

pub data ChallengeKind : Type 0 where
  web shell : ChallengeKind

pub data LabNodeStatus : Type 0 where
  active draining offline : LabNodeStatus

abbrev status_code : InstanceStatus → ℕ
status_code InstanceStatus.pending = 0
status_code InstanceStatus.provisioning = 1
status_code InstanceStatus.running = 2
status_code InstanceStatus.stopping = 3
status_code InstanceStatus.stopped = 4
status_code InstanceStatus.failed = 5
status_code InstanceStatus.expired = 6

abbrev pub status_eq : InstanceStatus → InstanceStatus → Bool
status_eq s t = status_code s == status_code t

pub status_eq_iff : (s t : InstanceStatus) → (status_eq s t ≡ true) ↔ (s ≡ t)
status_eq_iff s t = ground arith

-- `inArray(status, statuses)`, `statuses.includes(status)`
abbrev pub in_array : InstanceStatus → List InstanceStatus → Bool
in_array s statuses = exists_where (status_eq s) statuses

abbrev type_code : OperationType → ℕ
type_code spawn = 0
type_code extend = 1
type_code destroy = 2
type_code reap = 3
type_code reconcile = 4

abbrev pub type_eq : OperationType → OperationType → Bool
type_eq s t = type_code s == type_code t

pub type_eq_iff : (s t : OperationType) → (type_eq s t ≡ true) ↔ (s ≡ t)
type_eq_iff s t = ground arith

abbrev operation_code : OperationStatus → ℕ
operation_code OperationStatus.pending = 0
operation_code OperationStatus.queued = 1
operation_code OperationStatus.running = 2
operation_code OperationStatus.succeeded = 3
operation_code OperationStatus.failed = 4

abbrev pub operation_status_eq : OperationStatus → OperationStatus → Bool
operation_status_eq s t = operation_code s == operation_code t

abbrev pub purpose_eq : EmailTokenPurpose → EmailTokenPurpose → Bool
purpose_eq email_verification email_verification = true
purpose_eq password_reset password_reset = true
purpose_eq _ _ = false

abbrev pub is_web : ChallengeKind → Bool
is_web web = true
is_web shell = false

abbrev pub is_active_node : LabNodeStatus → Bool
is_active_node LabNodeStatus.active = true
is_active_node _ = false

abbrev pub is_active_account : AccountStatus → Bool
is_active_account AccountStatus.active = true
is_active_account AccountStatus.disabled = false
