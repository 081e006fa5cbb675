-- ===== src/Service.antt =====
-- src/services/instance-lifecycle.ts: the service between the routes and the intents. The clock, the
-- hash and the URL builder are parameters. A view keeps its times in milliseconds; the ISO texts of
-- them are made by the runtime.
pub mod Lifetime
use cyber_lab_backend.Prelude.{
  ℕ, ◌+◌, Bool, true, false, ◌&&◌, if◌then◌else◌, is_some, Option, none, some, String,
}
use cyber_lab_backend.Schema.{Database, InstanceStatus, IdempotencyKey, status_eq, extend, destroy}
use cyber_lab_backend.Hashing.{HashedText, challenge_json, action_json}
use cyber_lab_backend.Errors.{AppError, Answer, answers, rejects, crashes, not_found, conflict}
use cyber_lab_backend.Intents.{
  InstanceRecord, MutationResult, MutationFailure, accepted, refused, challenge_not_found,
  instance_not_found, active_instance_exists, invalid_state, lifetime_limit, idempotency_conflict,
  CreateIntent, ExtendIntent, DestroyIntent, Transaction, create_instance_intent,
  extend_instance_intent, destroy_instance_intent, find_owned_instance, find_owned_running_instance,
}

abbrev pub default_lifetime_ms : ℕ
default_lifetime_ms = 3600000

abbrev pub absolute_lifetime_ms : ℕ
absolute_lifetime_ms = 7200000

abbrev pub extension_ms : ℕ
extension_ms = 1800000

pub record InstanceView : Type 0 where
  pub id : ℕ
  pub challenge_id : ℕ
  pub status : InstanceStatus
  pub created_at : ℕ
  pub started_at : Option ℕ
  pub expires_at : ℕ
  pub absolute_expires_at : ℕ
  pub stopped_at : Option ℕ
  pub failure_code : Option String
  pub url : Option String

pub record MutationView : Type 0 where
  pub instance : InstanceView
  pub operation_id : ℕ
  pub replayed : Bool

pub record CreateRequest : Type 0 where
  pub user_id : ℕ
  pub challenge_id : ℕ
  pub idempotency_key : IdempotencyKey
  pub correlation_id : Option String

pub record InstanceRequest : Type 0 where
  pub user_id : ℕ
  pub instance_id : ℕ
  pub idempotency_key : IdempotencyKey
  pub correlation_id : Option String

-- `new URL(`/labs/${routeKey}/`, publicBaseUrl)`, where both are there.
abbrev lab_url : (ℕ → String → String) → Option String → Option ℕ → Option String
lab_url build none route_key = none
lab_url build (some base) none = none
lab_url build (some base) (some key) = some (build key base)

module _ (sha256 : HashedText → ℕ) (build_url : ℕ → String → String)
    (public_base_url : Option String) where
  pub to_view : InstanceRecord → InstanceView
  to_view r = record {
    id = r.id;
    challenge_id = r.challenge_id;
    status = r.status;
    created_at = r.created_at;
    started_at = r.started_at;
    expires_at = r.expires_at;
    absolute_expires_at = r.absolute_expires_at;
    stopped_at = r.stopped_at;
    failure_code = r.failure_code;
    url =
        if status_eq r.status InstanceStatus.running
        then lab_url build_url public_base_url r.route_key
        else none;
  }

  pub failure_error : MutationFailure → AppError
  failure_error challenge_not_found = not_found "Challenge not found"
  failure_error instance_not_found = not_found "Challenge instance not found"
  failure_error active_instance_exists = conflict "A player can have only one active instance"
  failure_error lifetime_limit = conflict "Instance has reached its two-hour lifetime limit"
  failure_error idempotency_conflict =
      conflict "Idempotency key was already used for a different request"
  failure_error invalid_state =
      conflict "Instance cannot perform that operation in its current state"

  pub resolve_mutation : MutationResult → Answer MutationView
  unfolding to_view failure_error
  resolve_mutation (accepted m) = answers (record {
    instance = to_view m.instance;
    operation_id = m.operation_id;
    replayed = m.replayed;
  })
  resolve_mutation (refused f) = rejects (failure_error f)

  -- The tables after the call, with its answer; a transaction that throws leaves them as they were.
  resolve : Database → Transaction MutationResult → Database × Answer MutationView
  unfolding resolve_mutation
  resolve db none = (db, crashes)
  resolve db (some (next, result)) = (next, resolve_mutation result)

  pub create_intent : (now : ℕ) → CreateRequest → CreateIntent
  create_intent now input = record {
    user_id = input.user_id;
    challenge_id = input.challenge_id;
    idempotency_key = input.idempotency_key;
    request_hash = sha256 (challenge_json input.challenge_id);
    now = now;
    expires_at = now + default_lifetime_ms;
    absolute_expires_at = now + absolute_lifetime_ms;
    correlation_id = input.correlation_id;
  }

  unfoldable pub create :
      (instance_id operation_id now : ℕ) → CreateRequest → Database → Database × Answer MutationView
  unfolding resolve create_intent
  create instance_id operation_id now input db =
      resolve db (create_instance_intent instance_id operation_id (create_intent now input) db)

  pub get : (user_id instance_id : ℕ) → Database → Answer InstanceView
  unfolding to_view
  get user_id instance_id db = elim (find_owned_instance db user_id instance_id) [
    | none ↦ rejects (not_found "Challenge instance not found")
    | some r ↦ answers (to_view r)
  ]

  pub extend_intent : (now : ℕ) → InstanceRequest → ExtendIntent
  extend_intent now input = record {
    user_id = input.user_id;
    instance_id = input.instance_id;
    idempotency_key = input.idempotency_key;
    request_hash = sha256 (action_json input.instance_id extend);
    now = now;
    extension_ms = extension_ms;
    correlation_id = input.correlation_id;
  }

  pub extend_instance :
      (operation_id now : ℕ) → InstanceRequest → Database → Database × Answer MutationView
  unfolding resolve extend_intent
  extend_instance operation_id now input db =
      resolve db (extend_instance_intent operation_id (extend_intent now input) db)

  pub destroy_intent : (now : ℕ) → InstanceRequest → DestroyIntent
  destroy_intent now input = record {
    user_id = input.user_id;
    instance_id = input.instance_id;
    idempotency_key = input.idempotency_key;
    request_hash = sha256 (action_json input.instance_id destroy);
    now = now;
    correlation_id = input.correlation_id;
  }

  pub destroy_instance :
      (operation_id now : ℕ) → InstanceRequest → Database → Database × Answer MutationView
  unfolding resolve destroy_intent
  destroy_instance operation_id now input db =
      resolve db (destroy_instance_intent operation_id (destroy_intent now input) db)
