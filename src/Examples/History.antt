-- ===== src/Examples/History.antt =====
-- Histories of one instance.
use cyber_lab_backend.Prelude.{
  ◌∷◌, [], ℕ, ◌+◌, ◌≤◌, ◌≡◌, refl, false, Option, none, some, String, [], arith, select_one,
  count_where,
}
use cyber_lab_backend.Schema.{Database, Instance, InstanceStatus, client}
use cyber_lab_backend.Validity.{IsValid}
use cyber_lab_backend.Intents.{
  CreateIntent, InstanceMutation, instance_selection, refused, idempotency_conflict, has_id,
  create_instance_intent, find_operation,
}
use cyber_lab_backend.Intents.Replaying.{create_retried}
use cyber_lab_backend.Runtime.{selection}
use cyber_lab_backend.Runtime.Admission.{SpawnRequest, prepare_spawn, reserved_on}
use cyber_lab_backend.Inventory.{observed, to_set}
use cyber_lab_backend.Runtime.Admission.Capacity.{prepare_spawn-le-capacity}
use cyber_lab_backend.Runtime.Admission.Retrying.{Keeps, prepare_spawn-Keeps}
use cyber_lab_backend.Schema.{Operation, spawn}
use cyber_lab_backend.Intents.{pending_operation, has_operation_id}
use cyber_lab_backend.Lifecycle.Persistence.{Persists}
use cyber_lab_backend.Lifecycle.Operations.{Reach-Persists}
use cyber_lab_backend.Lifecycle.Step.{Step, here, next, creates, prepares}
use cyber_lab_backend.Lifecycle.Reachable.{Reach-IsValid, Step-IsValid}
use cyber_lab_backend.Service.{CreateRequest, MutationView, create, absolute_lifetime_ms}
use cyber_lab_backend.Service.Lifetime.{created_expires-le}
use cyber_lab_backend.Examples.{start, start-IsValid, digest, node}

abbrev request : CreateRequest
request = record {
  user_id = 7;
  challenge_id = 3;
  idempotency_key = client 40;
  correlation_id = none;
}

abbrev intent : CreateIntent
intent = record {
  user_id = 7;
  challenge_id = 3;
  idempotency_key = client 40;
  request_hash = 3;
  now = 1000;
  expires_at = 3601000;
  absolute_expires_at = 7201000;
  correlation_id = none;
}

-- The same key for another challenge.
abbrev other_intent : CreateIntent
other_intent = record intent { challenge_id = 4; request_hash = 4 }

abbrev row : Instance
row = record {
  id = 11;
  user_id = 7;
  challenge_id = 3;
  node_id = none;
  status = InstanceStatus.pending;
  route_key = none;
  container_id = none;
  network_id = none;
  failure_code = none;
  created_at = 1000;
  updated_at = 1000;
  started_at = none;
  expires_at = 3601000;
  absolute_expires_at = 7201000;
  stopped_at = none;
}

abbrev spawn_request : SpawnRequest
spawn_request = record {
  instance_id = 11;
  node_id = 5;
  route_key = 70;
  inventory = record { allocations = []; container_ids = []; network_ids = [] };
  now = 2000;
}

-- The tables after a transaction that returns.
abbrev after {ℓ} : {A : Type ℓ} → Option (Database × A) → Database
after none = start
after (some (db, a)) = db

created : Database
unfolding create_instance_intent find_operation
created = after (create_instance_intent 11 21 intent start)

prepared : Database
unfolding created prepare_spawn
prepared = after (prepare_spawn spawn_request created)

creation : Step digest start created
unfolding created create_instance_intent find_operation
creation = creates 11 21 intent refl refl (omega arith) refl

preparation : Step digest created prepared
unfolding created prepared prepare_spawn observed to_set
preparation = prepares spawn_request refl

created-IsValid : IsValid created
created-IsValid = Step-IsValid digest creation start-IsValid

Reach-IsValid_example : IsValid prepared
Reach-IsValid_example = Reach-IsValid digest start-IsValid (next (next here creation) preparation)

-- The row on the node.
abbrev reserved_row : Instance
reserved_row = record row {
  status = InstanceStatus.provisioning;
  node_id = some 5;
  route_key = some 70;
  updated_at = 2000;
}

prepare_spawn-le-capacity_example :
    count_where (reserved_on 5) prepared.instances ≤ node.capacity_slots
unfolding created prepared prepare_spawn observed to_set
prepare_spawn-le-capacity_example =
    prepare_spawn-le-capacity spawn_request created prepared node row (selection reserved_row)
      created-IsValid refl refl (λ e. ground (arith, e)) refl refl refl

abbrev pub view : MutationView
view = record {
  instance = record {
    id = 11;
    challenge_id = 3;
    status = InstanceStatus.pending;
    created_at = 1000;
    started_at = none;
    expires_at = 3601000;
    absolute_expires_at = 7201000;
    stopped_at = none;
    failure_code = none;
    url = none;
  };
  operation_id = 21;
  replayed = false;
}

abbrev pub at_base : ℕ → String → String
at_base key base = base

created_expires-le_example :
    (s : Instance) × (select_one (has_id 11) prepared.instances ≡ some s)
    × (s.user_id ≡ 7)
    × (s.challenge_id ≡ 3)
    × (s.expires_at ≤ 1000 + absolute_lifetime_ms)
unfolding created create create_instance_intent find_operation
created_expires-le_example =
    created_expires-le digest at_base none 11 21 1000 request start created prepared view
      start-IsValid refl refl refl refl (next here preparation)

abbrev mutation : InstanceMutation
mutation = record { instance = instance_selection row; operation_id = 21; replayed = false }

-- The same key, for another challenge.
create_retried_example :
    create_instance_intent 12 22 other_intent created ≡ some (created, refused idempotency_conflict)
unfolding created create_instance_intent find_operation
create_retried_example =
    create_retried 11 21 12 22 intent other_intent start created mutation refl refl refl refl

-- The node's limit was reduced to nothing after the reservation.
reduced : Database
unfolding prepared
reduced = record prepared { lab_nodes = record node { capacity_slots = 0 } ∷ [] }

reduced-IsValid : IsValid reduced
unfolding reduced
reduced-IsValid =
    let v = Step-IsValid digest preparation created-IsValid in
    record { of_instances = v.of_instances; of_operations = v.of_operations }

abbrev retry : SpawnRequest
retry = record spawn_request { route_key = 71; now = 2500 }

retried : Database
unfolding reduced created prepared prepare_spawn observed to_set
retried = after (prepare_spawn retry reduced)

prepare_spawn-Keeps_example : Keeps retry reserved_row (some (selection reserved_row))
unfolding retried reduced created prepared prepare_spawn observed to_set
prepare_spawn-Keeps_example =
    prepare_spawn-Keeps retry reduced retried (record node { capacity_slots = 0 }) reserved_row
      (some (selection reserved_row)) reduced-IsValid refl refl refl refl refl

abbrev spawn_operation : Operation
spawn_operation = pending_operation 21 11 7 spawn (client 40) 3 1000

Reach-Persists_example :
    (p : Operation) × (select_one (has_operation_id 21) prepared.instance_operations ≡ some p)
    × Persists spawn_operation p
unfolding created
Reach-Persists_example = Reach-Persists digest spawn_operation (next here preparation) refl
