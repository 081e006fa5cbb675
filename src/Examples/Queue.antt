-- ===== src/Examples/Queue.antt =====
-- The dispatcher's list.
use cyber_lab_backend.Prelude.{◌≡◌, List, none, [], ◌∷◌, Bool, map, take, select_where, count_where}
use cyber_lab_backend.Schema.{Database, Operation, OperationStatus, spawn, destroy, client}
use cyber_lab_backend.Jobs.{is_pending, list_pending_operations}
use cyber_lab_backend.Jobs.Ordering.{IsOrdered, list_pending-IsOrdered}
use cyber_lab_backend.Examples.{start}

abbrev pub newer : Operation
newer = record {
  id = 22;
  instance_id = 11;
  user_id = 7;
  type = destroy;
  status = OperationStatus.pending;
  idempotency_key = client 41;
  request_hash = 11;
  attempts = 0;
  failure_code = none;
  created_at = 3000;
  updated_at = 3000;
  started_at = none;
  completed_at = none;
}

abbrev pub older : Operation
older = record newer { id = 21; type = spawn; idempotency_key = client 40; created_at = 1000 }

abbrev waiting : Database
waiting = record start { instance_operations = newer ∷ older ∷ [] }

list_pending-IsOrdered_example :
    (ordered : List Operation) × (list_pending_operations 1 waiting
      ≡ map (λ o. (o.id, o.type)) (take 1 ordered))
    × IsOrdered ordered
    × ((q : Operation → Bool)
        → count_where q ordered
          ≡ count_where q (select_where is_pending waiting.instance_operations))
list_pending-IsOrdered_example = list_pending-IsOrdered 1 waiting
