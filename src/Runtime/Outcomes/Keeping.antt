-- ===== src/Runtime/Outcomes/Keeping.antt =====
-- The outcomes of a runtime operation keep the lifecycle tables sound.
use cyber_lab_backend.Prelude.{ℕ, ◌≡◌, refl, true, arith, String}
use cyber_lab_backend.Schema.{Database, Instance}
use cyber_lab_backend.Validity.{IsValid}
use cyber_lab_backend.Validity.Updates.{Keeps}
use cyber_lab_backend.Validity.Steps.{instances-Sound}
use cyber_lab_backend.Runtime.Outcomes.{
  CompletedSpawn, complete_spawn, provisioning_with, running_row, StopStatus, as_stopped,
  as_expired, stop_status, complete_stop, stoppable, stopped_row, mark_instance_failed, failable,
  failed_row,
}

running_row-Keeps :
    (input : CompletedSpawn) (r : Instance)
    → provisioning_with input.instance_id r ≡ true
    → Keeps r (running_row input r)
running_row-Keeps input r h = record { id = refl; user = refl; wakes_none = λ a. ground (arith, h) }

stopped_row-Keeps :
    (id : ℕ) (s : StopStatus) (now : ℕ) (r : Instance)
    → stoppable id (stop_status s) r ≡ true
    → Keeps r (stopped_row (stop_status s) now r)
stopped_row-Keeps id as_stopped now r h = record {
  id = refl;
  user = refl;
  wakes_none = λ a. ground (arith, a);
}
stopped_row-Keeps id as_expired now r h = record {
  id = refl;
  user = refl;
  wakes_none = λ a. ground (arith, a);
}

pub complete_spawn-IsValid :
    (input : CompletedSpawn) (db : Database) → IsValid db → IsValid (complete_spawn input db).0
unfolding complete_spawn
complete_spawn-IsValid input db v =
    let (rows, operations) =
      instances-Sound (provisioning_with input.instance_id) (running_row input)
        (running_row-Keeps input) (λ r w. w) db.instances db.instance_operations
        (v.of_instances, v.of_operations) in
    record { of_instances = rows; of_operations = operations }

pub complete_stop-IsValid :
    (id : ℕ) (s : StopStatus) (now : ℕ) (db : Database)
    → IsValid db
    → IsValid (complete_stop id s now db)
unfolding complete_stop
complete_stop-IsValid id s now db v =
    let (rows, operations) =
      instances-Sound (stoppable id (stop_status s)) (stopped_row (stop_status s) now)
        (stopped_row-Keeps id s now) (λ r w. w) db.instances db.instance_operations
        (v.of_instances, v.of_operations) in
    record { of_instances = rows; of_operations = operations }

pub mark_instance_failed-IsValid :
    (id : ℕ) (code : String) (now : ℕ) (db : Database)
    → IsValid db
    → IsValid (mark_instance_failed id code now db)
unfolding mark_instance_failed
mark_instance_failed-IsValid id code now db v =
    let (rows, operations) =
      instances-Sound (failable id) (failed_row code now)
        (λ r h. record { id = refl; user = refl; wakes_none = λ a. ground (arith, a) }) (λ r w. w)
        db.instances db.instance_operations (v.of_instances, v.of_operations) in
    record { of_instances = rows; of_operations = operations }
