-- ===== src/Runtime/Outcomes/Advancing.antt =====
-- What the outcomes of a runtime operation do to the table of instances.
use cyber_lab_backend.Prelude.{ℕ, ◌≡◌, refl, true, arith, String, All-everywhere}
use cyber_lab_backend.Schema.{Database, Instance}
use cyber_lab_backend.Intents.Advancing.{From}
use cyber_lab_backend.Lifecycle.Evolution.{Evolves-update, Follows}
use cyber_lab_backend.Runtime.Outcomes.{
  CompletedSpawn, complete_spawn, provisioning_with, running_row, StopStatus, as_stopped,
  as_expired, stop_status, complete_stop, stoppable, stopped_row, mark_instance_failed, failable,
  failed_row,
}

running_row-Follows :
    (input : CompletedSpawn) (r : Instance)
    → provisioning_with input.instance_id r ≡ true
    → Follows r (running_row input r)
running_row-Follows input r h = record {
  id = refl;
  user = refl;
  challenge = refl;
  created = refl;
  limit = refl;
  time = omega arith;
  status = ground (arith, h);
}

stopped_row-Follows :
    (id : ℕ) (s : StopStatus) (now : ℕ) (r : Instance)
    → stoppable id (stop_status s) r ≡ true
    → Follows r (stopped_row (stop_status s) now r)
stopped_row-Follows id as_stopped now r h = record {
  id = refl;
  user = refl;
  challenge = refl;
  created = refl;
  limit = refl;
  time = omega arith;
  status = ground (arith, h);
}
stopped_row-Follows id as_expired now r h = record {
  id = refl;
  user = refl;
  challenge = refl;
  created = refl;
  limit = refl;
  time = omega arith;
  status = ground (arith, h);
}

failed_row-Follows :
    (id : ℕ) (code : String) (now : ℕ) (r : Instance)
    → failable id r ≡ true
    → Follows r (failed_row code now r)
failed_row-Follows id code now r h = record {
  id = refl;
  user = refl;
  challenge = refl;
  created = refl;
  limit = refl;
  time = omega arith;
  status = ground (arith, h);
}

pub complete_spawn-From :
    (input : CompletedSpawn) (db : Database) → From db (complete_spawn input db).0
unfolding complete_spawn
complete_spawn-From input db =
    Evolves-update (provisioning_with input.instance_id) (running_row input) db.instances (
      All-everywhere
        (λ r. provisioning_with input.instance_id r ≡ true → Follows r (running_row input r))
        db.instances (running_row-Follows input))

pub complete_stop-From :
    (id : ℕ) (s : StopStatus) (now : ℕ) (db : Database) → From db (complete_stop id s now db)
unfolding complete_stop
complete_stop-From id s now db =
    Evolves-update (stoppable id (stop_status s)) (stopped_row (stop_status s) now) db.instances (
      All-everywhere
        (λ r. stoppable id (stop_status s) r ≡ true → Follows r (stopped_row (stop_status s) now r))
        db.instances (stopped_row-Follows id s now))

pub mark_instance_failed-From :
    (id : ℕ) (code : String) (now : ℕ) (db : Database)
    → From db (mark_instance_failed id code now db)
unfolding mark_instance_failed
mark_instance_failed-From id code now db =
    Evolves-update (failable id) (failed_row code now) db.instances (
      All-everywhere (λ r. failable id r ≡ true → Follows r (failed_row code now r)) db.instances
        (failed_row-Follows id code now))
