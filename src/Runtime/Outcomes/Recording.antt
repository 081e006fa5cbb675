-- ===== src/Runtime/Outcomes/Recording.antt =====
-- The outcomes of the runtime leave the table of operations alone.
use cyber_lab_backend.Prelude.{ℕ, ◌≡◌, refl, arith, String}
use cyber_lab_backend.Schema.{Database}
use cyber_lab_backend.Runtime.Outcomes.{
  CompletedSpawn, StopStatus, complete_spawn, complete_stop, mark_instance_failed,
}

pub complete_spawn-operations :
    (input : CompletedSpawn) (db : Database)
    → (complete_spawn input db).0.instance_operations ≡ db.instance_operations
unfolding complete_spawn
complete_spawn-operations input db = ground arith

pub complete_stop-operations :
    (id : ℕ) (status : StopStatus) (now : ℕ) (db : Database)
    → (complete_stop id status now db).instance_operations ≡ db.instance_operations
unfolding complete_stop
complete_stop-operations id status now db = refl

pub mark_instance_failed-operations :
    (id : ℕ) (code : String) (now : ℕ) (db : Database)
    → (mark_instance_failed id code now db).instance_operations ≡ db.instance_operations
unfolding mark_instance_failed
mark_instance_failed-operations id code now db = refl
