-- ===== src/Examples/Working.antt =====
-- A worker over a host that has a container of the one instance, or none.
use cyber_lab_backend.Prelude.{
  ℕ, ◌≡◌, ◌-◌, refl, Bool, true, false, none, [], ◌∷◌, if◌then◌else◌, All, arith,
}
use cyber_lab_backend.Schema.{Instance, InstanceStatus, OperationType}
use cyber_lab_backend.Runtime.{RuntimeInstanceState, find_instance, selection}
use cyber_lab_backend.Runtime.Outcomes.{StopStatus, complete_stop}
use cyber_lab_backend.Jobs.{
  claimed_operation, list_pending_operations, mark_queued, recover_stale_operations,
  order_by_creation,
}
use cyber_lab_backend.Orchestrator.{Orchestrator, RuntimeStatus}
use cyber_lab_backend.Actions.{Host, Call, returned, pure, query, write, ◌>>=◌, ◌>>◌}
use cyber_lab_backend.Worker.{Environment, HandlerConfig}
use cyber_lab_backend.Worker.Handler.{
  destroy_instance, destroy_found, remove_and_stop, confirm_absent,
}
use cyber_lab_backend.Worker.Queue.{
  dispatch_pending, enqueue_pending, enqueue_all, default_stale_after_ms,
}
use cyber_lab_backend.Worker.Serving.{Process}
use cyber_lab_backend.Worker.Absence.{Confirmed, destroy-Confirmed}
use cyber_lab_backend.Worker.Dispatching.{unserved, dispatch_pending-serves}
use cyber_lab_backend.Examples.{start, digest}
use cyber_lab_backend.Examples.Queue.{newer, older}
use cyber_lab_backend.Examples.Sweeping.{full, empty, docker, failed_row}

abbrev clock : Environment Bool
clock = record { clock = λ h. (h, returned 500000); random_key = λ h. (h, returned 70) }

abbrev host : Orchestrator Bool
host = record {
  inventory_managed_resources = λ h. (h, returned (if h.world then full else empty));
  spawn = λ input h.
      (record h { world = true }, returned (record { container_id = 80; network_id = 90 }));
  destroy = λ input h. (record h { world = false }, returned tt);
  runtime_status = λ id h. (h, returned RuntimeStatus.healthy);
}

abbrev pub config : HandlerConfig
config = record { manifest_of = λ id. none; derive = λ context. "flag"; node_id = 5 }

abbrev add : ℕ → OperationType → Call Bool (Unit {0})
add id type h = (h, returned tt)

abbrev process : Process Bool
process = record {
  environment = clock;
  orchestrator = host;
  config = config;
  add = add;
  cleanup = docker;
  sha256 = digest;
  reap_id = λ id. id;
  reconcile_id = λ id. id;
  begun = 500000;
  completed = 500001;
  refused = 500002;
}

abbrev pub stopping_row : Instance
stopping_row = record failed_row { status = InstanceStatus.stopping; stopped_at = none }

abbrev pub busy : Host Bool
busy = record {
  db = record start { instances = stopping_row ∷ []; instance_operations = newer ∷ older ∷ [] };
  world = true;
}

abbrev destroyed : Host Bool
destroyed = record { db = complete_stop 11 StopStatus.as_stopped 500000 busy.db; world = false }

abbrev pub seen_state : RuntimeInstanceState
seen_state = selection stopping_row

destroy-Confirmed_example :
    Confirmed clock host config seen_state (complete_stop 11 StopStatus.as_stopped) destroyed
unfolding destroy_instance destroy_found remove_and_stop confirm_absent find_instance query write
    pure ◌>>=◌ ◌>>◌
destroy-Confirmed_example =
    destroy-Confirmed clock host config StopStatus.as_stopped (claimed_operation newer stopping_row)
      seen_state busy destroyed refl refl

abbrev dispatched : Host Bool
dispatched = (dispatch_pending clock add 100 busy).0

dispatch_pending-serves_example :
    All
      (λ o. unserved (500000 - default_stale_after_ms) o ≡ false)
      dispatched.db.instance_operations
unfolding dispatch_pending enqueue_pending enqueue_all list_pending_operations
    recover_stale_operations mark_queued order_by_creation query write pure ◌>>=◌ ◌>>◌
dispatch_pending-serves_example =
    dispatch_pending-serves clock add 100 500000 2 busy busy dispatched (λ id type h. refl) refl
      refl (omega arith)
