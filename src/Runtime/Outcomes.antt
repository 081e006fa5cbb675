-- ===== src/Runtime/Outcomes.antt =====
-- `completeSpawn`, `completeStop` and `markInstanceFailed` of src/db/lifecycle-state-repository.ts.
pub mod Keeping
pub mod Recording
pub mod Advancing
use cyber_lab_backend.Prelude.{
  ℕ, Bool, true, false, not, ◌&&◌, ◌||◌, ◌==◌, leb, ltb, if◌then◌else◌, option_eq, is_some, or_else,
  Option, none, some, String, List, [], ◌∷◌, length, map, select_one, select_where, update_where,
  exists_where,
}
use cyber_lab_backend.Schema.{
  Database, Instance, LabNode, InstanceStatus, AuditEvent, of_failure, in_array, status_eq,
  is_active_node,
}
use cyber_lab_backend.Schema
use cyber_lab_backend.Intents.{Transaction, has_id, terminal_statuses}
use mathlib.Core.Option
use text.Mathlib.Text.{◌==◌ as text_eq}

pub record CompletedSpawn : Type 0 where
  pub instance_id : ℕ
  pub container_id : ℕ
  pub network_id : ℕ
  pub now : ℕ

abbrev provisioning_with : ℕ → Instance → Bool
provisioning_with id r = has_id id r && status_eq r.status InstanceStatus.provisioning

abbrev running_row : CompletedSpawn → Instance → Instance
running_row input r = record r {
  status = InstanceStatus.running;
  container_id = some input.container_id;
  network_id = some input.network_id;
  started_at = some (or_else r.started_at input.now);
  failure_code = none;
  updated_at = input.now;
}

abbrev runs : Option Instance → Bool
runs none = false
runs (some r) = status_eq r.status InstanceStatus.running

-- Whether the update returned a row, or else the instance runs already.
pub complete_spawn : CompletedSpawn → Database → Database × Bool
complete_spawn input db = (
  record db {
    instances = update_where (provisioning_with input.instance_id) (running_row input) db.instances;
  },
  exists_where (provisioning_with input.instance_id) db.instances
      || runs (select_one (has_id input.instance_id) db.instances),
)

-- The two statuses that `completeStop` may write.
pub data StopStatus : Type 0 where
  as_stopped as_expired : StopStatus

abbrev pub stop_status : StopStatus → InstanceStatus
stop_status as_stopped = InstanceStatus.stopped
stop_status as_expired = InstanceStatus.expired

abbrev pub stoppable : ℕ → InstanceStatus → Instance → Bool
stoppable id status r =
    has_id id r
    && in_array r.status (
        InstanceStatus.pending ∷ InstanceStatus.provisioning ∷ InstanceStatus.running
        ∷ InstanceStatus.stopping ∷ status ∷ [])

abbrev pub stopped_row : InstanceStatus → ℕ → Instance → Instance
stopped_row status now r = record r {
  status = status;
  node_id = none;
  route_key = none;
  container_id = none;
  network_id = none;
  stopped_at = some now;
  updated_at = now;
}

pub complete_stop : (instance_id : ℕ) → StopStatus → (now : ℕ) → Database → Database
complete_stop instance_id status now db = record db {
  instances =
      update_where (stoppable instance_id (stop_status status))
        (stopped_row (stop_status status) now) db.instances;
}

abbrev pub failable : ℕ → Instance → Bool
failable id r =
    has_id id r
    && in_array r.status
        (InstanceStatus.pending ∷ InstanceStatus.provisioning ∷ InstanceStatus.running ∷ [])

abbrev pub failed_row : String → ℕ → Instance → Instance
failed_row failure_code now r = record r {
  status = InstanceStatus.failed;
  failure_code = some failure_code;
  updated_at = now;
  stopped_at = some now;
}

abbrev termination_events : ℕ → String → ℕ → Option Instance → List AuditEvent → List AuditEvent
termination_events instance_id failure_code now none events = events
termination_events instance_id failure_code now (some r) events =
    record {
      actor_user_id = none;
      target_user_id = some r.user_id;
      event_type = "instance.runtime_terminated";
      correlation_id = none;
      details = of_failure instance_id failure_code;
      created_at = some now;
    }
    ∷ events

-- The audit event is written if the update returned a row.
pub mark_instance_failed : (instance_id : ℕ) → String → (now : ℕ) → Database → Database
mark_instance_failed instance_id failure_code now db = record db {
  instances = update_where (failable instance_id) (failed_row failure_code now) db.instances;
  audit_events =
      termination_events instance_id failure_code now
        (select_one (failable instance_id) db.instances) db.audit_events;
}
