-- ===== src/Worker/Handler.antt =====
-- `DockerLifecycleHandler` of src/services/docker-lifecycle-handler.ts.
use cyber_lab_backend.Prelude.{
  ℕ, Bool, true, false, ◌||◌, ◌==◌, leb, if◌then◌else◌, Option, none, some, String, List, [], ◌∷◌,
  exists_where,
}
use cyber_lab_backend.Schema.{
  InstanceStatus, OperationType, spawn, extend, destroy, reap, reconcile, status_eq, in_array,
}
use cyber_lab_backend.Inventory.{ManagedRuntimeAllocation, ManagedRuntimeInventory, includes}
use cyber_lab_backend.Runtime.{RuntimeInstanceState, find_instance}
use cyber_lab_backend.Runtime.Admission.{prepare_spawn}
use cyber_lab_backend.Runtime.Outcomes.{
  StopStatus, complete_spawn, complete_stop, mark_instance_failed,
}
use cyber_lab_backend.Jobs.{ClaimedLifecycleOperation}
use cyber_lab_backend.Orchestrator.{
  RuntimeManifest, DestroyTargetInput, RuntimeStatus, Orchestrator,
}
use cyber_lab_backend.Actions.{Call, pure, raise, query, write, transact, update, ◌>>=◌, ◌>>◌}
use cyber_lab_backend.Worker.{Environment, HandlerConfig}

-- `id !== null && ids.includes(id)`
abbrev persisted : Option ℕ → List ℕ → Bool
persisted none ids = false
persisted (some id) ids = includes id ids

-- What `confirmAbsent` looks for: an allocation under the instance's label, or a resource that is
-- recorded for it.
abbrev pub remains : RuntimeInstanceState → ManagedRuntimeInventory → Bool
remains s inventory =
    exists_where (λ (a : ManagedRuntimeAllocation). a.instance_id == s.id) inventory.allocations
    || persisted s.container_id inventory.container_ids
    || persisted s.network_id inventory.network_ids

-- `runtime_${runtime}`
abbrev failure_text : RuntimeStatus → String
failure_text RuntimeStatus.healthy = "runtime_healthy"
failure_text RuntimeStatus.missing = "runtime_missing"
failure_text RuntimeStatus.stopped = "runtime_stopped"
failure_text RuntimeStatus.oom = "runtime_oom"
failure_text RuntimeStatus.unhealthy = "runtime_unhealthy"
failure_text RuntimeStatus.unsafe_network = "runtime_unsafe_network"

abbrev pub is_healthy : RuntimeStatus → Bool
is_healthy RuntimeStatus.healthy = true
is_healthy _ = false

abbrev pub target_of : RuntimeInstanceState → DestroyTargetInput
target_of s = record {
  instance_id = s.id;
  container_id = s.container_id;
  network_id = s.network_id;
}

module _ {W : Type 0} (environment : Environment W) (orchestrator : Orchestrator W)
    (config : HandlerConfig) where
  unfoldable pub confirm_absent : RuntimeInstanceState → Call W (Unit {0})
  confirm_absent s = do
    inventory ← orchestrator.inventory_managed_resources
    if remains s inventory then raise else pure tt

  -- The target, started and recorded; one that is not wanted any more is removed again.
  unfoldable pub start_target : RuntimeManifest → RuntimeInstanceState → ℕ → Call W (Unit {0})
  start_target manifest prepared route_key = do
    target ← orchestrator.spawn (record {
      instance_id = prepared.id;
      challenge_id = prepared.challenge_id;
      route_key = route_key;
      flag = config.derive (record {
        user_id = prepared.user_id;
        challenge_id = prepared.challenge_id;
        instance_id = prepared.id;
      });
      manifest = manifest;
    })
    now ← environment.clock
    kept ← update (
        complete_spawn (record {
          instance_id = prepared.id;
          container_id = target.container_id;
          network_id = target.network_id;
          now = now;
        }))
    if kept
        then pure tt
        else orchestrator.destroy (record {
          instance_id = prepared.id;
          container_id = some target.container_id;
          network_id = some target.network_id;
        })

  unfoldable pub start_keyed : RuntimeManifest → RuntimeInstanceState → Option ℕ → Call W (Unit {0})
  unfolding start_target
  start_keyed manifest prepared none = raise
  start_keyed manifest prepared (some key) = start_target manifest prepared key

  -- After the admission: nothing to do, or a target under the route key.
  unfoldable pub start_prepared : RuntimeManifest → Option RuntimeInstanceState → Call W (Unit {0})
  unfolding start_keyed
  start_prepared manifest none = pure tt
  start_prepared manifest (some prepared) =
      if status_eq prepared.status InstanceStatus.running
      then pure tt
      else start_keyed manifest prepared prepared.route_key

  unfoldable pub spawn_with : ClaimedLifecycleOperation → Option RuntimeManifest → Call W (Unit {0})
  unfolding start_prepared
  spawn_with operation none = raise
  spawn_with operation (some manifest) = do
    inventory ← orchestrator.inventory_managed_resources
    key ← environment.random_key
    now ← environment.clock
    prepared ← transact (
        prepare_spawn (record {
          instance_id = operation.instance.id;
          node_id = config.node_id;
          route_key = key;
          inventory = inventory;
          now = now;
        }))
    start_prepared manifest prepared

  unfoldable pub spawn_instance : ClaimedLifecycleOperation → Call W (Unit {0})
  unfolding spawn_with
  spawn_instance operation =
      spawn_with operation (config.manifest_of operation.instance.challenge_id)

  unfoldable pub remove_and_stop : StopStatus → RuntimeInstanceState → Call W (Unit {0})
  unfolding confirm_absent
  remove_and_stop status s = do
    orchestrator.destroy (target_of s)
    confirm_absent s
    now ← environment.clock
    write (complete_stop s.id status now)

  unfoldable pub destroy_found : StopStatus → Option RuntimeInstanceState → Call W (Unit {0})
  unfolding remove_and_stop
  destroy_found status none = pure tt
  destroy_found status (some s) = remove_and_stop status s

  unfoldable pub destroy_instance : StopStatus → ClaimedLifecycleOperation → Call W (Unit {0})
  unfolding destroy_found
  destroy_instance status operation = do
    found ← query (find_instance operation.instance.id)
    destroy_found status found

  -- A running instance: left alone while its runtime is healthy, and failed otherwise.
  unfoldable pub check_running : RuntimeInstanceState → Call W (Unit {0})
  unfolding confirm_absent
  check_running s = do
    runtime ← orchestrator.runtime_status s.id
    if is_healthy runtime then pure tt else do
      orchestrator.destroy (target_of s)
      confirm_absent s
      now ← environment.clock
      write (mark_instance_failed s.id (failure_text runtime) now)

  unfoldable pub reconcile_found :
      ClaimedLifecycleOperation → Option RuntimeInstanceState → Call W (Unit {0})
  unfolding spawn_instance destroy_instance check_running
  reconcile_found operation none = pure tt
  reconcile_found operation (some s) =
      if in_array s.status (InstanceStatus.pending ∷ InstanceStatus.provisioning ∷ [])
      then spawn_instance operation
      else if status_eq s.status InstanceStatus.stopping
      then (do
        now ← environment.clock
        destroy_instance
            (if leb s.expires_at now then StopStatus.as_expired else StopStatus.as_stopped)
            operation)
      else if status_eq s.status InstanceStatus.running
      then check_running s
      else orchestrator.destroy (target_of s)

  unfoldable pub reconcile_instance : ClaimedLifecycleOperation → Call W (Unit {0})
  unfolding reconcile_found
  reconcile_instance operation = do
    found ← query (find_instance operation.instance.id)
    reconcile_found operation found

  -- An extension changes only the persisted expiry.
  unfoldable pub handle_as : OperationType → ClaimedLifecycleOperation → Call W (Unit {0})
  unfolding spawn_instance destroy_instance reconcile_instance
  handle_as spawn operation = spawn_instance operation
  handle_as destroy operation = destroy_instance StopStatus.as_stopped operation
  handle_as reap operation = destroy_instance StopStatus.as_expired operation
  handle_as reconcile operation = reconcile_instance operation
  handle_as extend operation = pure tt

  unfoldable pub handle : ClaimedLifecycleOperation → Call W (Unit {0})
  unfolding handle_as
  handle operation = handle_as operation.type operation
