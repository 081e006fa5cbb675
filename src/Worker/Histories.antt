-- ===== src/Worker/Histories.antt =====
-- The worker as a whole refines the step relation of the tables.
use cyber_lab_backend.Prelude.{ℕ, Option, none, some, [], ◌∷◌}
use cyber_lab_backend.Schema.{
  InstanceStatus, OperationType, spawn, extend, destroy, reap, reconcile, status_eq, in_array,
}
use cyber_lab_backend.Hashing.{HashedText}
use cyber_lab_backend.Runtime.{RuntimeInstanceState}
use cyber_lab_backend.Runtime.Outcomes.{StopStatus}
use cyber_lab_backend.Jobs.{ClaimedLifecycleOperation}
use cyber_lab_backend.Lifecycle.Step.{prepares, completes, stops, fails}
use cyber_lab_backend.Orchestrator.{
  RuntimeManifest, SpawnTargetInput, DestroyTargetInput, Orchestrator,
}
use cyber_lab_backend.Worker.{Environment, HandlerConfig}
use cyber_lab_backend.Worker.Handler.{
  confirm_absent, remains, start_target, start_prepared, start_keyed, spawn_with, destroy_found,
  handle_as, is_healthy, spawn_instance, remove_and_stop, destroy_instance, check_running,
  reconcile_found, reconcile_instance, handle,
}
use cyber_lab_backend.Worker.Reaching.{
  Reaches, bind-Reaches, then-Reaches, write-Reaches, update-Reaches, transact-Reaches, if-Reaches,
  pure-Reaches, raise-Reaches, query-Reaches,
}

module _ (sha256 : HashedText → ℕ) {W : Type 0} where
  -- The calls outside of the tables: while they wait, others may commit transactions, and nothing
  -- else happens to the tables.
  pub record IsOutside (environment : Environment W) (orchestrator : Orchestrator W) : Type 0 where
    pub clock : Reaches sha256 environment.clock
    pub random_key : Reaches sha256 environment.random_key
    pub inventory : Reaches sha256 orchestrator.inventory_managed_resources
    pub spawns : (input : SpawnTargetInput) → Reaches sha256 (orchestrator.spawn input)
    pub removes : (input : DestroyTargetInput) → Reaches sha256 (orchestrator.destroy input)
    pub status : (id : ℕ) → Reaches sha256 (orchestrator.runtime_status id)

  module _ (environment : Environment W) (orchestrator : Orchestrator W) (config : HandlerConfig)
      (outside : IsOutside environment orchestrator) where
    confirm_absent-Reaches :
        (s : RuntimeInstanceState)
        → Reaches sha256 (confirm_absent environment orchestrator config s)
    unfolding confirm_absent
    confirm_absent-Reaches s = bind-Reaches sha256 outside.inventory λ inventory.
        if-Reaches sha256 (remains s inventory) (raise-Reaches sha256) (pure-Reaches sha256 tt)

    start_target-Reaches :
        (manifest : RuntimeManifest) (s : RuntimeInstanceState) (key : ℕ)
        → Reaches sha256 (start_target environment orchestrator config manifest s key)
    unfolding start_target
    start_target-Reaches manifest s key = bind-Reaches sha256 (outside.spawns _) λ target.
        bind-Reaches sha256 outside.clock λ now.
          bind-Reaches sha256 (update-Reaches sha256 _ λ db. completes _)
            λ kept. if-Reaches sha256 kept (pure-Reaches sha256 tt) (outside.removes _)

    start_keyed-Reaches :
        (manifest : RuntimeManifest) (s : RuntimeInstanceState) (key : Option ℕ)
        → Reaches sha256 (start_keyed environment orchestrator config manifest s key)
    unfolding start_keyed
    start_keyed-Reaches manifest s none = raise-Reaches sha256
    start_keyed-Reaches manifest s (some key) = start_target-Reaches manifest s key

    start_prepared-Reaches :
        (manifest : RuntimeManifest) (o : Option RuntimeInstanceState)
        → Reaches sha256 (start_prepared environment orchestrator config manifest o)
    unfolding start_prepared
    start_prepared-Reaches manifest none = pure-Reaches sha256 tt
    start_prepared-Reaches manifest (some s) =
        if-Reaches sha256 (status_eq s.status InstanceStatus.running) (pure-Reaches sha256 tt)
          (start_keyed-Reaches manifest s s.route_key)

    spawn_with-Reaches :
        (operation : ClaimedLifecycleOperation) (o : Option RuntimeManifest)
        → Reaches sha256 (spawn_with environment orchestrator config operation o)
    unfolding spawn_with
    spawn_with-Reaches operation none = raise-Reaches sha256
    spawn_with-Reaches operation (some manifest) =
        bind-Reaches sha256 outside.inventory λ inventory.
          bind-Reaches sha256 outside.random_key λ key. bind-Reaches sha256 outside.clock λ now.
            bind-Reaches sha256 (transact-Reaches sha256 λ db next a e. prepares _ e)
              λ prepared. start_prepared-Reaches manifest prepared

    remove_and_stop-Reaches :
        (status : StopStatus) (s : RuntimeInstanceState)
        → Reaches sha256 (remove_and_stop environment orchestrator config status s)
    unfolding remove_and_stop
    remove_and_stop-Reaches status s = then-Reaches sha256 (outside.removes _) (
        then-Reaches sha256 (confirm_absent-Reaches s) (
          bind-Reaches sha256 outside.clock
            λ now. write-Reaches sha256 λ db. stops s.id status now))

    destroy_found-Reaches :
        (status : StopStatus) (o : Option RuntimeInstanceState)
        → Reaches sha256 (destroy_found environment orchestrator config status o)
    unfolding destroy_found
    destroy_found-Reaches status none = pure-Reaches sha256 tt
    destroy_found-Reaches status (some s) = remove_and_stop-Reaches status s

    destroy_instance-Reaches :
        (status : StopStatus) (operation : ClaimedLifecycleOperation)
        → Reaches sha256 (destroy_instance environment orchestrator config status operation)
    unfolding destroy_instance
    destroy_instance-Reaches status operation =
        bind-Reaches sha256 (query-Reaches sha256 _) (destroy_found-Reaches status)

    check_running-Reaches :
        (s : RuntimeInstanceState)
        → Reaches sha256 (check_running environment orchestrator config s)
    unfolding check_running
    check_running-Reaches s = bind-Reaches sha256 (outside.status s.id) λ runtime.
        if-Reaches sha256 (is_healthy runtime) (pure-Reaches sha256 tt) (
          then-Reaches sha256 (outside.removes _) (
            then-Reaches sha256 (confirm_absent-Reaches s) (
              bind-Reaches sha256 outside.clock
                λ now. write-Reaches sha256 λ db. fails s.id _ now)))

    reconcile_found-Reaches :
        (operation : ClaimedLifecycleOperation) (o : Option RuntimeInstanceState)
        → Reaches sha256 (reconcile_found environment orchestrator config operation o)
    unfolding reconcile_found spawn_instance
    reconcile_found-Reaches operation none = pure-Reaches sha256 tt
    reconcile_found-Reaches operation (some s) =
        if-Reaches sha256
          (in_array s.status (InstanceStatus.pending ∷ InstanceStatus.provisioning ∷ []))
          (spawn_with-Reaches operation _)
          (if-Reaches sha256 (status_eq s.status InstanceStatus.stopping)
            (bind-Reaches sha256 outside.clock λ now. destroy_instance-Reaches _ operation)
            (if-Reaches sha256 (status_eq s.status InstanceStatus.running) (check_running-Reaches s)
              (outside.removes _)))

    handle_as-Reaches :
        (type : OperationType) (operation : ClaimedLifecycleOperation)
        → Reaches sha256 (handle_as environment orchestrator config type operation)
    unfolding handle_as spawn_instance reconcile_instance
    handle_as-Reaches spawn operation = spawn_with-Reaches operation _
    handle_as-Reaches destroy operation = destroy_instance-Reaches StopStatus.as_stopped operation
    handle_as-Reaches reap operation = destroy_instance-Reaches StopStatus.as_expired operation
    handle_as-Reaches reconcile operation =
        bind-Reaches sha256 (query-Reaches sha256 _) (reconcile_found-Reaches operation)
    handle_as-Reaches extend operation = pure-Reaches sha256 tt

    pub handle-Reaches :
        (operation : ClaimedLifecycleOperation)
        → Reaches sha256 (handle environment orchestrator config operation)
    unfolding handle
    handle-Reaches operation = handle_as-Reaches operation.type operation
