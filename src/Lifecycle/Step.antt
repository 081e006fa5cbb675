-- ===== src/Lifecycle/Step.antt =====
-- One transaction of any component on the lifecycle tables, in whatever order the API, the worker,
-- the maintenance timer and the sweeper issue them. SHA-256 is a parameter. Of a transaction that
-- leaves `instances` and `instance_operations` alone (accounts, scoring, audit events), `elsewhere`
-- keeps no more than that.
use cyber_lab_backend.Prelude.{List, ℕ, ◌≤◌, ◌≡◌, Option, some, String}
use cyber_lab_backend.Schema.{Database}
use cyber_lab_backend.Hashing.{HashedText}
use cyber_lab_backend.Intents.{
  CreateIntent, ExtendIntent, DestroyIntent, MutationResult, create_instance_intent,
  extend_instance_intent, destroy_instance_intent,
}
use cyber_lab_backend.Intents.Commits.{FreshInstance, FreshOperation}
use cyber_lab_backend.Runtime.{RuntimeInstanceState}
use cyber_lab_backend.Runtime.Admission.{SpawnRequest, prepare_spawn}
use cyber_lab_backend.Runtime.Outcomes.{
  CompletedSpawn, StopStatus, complete_spawn, complete_stop, mark_instance_failed,
}
use cyber_lab_backend.Jobs.{
  ClaimedLifecycleOperation, recover_stale_operations, mark_queued, claim_operation, mark_succeeded,
  mark_failed,
}
use cyber_lab_backend.Jobs.Maintenance.{create_maintenance_intents}
use cyber_lab_backend.Cleanup.{CleanupIntent}
use cyber_lab_backend.Cleanup.Repository.{complete_cleanup}

module _ (sha256 : HashedText → ℕ) where
  pub data Step (db : Database) : Database → Type 0 where
    creates :
        {next : Database} {result : MutationResult} (instance_id operation_id : ℕ)
        (input : CreateIntent)
        → FreshInstance instance_id db
        → FreshOperation operation_id db
        → input.expires_at ≤ input.absolute_expires_at
        → create_instance_intent instance_id operation_id input db ≡ some (next, result)
        → Step db next
    extends :
        {next : Database} {result : MutationResult} (operation_id : ℕ) (input : ExtendIntent)
        → FreshOperation operation_id db
        → extend_instance_intent operation_id input db ≡ some (next, result)
        → Step db next
    destroys :
        {next : Database} {result : MutationResult} (operation_id : ℕ) (input : DestroyIntent)
        → FreshOperation operation_id db
        → destroy_instance_intent operation_id input db ≡ some (next, result)
        → Step db next
    prepares :
        {next : Database} {result : Option RuntimeInstanceState} (input : SpawnRequest)
        → prepare_spawn input db ≡ some (next, result)
        → Step db next
    completes : (input : CompletedSpawn) → Step db (complete_spawn input db).0
    stops :
        (instance_id : ℕ) (status : StopStatus) (now : ℕ)
        → Step db (complete_stop instance_id status now db)
    fails :
        (instance_id : ℕ) (code : String) (now : ℕ)
        → Step db (mark_instance_failed instance_id code now db)
    recovers : (stale_before now : ℕ) → Step db (recover_stale_operations stale_before now db)
    queues : (operation_id now : ℕ) → Step db (mark_queued operation_id now db)
    claims :
        {next : Database} {result : Option ClaimedLifecycleOperation} (operation_id now : ℕ)
        → claim_operation operation_id now db ≡ some (next, result)
        → Step db next
    succeeds : (operation_id now : ℕ) → Step db (mark_succeeded operation_id now db)
    gives_up :
        (operation_id : ℕ) (code : String) (now : ℕ)
        → Step db (mark_failed operation_id code now db)
    maintains :
        (reap_id reconcile_id : ℕ → ℕ) (now bucket : ℕ)
        → Step db (create_maintenance_intents sha256 reap_id reconcile_id now bucket db)
    cleans :
        {next : Database} (intents : List CleanupIntent) (now : ℕ)
        → complete_cleanup intents now db ≡ some next
        → Step db next
    elsewhere :
        {next : Database}
        → next.instances ≡ db.instances
        → next.instance_operations ≡ db.instance_operations
        → Step db next

  pub data Reach (db : Database) : Database → Type 0 where
    here : Reach db db
    next : {mid last : Database} → Reach db mid → Step mid last → Reach db last
