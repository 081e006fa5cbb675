-- ===== src/Jobs/Advancing.antt =====
-- What the job repository does to the table of instances.
use cyber_lab_backend.Prelude.{
  ℕ, ◌≡◌, refl, arith, Option, none, some, String, List, Bool-cases, inl, inr, select_one,
  exists_where, select_where, [], ◌∷◌, subst, update_where,
}
use cyber_lab_backend.Schema.{Database, Instance, Operation, type_eq, spawn}
use cyber_lab_backend.Hashing.{HashedText}
use cyber_lab_backend.Lifecycle.Evolution.{
  Evolves, Evolves-refl, Evolves-trans, Evolves-everywhere, status-Follows,
}
use cyber_lab_backend.Intents.Advancing.{From}
use cyber_lab_backend.Runtime.Admission.Advancing.{EvolvesFrom}
use cyber_lab_backend.Jobs.{
  recover_stale_operations, mark_queued, mark_succeeded, claim_operation, claimable,
  returning_claim, joined_claim, claimed_row, ClaimedLifecycleOperation, mark_failed, running_with,
  fail_instance, unspawned,
}
use cyber_lab_backend.Jobs.Maintenance.{
  insert_or_ignore, run_out, reapable, stopping_row, reconcilable, reap_operation, reap_one,
  reap_all, reconcile_operation, reconcile_all, create_maintenance_intents,
}

returning_claim-From :
    (db : Database) (c : Option ClaimedLifecycleOperation) → EvolvesFrom db (returning_claim db c)
returning_claim-From db none = tt
returning_claim-From db (some c) = Evolves-refl db.instances

pub claim-From : (id now : ℕ) (db : Database) → EvolvesFrom db (claim_operation id now db)
unfolding claim_operation
claim-From id now db = elim (Bool-cases (exists_where (claimable id) db.instance_operations)) [
  | inl hit ↦ rw hit (
      returning_claim-From
        (record db {
          instance_operations =
              update_where (claimable id) (claimed_row now) db.instance_operations;
        })
        (joined_claim (update_where (claimable id) (claimed_row now) db.instance_operations) db id))
  | inr miss ↦ rw miss (Evolves-refl db.instances)
]

fail_instance-Evolves :
    (o : Option Operation) (code : String) (now : ℕ) (rows : List Instance)
    → Evolves rows (fail_instance o code now rows)
fail_instance-Evolves none code now rows = Evolves-refl rows
fail_instance-Evolves (some o) code now rows = elim (Bool-cases (type_eq o.type spawn)) [
  | inl spawns ↦ rw spawns (
      Evolves-everywhere (unspawned o.instance_id) _ rows
        (λ r h. status-Follows r _ refl refl refl refl refl refl (ground (arith, h))))
  | inr other ↦ rw other (Evolves-refl rows)
]

pub mark_failed-From :
    (id : ℕ) (code : String) (now : ℕ) (db : Database) → From db (mark_failed id code now db)
unfolding mark_failed
mark_failed-From id code now db =
    fail_instance-Evolves (select_one (running_with id) db.instance_operations) code now
      db.instances

inserted-instances :
    (o : Operation) (db : Database) → (insert_or_ignore o db).instances ≡ db.instances
unfolding insert_or_ignore
inserted-instances o db = ground arith

module _ (sha256 : HashedText → ℕ) (reap_id reconcile_id : ℕ → ℕ) (now bucket : ℕ) where
  reap_one-From :
      (r : Instance) (db : Database)
      → From db (reap_one sha256 reap_id reconcile_id now bucket r db)
  unfolding reap_one
  reap_one-From r db =
      rw (inserted-instances (reap_operation sha256 reap_id reconcile_id now bucket r) db) (
        Evolves-everywhere (reapable r.id) (stopping_row now) db.instances (λ y h.
          status-Follows y (stopping_row now y) refl refl refl refl refl refl (ground (arith, h))))

  reap_all-From :
      (expired : List Instance) (db : Database)
      → From db (reap_all sha256 reap_id reconcile_id now bucket expired db)
  unfolding reap_all
  reap_all-From [] db = Evolves-refl db.instances
  reap_all-From (r ∷ expired) db =
      Evolves-trans (reap_one-From r db)
        (reap_all-From expired (reap_one sha256 reap_id reconcile_id now bucket r db))

  reconcile_all-From :
      (active : List Instance) (db : Database)
      → From db (reconcile_all sha256 reap_id reconcile_id now bucket active db)
  unfolding reconcile_all
  reconcile_all-From [] db = Evolves-refl db.instances
  reconcile_all-From (r ∷ active) db =
      let o = reconcile_operation sha256 reap_id reconcile_id now bucket r in
      subst
        (λ rows.
          Evolves rows
            (reconcile_all sha256 reap_id reconcile_id now bucket active
              (insert_or_ignore o db)).instances)
        (inserted-instances o db) (reconcile_all-From active (insert_or_ignore o db))

  pub maintenance-From :
      (db : Database)
      → From db (create_maintenance_intents sha256 reap_id reconcile_id now bucket db)
  unfolding create_maintenance_intents
  maintenance-From db =
      let reaped =
        reap_all sha256 reap_id reconcile_id now bucket (select_where (run_out now) db.instances)
          db in
      Evolves-trans (reap_all-From (select_where (run_out now) db.instances) db) (
        reconcile_all-From (select_where (reconcilable reaped.instance_operations) reaped.instances)
          reaped)

pub recover-From :
    (before now : ℕ) (db : Database) → From db (recover_stale_operations before now db)
unfolding recover_stale_operations
recover-From before now db = Evolves-refl db.instances

pub mark_queued-From : (id now : ℕ) (db : Database) → From db (mark_queued id now db)
unfolding mark_queued
mark_queued-From id now db = Evolves-refl db.instances

pub mark_succeeded-From : (id now : ℕ) (db : Database) → From db (mark_succeeded id now db)
unfolding mark_succeeded
mark_succeeded-From id now db = Evolves-refl db.instances
