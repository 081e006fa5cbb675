-- ===== src/Jobs/Keeping.antt =====
-- The methods of the job repository keep the lifecycle tables sound.
use cyber_lab_backend.Prelude.{
  ℕ, refl, Bool, arith, Option, none, some, String, List, Bool-cases, inl, inr, select_one,
  update_where, exists_where,
}
use cyber_lab_backend.Schema.{Database, Instance, Operation, type_eq, spawn}
use cyber_lab_backend.Validity.{IsValid}
use cyber_lab_backend.Validity.Steps.{Sound, KeepsKeys, instances-Sound, operations-Sound}
use cyber_lab_backend.Runtime.Admission.Keeping.{KeepsSound}
use cyber_lab_backend.Jobs.{
  recover_stale_operations, stale, mark_queued, pending_with, claim_operation, claimable,
  claimed_row, returning_claim, joined_claim, ClaimedLifecycleOperation, mark_succeeded,
  running_with, mark_failed, fail_instance, unspawned,
}

module _ (db : Database) (q : Operation → Bool) (f : Operation → Operation)
    (keeps : (o : Operation) → KeepsKeys o (f o)) where
  operations-IsValid :
      IsValid db
      → IsValid (record db { instance_operations = update_where q f db.instance_operations })
  operations-IsValid v =
      let (rows, operations) =
        operations-Sound q f keeps db.instances db.instance_operations
          (v.of_instances, v.of_operations) in
      record { of_instances = rows; of_operations = operations }

pub recover-IsValid :
    (before now : ℕ) (db : Database) → IsValid db → IsValid (recover_stale_operations before now db)
unfolding recover_stale_operations
recover-IsValid before now db v =
    operations-IsValid db (stale before) _
      (λ o. record { id = refl; user = refl; type = refl; key = refl; instance = refl }) v

pub mark_queued-IsValid :
    (id now : ℕ) (db : Database) → IsValid db → IsValid (mark_queued id now db)
unfolding mark_queued
mark_queued-IsValid id now db v =
    operations-IsValid db (pending_with id) _
      (λ o. record { id = refl; user = refl; type = refl; key = refl; instance = refl }) v

pub mark_succeeded-IsValid :
    (id now : ℕ) (db : Database) → IsValid db → IsValid (mark_succeeded id now db)
unfolding mark_succeeded
mark_succeeded-IsValid id now db v =
    operations-IsValid db (running_with id) _
      (λ o. record { id = refl; user = refl; type = refl; key = refl; instance = refl }) v

returning_claim-KeepsSound :
    (db : Database) (c : Option ClaimedLifecycleOperation)
    → IsValid db
    → KeepsSound (returning_claim db c)
returning_claim-KeepsSound db none v = tt
returning_claim-KeepsSound db (some c) v = v

pub claim-IsValid :
    (id now : ℕ) (db : Database) → IsValid db → KeepsSound (claim_operation id now db)
unfolding claim_operation
claim-IsValid id now db v = elim (Bool-cases (exists_where (claimable id) db.instance_operations)) [
  | inl hit ↦ rw hit (
      returning_claim-KeepsSound _
        (joined_claim (update_where (claimable id) (claimed_row now) db.instance_operations) db id)
        (operations-IsValid db (claimable id) (claimed_row now)
          (λ o. record { id = refl; user = refl; type = refl; key = refl; instance = refl }) v))
  | inr miss ↦ rw miss v
]

fail_instance-Sound :
    (o : Option Operation) (code : String) (now : ℕ) (rows : List Instance)
    (operations : List Operation)
    → Sound rows operations
    → Sound (fail_instance o code now rows) operations
fail_instance-Sound none code now rows operations v = v
fail_instance-Sound (some o) code now rows operations v = elim (Bool-cases (type_eq o.type spawn)) [
  | inl spawns ↦ rw spawns (
      instances-Sound (unspawned o.instance_id) _
        (λ r h. record { id = refl; user = refl; wakes_none = λ a. ground (arith, a) }) (λ r w. w)
        rows operations v)
  | inr other ↦ rw other v
]

pub mark_failed-IsValid :
    (id : ℕ) (code : String) (now : ℕ) (db : Database)
    → IsValid db
    → IsValid (mark_failed id code now db)
unfolding mark_failed
mark_failed-IsValid id code now db v =
    let marked =
      operations-Sound (running_with id) _
        (λ o. record { id = refl; user = refl; type = refl; key = refl; instance = refl })
        db.instances db.instance_operations (v.of_instances, v.of_operations) in
    let (rows, operations) =
      fail_instance-Sound (select_one (running_with id) db.instance_operations) code now
        db.instances _ marked in
    record { of_instances = rows; of_operations = operations }
