-- ===== src/Jobs/Recording.antt =====
-- What the job repository does to a recorded operation.
use cyber_lab_backend.Prelude.{
  ℕ, ◌≡◌, refl, false, ◌||◌, Option, some, String, List, [], ◌∷◌, select_where, update_where,
  exists_where, arith, Option-cases, Bool-cases, inl, inr,
}
use cyber_lab_backend.Schema.{Database, Instance, Operation}
use cyber_lab_backend.Hashing.{HashedText}
use cyber_lab_backend.Intents.{has_operation_id, used_key}
use cyber_lab_backend.Jobs.{
  ClaimedLifecycleOperation, recover_stale_operations, mark_queued, claim_operation, claimable,
  claimed_row, joined_claim, mark_succeeded, mark_failed,
}
use cyber_lab_backend.Jobs.Maintenance.{
  insert_or_ignore, reap_operation, reap_one, reap_all, reconcile_operation, reconcile_all, run_out,
  reconcilable, create_maintenance_intents,
}
use cyber_lab_backend.Lifecycle.Persistence.{
  is_finished, Persists, Recorded, Recorded-update, Recorded-insert,
}

-- Of an update of an operation that is not finished, which leaves the request alone.
of_open :
    (o p : Operation)
    → p.id ≡ o.id
    → p.instance_id ≡ o.instance_id
    → p.user_id ≡ o.user_id
    → p.type ≡ o.type
    → p.idempotency_key ≡ o.idempotency_key
    → p.request_hash ≡ o.request_hash
    → is_finished o.status ≡ false
    → Persists o p
of_open o p i n u t k h unfinished = record {
  id = i;
  instance = n;
  user = u;
  type = t;
  key = k;
  hash = h;
  finished = λ ended. absurd (ground (arith, ended, unfinished));
}

pub recover-Recorded :
    (o : Operation) (before now : ℕ) (db : Database)
    → Recorded o db.instance_operations
    → Recorded o (recover_stale_operations before now db).instance_operations
unfolding recover_stale_operations
recover-Recorded o before now db =
    Recorded-update o _ _ db.instance_operations (λ x. refl)
      (λ x h. of_open x _ refl refl refl refl refl refl (ground (arith, h)))

pub mark_queued-Recorded :
    (o : Operation) (id now : ℕ) (db : Database)
    → Recorded o db.instance_operations
    → Recorded o (mark_queued id now db).instance_operations
unfolding mark_queued
mark_queued-Recorded o id now db =
    Recorded-update o _ _ db.instance_operations (λ x. refl)
      (λ x h. of_open x _ refl refl refl refl refl refl (ground (arith, h)))

pub mark_succeeded-Recorded :
    (o : Operation) (id now : ℕ) (db : Database)
    → Recorded o db.instance_operations
    → Recorded o (mark_succeeded id now db).instance_operations
unfolding mark_succeeded
mark_succeeded-Recorded o id now db =
    Recorded-update o _ _ db.instance_operations (λ x. refl)
      (λ x h. of_open x _ refl refl refl refl refl refl (ground (arith, h)))

pub mark_failed-Recorded :
    (o : Operation) (id : ℕ) (code : String) (now : ℕ) (db : Database)
    → Recorded o db.instance_operations
    → Recorded o (mark_failed id code now db).instance_operations
unfolding mark_failed
mark_failed-Recorded o id code now db =
    Recorded-update o _ _ db.instance_operations (λ x. refl)
      (λ x h. of_open x _ refl refl refl refl refl refl (ground (arith, h)))

pub claim-Recorded :
    (o : Operation) (id now : ℕ) (db next : Database) (result : Option ClaimedLifecycleOperation)
    → claim_operation id now db ≡ some (next, result)
    → Recorded o db.instance_operations
    → Recorded o next.instance_operations
unfolding claim_operation
claim-Recorded o id now db next result e r =
    let rows = update_where (claimable id) (claimed_row now) db.instance_operations in
    elim (Bool-cases (exists_where (claimable id) db.instance_operations)) [
      | inr none_there ↦
          let same : next.instance_operations ≡ db.instance_operations =
            ground (arith, none_there) in
          rw same r
      | inl there ↦ elim (Option-cases (joined_claim rows db id)) [
        | inl lost ↦ absurd (ground (arith, there, lost))
        | inr (c, joined) ↦
            let same : next.instance_operations ≡ rows = ground (arith, there, joined) in
            rw same (
              Recorded-update o (claimable id) (claimed_row now) db.instance_operations (λ x. refl)
                (λ x h.
                  of_open x (claimed_row now x) refl refl refl refl refl refl (ground (arith, h)))
                r)
      ]
    ]

insert_or_ignore-Recorded :
    (o n : Operation) (db : Database)
    → Recorded o db.instance_operations
    → Recorded o (insert_or_ignore n db).instance_operations
unfolding insert_or_ignore
insert_or_ignore-Recorded o n db r =
    elim (Bool-cases (
      exists_where (has_operation_id n.id) db.instance_operations
      || exists_where (used_key n.user_id n.type n.idempotency_key) db.instance_operations)) [
        | inl clash ↦ rw clash r
        | inr fresh ↦
            rw fresh (Recorded-insert o n db.instance_operations (ground (arith, fresh)) r)
      ]

module _ (sha256 : HashedText → ℕ) (reap_id reconcile_id : ℕ → ℕ) (now bucket : ℕ)
    (o : Operation) where
  reap_all-Recorded :
      (expired : List Instance) (db : Database)
      → Recorded o db.instance_operations
      → Recorded o (reap_all sha256 reap_id reconcile_id now bucket expired db).instance_operations
  unfolding reap_all reap_one
  reap_all-Recorded [] db r = r
  reap_all-Recorded (x ∷ expired) db r =
      reap_all-Recorded expired (reap_one sha256 reap_id reconcile_id now bucket x db)
        (insert_or_ignore-Recorded o (reap_operation sha256 reap_id reconcile_id now bucket x) db r)

  reconcile_all-Recorded :
      (active : List Instance) (db : Database)
      → Recorded o db.instance_operations
      → Recorded o
          (reconcile_all sha256 reap_id reconcile_id now bucket active db).instance_operations
  unfolding reconcile_all
  reconcile_all-Recorded [] db r = r
  reconcile_all-Recorded (x ∷ active) db r = reconcile_all-Recorded active _ (
      insert_or_ignore-Recorded o (reconcile_operation sha256 reap_id reconcile_id now bucket x) db
        r)

  pub maintenance-Recorded :
      (db : Database)
      → Recorded o db.instance_operations
      → Recorded o
          (create_maintenance_intents sha256 reap_id reconcile_id now bucket db).instance_operations
  unfolding create_maintenance_intents
  maintenance-Recorded db r =
      let reaped =
        reap_all sha256 reap_id reconcile_id now bucket (select_where (run_out now) db.instances)
          db in
      reconcile_all-Recorded
        (select_where (reconcilable reaped.instance_operations) reaped.instances) reaped
        (reap_all-Recorded (select_where (run_out now) db.instances) db r)
