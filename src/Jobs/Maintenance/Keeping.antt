-- ===== src/Jobs/Maintenance/Keeping.antt =====
-- The maintenance intents keep the lifecycle tables sound, whatever ids they are given.
use cyber_lab_backend.Prelude.{
  ℕ, All-map, ==_refl, All-select_where, ◌≡◌, refl, true, arith, List, [], ◌∷◌, Bool-cases, inl,
  inr, All, select_where, exists_where, ◌||◌, exists-update, All-everywhere, ◌∙◌,
}
use cyber_lab_backend.Schema.{Database, Instance, Operation}
use cyber_lab_backend.Hashing.{HashedText}
use cyber_lab_backend.Intents.{has_id, has_operation_id, used_key}
use cyber_lab_backend.Validity.{IsValid, RefersTo}
use cyber_lab_backend.Validity.Updates.{insert-HoldsOperations}
use cyber_lab_backend.Validity.Steps.{instances-Sound}
use cyber_lab_backend.Jobs.Maintenance.{
  insert_or_ignore, run_out, reapable, stopping_row, reconcilable, reap_operation, reap_one,
  reap_all, reconcile_operation, reconcile_all, create_maintenance_intents,
}

insert_or_ignore-IsValid :
    (o : Operation) (db : Database)
    → RefersTo db.instances o
    → IsValid db
    → IsValid (insert_or_ignore o db)
unfolding insert_or_ignore
insert_or_ignore-IsValid o db refers v =
    elim (Bool-cases (
      exists_where (has_operation_id o.id) db.instance_operations
      || exists_where (used_key o.user_id o.type o.idempotency_key) db.instance_operations)) [
        | inl taken ↦ rw taken v
        | inr free ↦ rw free (record {
          of_instances = v.of_instances;
          of_operations =
              insert-HoldsOperations db.instances o db.instance_operations (ground (arith, free))
                (ground (arith, free)) refers v.of_operations;
        })
      ]

-- The rows stand in the table.
abbrev Stands : List Instance → Instance → Type 0
Stands rows r = exists_where (has_id r.id) rows ≡ true

insert_or_ignore-instances :
    (o : Operation) (db : Database) → (insert_or_ignore o db).instances ≡ db.instances
unfolding insert_or_ignore
insert_or_ignore-instances o db = ground arith

All-stand : (rows : List Instance) → All (Stands rows) rows
All-stand [] = tt
All-stand (r ∷ rows) = (
  rw (==_refl r.id),
  All-map (Stands rows) (Stands (r ∷ rows)) rows (λ y h. ground (arith, h)) (All-stand rows),
)

module _ (sha256 : HashedText → ℕ) (reap_id reconcile_id : ℕ → ℕ) (now bucket : ℕ) where
  reap_one-IsValid :
      (r : Instance) (db : Database)
      → Stands db.instances r
      → IsValid db
      → IsValid (reap_one sha256 reap_id reconcile_id now bucket r db)
  unfolding reap_one
  reap_one-IsValid r db stands v =
      let inserted =
        insert_or_ignore-IsValid (reap_operation sha256 reap_id reconcile_id now bucket r) db stands
          v in
      let (rows, operations) =
        instances-Sound (reapable r.id) (stopping_row now)
          (λ y h. record { id = refl; user = refl; wakes_none = λ a. ground (arith, h) }) (λ y w. w)
          _ _ (inserted.of_instances, inserted.of_operations) in
      record { of_instances = rows; of_operations = operations }

  reap_one-Stands :
      (r y : Instance) (db : Database)
      → Stands db.instances y
      → Stands (reap_one sha256 reap_id reconcile_id now bucket r db).instances y
  unfolding reap_one
  reap_one-Stands r y db h =
      exists-update (has_id y.id) (reapable r.id) (stopping_row now) _ (
        All-everywhere
          (λ x. reapable r.id x ≡ true → has_id y.id (stopping_row now x) ≡ has_id y.id x) _
          (λ x _. refl))
      ∙ (rw
          (insert_or_ignore-instances (reap_operation sha256 reap_id reconcile_id now bucket r) db)
          h)

  reap_all-IsValid :
      (expired : List Instance) (db : Database)
      → All (Stands db.instances) expired
      → IsValid db
      → IsValid (reap_all sha256 reap_id reconcile_id now bucket expired db)
  unfolding reap_all
  reap_all-IsValid [] db stand v = v
  reap_all-IsValid (r ∷ expired) db (here, later) v =
      reap_all-IsValid expired (reap_one sha256 reap_id reconcile_id now bucket r db)
        (All-map (Stands db.instances)
          (Stands (reap_one sha256 reap_id reconcile_id now bucket r db).instances) expired
          (λ y h. reap_one-Stands r y db h) later)
        (reap_one-IsValid r db here v)

  reconcile_all-IsValid :
      (active : List Instance) (db : Database)
      → All (Stands db.instances) active
      → IsValid db
      → IsValid (reconcile_all sha256 reap_id reconcile_id now bucket active db)
  unfolding reconcile_all
  reconcile_all-IsValid [] db stand v = v
  reconcile_all-IsValid (r ∷ active) db (here, later) v =
      let o = reconcile_operation sha256 reap_id reconcile_id now bucket r in
      reconcile_all-IsValid active (insert_or_ignore o db)
        (rw (insert_or_ignore-instances o db) later) (insert_or_ignore-IsValid o db here v)

  pub maintenance-IsValid :
      (db : Database)
      → IsValid db
      → IsValid (create_maintenance_intents sha256 reap_id reconcile_id now bucket db)
  unfolding create_maintenance_intents
  maintenance-IsValid db v =
      let reaped =
        reap_all sha256 reap_id reconcile_id now bucket (select_where (run_out now) db.instances)
          db in
      reconcile_all-IsValid
        (select_where (reconcilable reaped.instance_operations) reaped.instances) reaped
        (All-select_where (Stands reaped.instances) (reconcilable reaped.instance_operations)
          reaped.instances (All-stand reaped.instances))
        (reap_all-IsValid (select_where (run_out now) db.instances) db
          (All-select_where (Stands db.instances) (run_out now) db.instances
            (All-stand db.instances))
          v)
