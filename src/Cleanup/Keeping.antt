-- ===== src/Cleanup/Keeping.antt =====
-- A cleanup keeps the lifecycle tables sound and every instance where it stands.
use cyber_lab_backend.Prelude.{
  ℕ, refl, Option, none, some, List, [], ◌∷◌, Bool-cases, inl, inr, exists_where, update_where,
}
use cyber_lab_backend.Schema.{Database, Instance, Operation}
use cyber_lab_backend.Validity.{IsValid}
use cyber_lab_backend.Validity.Steps.{Sound, instances-Sound}
use cyber_lab_backend.Lifecycle.Evolution.{
  Evolves, Evolves-refl, Evolves-trans, Evolves-everywhere, same_status-Follows,
}
use cyber_lab_backend.Intents.Advancing.{From}
use cyber_lab_backend.Runtime.Admission.{released}
use cyber_lab_backend.Cleanup.{CleanupIntent}
use cyber_lab_backend.Cleanup.Repository.{changed, cleanable, release_all, complete_cleanup}

release_all-Sound :
    (now : ℕ) (intents : List CleanupIntent) (rows : List Instance) (operations : List Operation)
    → Sound rows operations
    → Sound (release_all now intents rows) operations
unfolding release_all
release_all-Sound now [] rows operations v = v
release_all-Sound now (i ∷ intents) rows operations v =
    release_all-Sound now intents (update_where (cleanable i) (released now) rows) operations (
      instances-Sound (cleanable i) (released now)
        (λ y _. record { id = refl; user = refl; wakes_none = λ a. a }) (λ y w. w) rows operations
        v)

release_all-Evolves :
    (now : ℕ) (intents : List CleanupIntent) (rows : List Instance)
    → Evolves rows (release_all now intents rows)
unfolding release_all
release_all-Evolves now [] rows = Evolves-refl rows
release_all-Evolves now (i ∷ intents) rows =
    Evolves-trans
      (Evolves-everywhere (cleanable i) (released now) rows
        (λ y _. same_status-Follows y (released now y) refl refl refl refl refl refl refl))
      (release_all-Evolves now intents (update_where (cleanable i) (released now) rows))

-- What a cleanup that did not throw has kept.
abbrev pub Cleaned : Database → Option Database → Type 0
Cleaned db none = Unit {0}
Cleaned db (some next) = (IsValid db → IsValid next) × From db next

pub complete_cleanup-Cleaned :
    (intents : List CleanupIntent) (now : ℕ) (db : Database)
    → Cleaned db (complete_cleanup intents now db)
unfolding complete_cleanup
complete_cleanup-Cleaned intents now db =
    elim (Bool-cases (exists_where (changed db.instances) intents)) [
      | inl moved ↦ rw moved tt
      | inr still ↦ rw still (
        (λ v.
            let (rows, operations) =
              release_all-Sound now intents db.instances db.instance_operations
                (v.of_instances, v.of_operations) in
            record { of_instances = rows; of_operations = operations }),
        release_all-Evolves now intents db.instances,
      )
    ]
