-- ===== src/Lifecycle/Reachable.antt =====
-- What holds of the lifecycle tables after any history of transactions.
use cyber_lab_backend.Prelude.{ℕ, ◌≡◌, some, subst, select_one}
use cyber_lab_backend.Schema.{Database, Instance}
use cyber_lab_backend.Hashing.{HashedText}
use cyber_lab_backend.Validity.{IsValid}
use cyber_lab_backend.Intents.{has_id}
use cyber_lab_backend.Intents.Commits.{Commits}
use cyber_lab_backend.Intents.Creating.{create-IsValid}
use cyber_lab_backend.Intents.Extending.{extend-IsValid}
use cyber_lab_backend.Intents.Destroying.{destroy-IsValid}
use cyber_lab_backend.Intents.Advancing.{From, create-From, extend-From, destroy-From}
use cyber_lab_backend.Runtime.Admission.Keeping.{KeepsSound, prepare_spawn-IsValid}
use cyber_lab_backend.Runtime.Admission.Advancing.{EvolvesFrom, prepare_spawn-From}
use cyber_lab_backend.Runtime.Outcomes.Keeping.{
  complete_spawn-IsValid, complete_stop-IsValid, mark_instance_failed-IsValid,
}
use cyber_lab_backend.Runtime.Outcomes.Advancing.{
  complete_spawn-From, complete_stop-From, mark_instance_failed-From,
}
use cyber_lab_backend.Jobs.Keeping.{
  recover-IsValid, mark_queued-IsValid, claim-IsValid, mark_succeeded-IsValid, mark_failed-IsValid,
}
use cyber_lab_backend.Jobs.Advancing.{
  recover-From, mark_queued-From, mark_succeeded-From, claim-From, mark_failed-From,
  maintenance-From,
}
use cyber_lab_backend.Jobs.Maintenance.Keeping.{maintenance-IsValid}
use cyber_lab_backend.Cleanup.Keeping.{Cleaned, complete_cleanup-Cleaned}
use cyber_lab_backend.Lifecycle.Evolution.{Evolves-refl, Evolves-trans, Evolves-row, Follows}
use cyber_lab_backend.Lifecycle.Step.{
  Step, creates, extends, destroys, prepares, completes, stops, fails, recovers, queues, claims,
  succeeds, gives_up, maintains, cleans, elsewhere, Reach, here, next,
}

module _ (sha256 : HashedText → ℕ) where
  -- Every transaction keeps the unique indexes, the references and the limits.
  pub Step-IsValid : {db last : Database} → Step sha256 db last → IsValid db → IsValid last
  Step-IsValid {db} (creates i o input fresh_i fresh_o limit e) v =
      subst (Commits IsValid) e (create-IsValid i o input db v fresh_i fresh_o limit)
  Step-IsValid {db} (extends o input fresh e) v =
      subst (Commits IsValid) e (extend-IsValid o input db v fresh)
  Step-IsValid {db} (destroys o input fresh e) v =
      subst (Commits IsValid) e (destroy-IsValid o input db v fresh)
  Step-IsValid {db} (prepares input e) v = subst KeepsSound e (prepare_spawn-IsValid input db v)
  Step-IsValid {db} (completes input) v = complete_spawn-IsValid input db v
  Step-IsValid {db} (stops i s now) v = complete_stop-IsValid i s now db v
  Step-IsValid {db} (fails i code now) v = mark_instance_failed-IsValid i code now db v
  Step-IsValid {db} (recovers before now) v = recover-IsValid before now db v
  Step-IsValid {db} (queues o now) v = mark_queued-IsValid o now db v
  Step-IsValid {db} (claims o now e) v = subst KeepsSound e (claim-IsValid o now db v)
  Step-IsValid {db} (succeeds o now) v = mark_succeeded-IsValid o now db v
  Step-IsValid {db} (gives_up o code now) v = mark_failed-IsValid o code now db v
  Step-IsValid {db} (maintains reap_id reconcile_id now bucket) v =
      maintenance-IsValid sha256 reap_id reconcile_id now bucket db v
  Step-IsValid {db} (cleans intents now e) v =
      (subst (Cleaned db) e (complete_cleanup-Cleaned intents now db)).0 v
  Step-IsValid (elsewhere rows operations) v = record {
    of_instances = rw rows v.of_instances;
    of_operations = rw (rows, operations) v.of_operations;
  }

  pub Step-From : {db last : Database} → Step sha256 db last → IsValid db → From db last
  Step-From {db} (creates i o input _ _ _ e) v =
      subst (Commits (From db)) e (create-From i o input db)
  Step-From {db} (extends o input fresh e) v =
      subst (Commits (From db)) e (extend-From o input db v)
  Step-From {db} (destroys o input fresh e) v =
      subst (Commits (From db)) e (destroy-From o input db v)
  Step-From {db} (prepares input e) v = subst (EvolvesFrom db) e (prepare_spawn-From input db v)
  Step-From {db} (completes input) v = complete_spawn-From input db
  Step-From {db} (stops i s now) v = complete_stop-From i s now db
  Step-From {db} (fails i code now) v = mark_instance_failed-From i code now db
  Step-From {db} (recovers before now) v = recover-From before now db
  Step-From {db} (queues o now) v = mark_queued-From o now db
  Step-From {db} (claims o now e) v = subst (EvolvesFrom db) e (claim-From o now db)
  Step-From {db} (succeeds o now) v = mark_succeeded-From o now db
  Step-From {db} (gives_up o code now) v = mark_failed-From o code now db
  Step-From {db} (maintains reap_id reconcile_id now bucket) v =
      maintenance-From sha256 reap_id reconcile_id now bucket db
  Step-From {db} (cleans intents now e) v =
      (subst (Cleaned db) e (complete_cleanup-Cleaned intents now db)).1
  Step-From {db} (elsewhere rows operations) v = rw rows (Evolves-refl db.instances)

  -- From valid lifecycle tables, every history of transactions of the API, the worker, the
  -- maintenance timer and the sweeper, in any order, where new rows get new ids and a creation asks
  -- for an expiry within its limit, leaves valid tables: a user has at most one active instance, an
  -- idempotency key is used at most once for each user and type, ids are unique, every operation
  -- refers to an instance, and no expiry is past its absolute limit.
  pub Reach-IsValid : {db last : Database} → IsValid db → Reach sha256 db last → IsValid last
  Reach-IsValid v here = v
  Reach-IsValid v (next r s) = Step-IsValid s (Reach-IsValid v r)

  Reach-From : {db last : Database} → IsValid db → Reach sha256 db last → From db last
  Reach-From {db} v here = Evolves-refl db.instances
  Reach-From v (next r s) = Evolves-trans (Reach-From v r) (Step-From s (Reach-IsValid v r))

  pub Reach-Follows :
      {db last : Database} (id : ℕ) (r : Instance)
      → IsValid db
      → Reach sha256 db last
      → select_one (has_id id) db.instances ≡ some r
      → (s : Instance) × (select_one (has_id id) last.instances ≡ some s) × Follows r s
  Reach-Follows id r v reach e =
      Evolves-row id r (Reach-From v reach) ((Reach-IsValid v reach).of_instances.one_id id) e
