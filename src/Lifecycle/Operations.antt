-- ===== src/Lifecycle/Operations.antt =====
-- What becomes of a recorded operation, whatever the order of the transactions.
use cyber_lab_backend.Prelude.{ℕ, ◌≡◌, some, List, select_one, arith, subst, inl, inr}
use cyber_lab_backend.Schema.{Database, Operation}
use cyber_lab_backend.Hashing.{HashedText}
use cyber_lab_backend.Intents.{has_operation_id}
use cyber_lab_backend.Intents.Commits.{FreshOperation}
use cyber_lab_backend.Intents.Recording.{
  Appends, AppendsIf, create-Appends, extend-Appends, destroy-Appends,
}
use cyber_lab_backend.Runtime.Admission.Recording.{prepare_spawn-operations}
use cyber_lab_backend.Runtime.Outcomes.Recording.{
  complete_spawn-operations, complete_stop-operations, mark_instance_failed-operations,
}
use cyber_lab_backend.Jobs.Recording.{
  recover-Recorded, mark_queued-Recorded, claim-Recorded, mark_succeeded-Recorded,
  mark_failed-Recorded, maintenance-Recorded,
}
use cyber_lab_backend.Cleanup.{CleanupIntent}
use cyber_lab_backend.Cleanup.Repository.{complete_cleanup}
use cyber_lab_backend.Lifecycle.Persistence.{Persists, Persists-refl, Recorded, Recorded-insert}
use cyber_lab_backend.Lifecycle.Step.{
  Step, creates, extends, destroys, prepares, completes, stops, fails, recovers, queues, claims,
  succeeds, gives_up, maintains, cleans, elsewhere, Reach, here, next,
}

appended :
    (o : Operation) (id : ℕ) (db later : Database)
    → FreshOperation id db
    → Appends id db later
    → Recorded o db.instance_operations
    → Recorded o later.instance_operations
appended o id db later fresh (inl same) r = rw same r
appended o id db later fresh (inr (n, own, same)) r =
    rw same (Recorded-insert o n db.instance_operations (rw own fresh) r)

cleanup-operations :
    (intents : List CleanupIntent) (now : ℕ) (db later : Database)
    → complete_cleanup intents now db ≡ some later
    → later.instance_operations ≡ db.instance_operations
unfolding complete_cleanup
cleanup-operations intents now db later e = ground arith

module _ (sha256 : HashedText → ℕ) where
  Step-Recorded :
      {db last : Database} (o : Operation)
      → Step sha256 db last
      → Recorded o db.instance_operations
      → Recorded o last.instance_operations
  Step-Recorded {db} {last} o (creates i id input _ fresh _ e) =
      appended o id db last fresh (subst (AppendsIf id db) e (create-Appends i id input db))
  Step-Recorded {db} {last} o (extends id input fresh e) =
      appended o id db last fresh (subst (AppendsIf id db) e (extend-Appends id input db))
  Step-Recorded {db} {last} o (destroys id input fresh e) =
      appended o id db last fresh (subst (AppendsIf id db) e (destroy-Appends id input db))
  Step-Recorded {db} {last} o (prepares {result = result} input e) =
      λ r. rw (prepare_spawn-operations input db last result e) r
  Step-Recorded {db} o (completes input) = λ r. rw (complete_spawn-operations input db) r
  Step-Recorded {db} o (stops i s now) = λ r. rw (complete_stop-operations i s now db) r
  Step-Recorded {db} o (fails i code now) =
      λ r. rw (mark_instance_failed-operations i code now db) r
  Step-Recorded {db} o (recovers before now) = recover-Recorded o before now db
  Step-Recorded {db} o (queues id now) = mark_queued-Recorded o id now db
  Step-Recorded {db} {last} o (claims {result = result} id now e) =
      claim-Recorded o id now db last result e
  Step-Recorded {db} o (succeeds id now) = mark_succeeded-Recorded o id now db
  Step-Recorded {db} o (gives_up id code now) = mark_failed-Recorded o id code now db
  Step-Recorded {db} o (maintains reap_id reconcile_id now bucket) =
      maintenance-Recorded sha256 reap_id reconcile_id now bucket o db
  Step-Recorded {db} {last} o (cleans intents now e) =
      λ r. rw (cleanup-operations intents now db last e) r
  Step-Recorded o (elsewhere rows operations) = λ r. rw operations r

  Reach-Recorded :
      {db last : Database} (o : Operation)
      → Reach sha256 db last
      → Recorded o db.instance_operations
      → Recorded o last.instance_operations
  Reach-Recorded o here r = r
  Reach-Recorded o (next reach step) r = Step-Recorded o step (Reach-Recorded o reach r)

  -- After any history of transactions of the API, the worker, the maintenance timer and the
  -- sweeper, where new rows get new ids, a recorded operation is still in its table under its id,
  -- for the same instance, user, type, idempotency key and request hash, and if it had succeeded or
  -- failed, its row is unchanged.
  pub Reach-Persists :
      {db last : Database} (o : Operation)
      → Reach sha256 db last
      → select_one (has_operation_id o.id) db.instance_operations ≡ some o
      → (p : Operation) × (select_one (has_operation_id o.id) last.instance_operations ≡ some p)
        × Persists o p
  Reach-Persists o reach found = Reach-Recorded o reach (o, found, Persists-refl o)
