-- ===== src/Service/Lifetime.antt =====
-- How long an instance that the service created can live.
use cyber_lab_backend.Prelude.{
  ℕ, ◌+◌, ◌≤◌, ◌≡◌, false, Option, none, some, String, select_one, All-select_one, arith,
}
use cyber_lab_backend.Schema.{Database, Instance}
use cyber_lab_backend.Hashing.{HashedText}
use cyber_lab_backend.Errors.{answers}
use cyber_lab_backend.Validity.{IsValid, WithinLimit}
use cyber_lab_backend.Intents.{
  has_id, accepted, refused, InstanceMutation, MutationResult, Transaction,
}
use cyber_lab_backend.Intents.Commits.{FreshInstance, FreshOperation}
use cyber_lab_backend.Intents.Replaying.{created_operation}
use cyber_lab_backend.Lifecycle.Step.{Reach, creates}
use cyber_lab_backend.Lifecycle.Reachable.{Reach-Follows, Reach-IsValid, Step-IsValid}
use cyber_lab_backend.Service.{
  CreateRequest, MutationView, create, create_intent, resolve, absolute_lifetime_ms,
}

module _ (sha256 : HashedText → ℕ) (build_url : ℕ → String → String) (base : Option String) where
  resolve-answers :
      (db : Database) (t : Transaction MutationResult) (next : Database) (view : MutationView)
      → resolve sha256 build_url base db t ≡ (next, answers view)
      → (m : InstanceMutation) × (t ≡ some (next, accepted m)) × (m.replayed ≡ view.replayed)
  unfolding resolve
  resolve-answers db none next view e = absurd (ground arith)
  resolve-answers db (some (n, refused f)) next view e = absurd (ground arith)
  resolve-answers db (some (n, accepted m)) next view e = (m, ground arith, ground arith)

  -- An instance newly created by the service on valid tables, under new ids, is found after any
  -- later history of transactions as the same player's instance of the same challenge, and it
  -- expires at most two hours after its creation, whatever the extensions.
  pub created_expires-le :
      (instance_id operation_id now : ℕ) (input : CreateRequest) (db next last : Database)
      (view : MutationView)
      → IsValid db
      → FreshInstance instance_id db
      → FreshOperation operation_id db
      → create sha256 build_url base instance_id operation_id now input db ≡ (next, answers view)
      → view.replayed ≡ false
      → Reach sha256 next last
      → (s : Instance) × (select_one (has_id instance_id) last.instances ≡ some s)
        × (s.user_id ≡ input.user_id)
        × (s.challenge_id ≡ input.challenge_id)
        × (s.expires_at ≤ now + absolute_lifetime_ms)
  unfolding create create_intent
  created_expires-le instance_id operation_id now input db next last view v fresh_i fresh_o e new
        reach =
      let intent = create_intent sha256 build_url base now input in
      let (m, committed, same) = resolve-answers db _ next view e in
      let (_, _, row) =
        created_operation instance_id operation_id intent db next m committed
          (ground (arith, same, new)) in
      let valid =
        Step-IsValid sha256
          (creates instance_id operation_id intent fresh_i fresh_o (omega arith) committed) v in
      let (s, found, follows) = Reach-Follows sha256 instance_id _ valid reach row in
      let within =
        All-select_one WithinLimit (has_id instance_id) last.instances s
          (Reach-IsValid sha256 valid reach).of_instances.expiry found in
      (s, found, follows.user, follows.challenge, omega (arith, within, follows.limit))
