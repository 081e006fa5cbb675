-- ===== src/Intents/Commits.antt =====
-- What it is for an intent to commit, and what an unused idempotency key means.
use cyber_lab_backend.Prelude.{
  ℕ, ◌≡◌, false, none, some, exists_where, select_one, arith, Option-cases, inl, inr,
  not_exists_of_select, All-select_one,
}
use cyber_lab_backend.Schema.{Database, OperationType, IdempotencyKey}
use cyber_lab_backend.Intents.{
  Transaction, MutationResult, has_id, has_operation_id, used_key, find_operation,
}
use cyber_lab_backend.Validity.{HoldsOperations, RefersTo}

-- The ids that the database makes up are new.
abbrev pub FreshOperation : ℕ → Database → Type 0
FreshOperation id db = exists_where (has_operation_id id) db.instance_operations ≡ false

abbrev pub FreshInstance : ℕ → Database → Type 0
FreshInstance id db = exists_where (has_id id) db.instances ≡ false

-- The transaction returns, and leaves sound tables.
abbrev pub Commits : (Database → Type 0) → Transaction MutationResult → Type 0
Commits P none = ⊥
Commits P (some (db, result)) = P db

pub unused_of_none :
    (db : Database) (u : ℕ) (t : OperationType) (k : IdempotencyKey)
    → HoldsOperations db.instances db.instance_operations
    → find_operation db u t k ≡ none
    → exists_where (used_key u t k) db.instance_operations ≡ false
unfolding find_operation
unused_of_none db u t k v e =
    elim (Option-cases (select_one (used_key u t k) db.instance_operations)) [
      | inl missing ↦ not_exists_of_select (used_key u t k) db.instance_operations missing
      | inr (o, found) ↦
          let refers =
            All-select_one (RefersTo db.instances) (used_key u t k) db.instance_operations o
              v.references found in
          ground (arith, not_exists_of_select (has_id o.instance_id) db.instances, refers)
    ]
