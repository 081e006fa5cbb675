-- ===== src/Validity.antt =====
-- When the lifecycle tables of src/db/schema.ts are sound: the unique indexes, the foreign key and
-- the check constraints that PostgreSQL would refuse to break.
pub mod Updates
pub mod Queries
pub mod Steps
use cyber_lab_backend.Prelude.{ℕ, ◌≤◌, ◌≡◌, true, List, All, count_where, exists_where}
use cyber_lab_backend.Schema.{Database, Instance, Operation, OperationType, IdempotencyKey}
use cyber_lab_backend.Intents.{has_id, active_for, has_operation_id, used_key}

abbrev pub WithinLimit : Instance → Type 0
WithinLimit r = r.expires_at ≤ r.absolute_expires_at

abbrev pub RefersTo : List Instance → Operation → Type 0
RefersTo rows o = exists_where (has_id o.instance_id) rows ≡ true

-- Of the table `instances`: its primary key, `instances_one_active_per_user` and
-- `instances_expiry_before_absolute`.
pub record HoldsInstances (rows : List Instance) : Type 0 where
  pub one_id : (id : ℕ) → count_where (has_id id) rows ≤ 1
  pub one_active : (user_id : ℕ) → count_where (active_for user_id) rows ≤ 1
  pub expiry : All WithinLimit rows

-- Of the table `instance_operations`: its primary key, `instance_operations_idempotency_unique` and
-- the reference to the instance.
pub record HoldsOperations (rows : List Instance) (operations : List Operation) : Type 0 where
  pub one_id : (id : ℕ) → count_where (has_operation_id id) operations ≤ 1
  pub one_key :
      (user_id : ℕ) (type : OperationType) (key : IdempotencyKey)
      → count_where (used_key user_id type key) operations ≤ 1
  pub references : All (RefersTo rows) operations

pub record IsValid (db : Database) : Type 0 where
  pub of_instances : HoldsInstances db.instances
  pub of_operations : HoldsOperations db.instances db.instance_operations
