-- ===== src/Schema.antt =====
-- src/db/schema.ts: the tables of the database.
-- Identifiers (UUIDs), hashes, route keys and Engine ids are only stored and compared: they are
-- numbers. A `Date` is its epoch milliseconds. A nullable column is an `Option`.
mod Enums
mod Rows
pub use Enums.*
pub use Rows.*
use cyber_lab_backend.Prelude.{List}

-- The tables, newest row first.
pub record Database : Type 0 where
  pub users : List User
  pub sessions : List Session
  pub email_tokens : List EmailToken
  pub challenges : List Challenge
  pub lab_nodes : List LabNode
  pub instances : List Instance
  pub instance_operations : List Operation
  pub submissions : List Submission
  pub solves : List Solve
  pub audit_events : List AuditEvent
