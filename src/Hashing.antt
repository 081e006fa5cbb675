-- ===== src/Hashing.antt =====
-- The texts that the services hash with SHA-256 (node:crypto). The hash is a parameter of what uses
-- it; a template string or a serialised JSON object is the term of its parts.
use cyber_lab_backend.Prelude.{ℕ}
use cyber_lab_backend.Schema.{IdempotencyKey, OperationType}

pub data HashedText : Type 0 where
  key_text : IdempotencyKey → HashedText
  bucket_text : (instance_id bucket : ℕ) → HashedText
  challenge_json : (challenge_id : ℕ) → HashedText
  action_json : (instance_id : ℕ) → OperationType → HashedText
