-- ===== src/Examples.antt =====
-- A small database that the examples start from: one player, one published web challenge, one lab
-- node with one slot.
mod History
mod Accounts
mod Limits
mod Flags
mod Queue
mod Sweeping
mod Working
mod Docking
mod Requests
mod Hosting
use cyber_lab_backend.Prelude.{ℕ, ◌+◌, true, Option, none, some, String, [], ◌∷◌, arith}
use cyber_lab_backend.Schema.{
  Database, User, Challenge, LabNode, LabNodeStatus, AccountStatus, player, web, client,
  IdempotencyKey, OperationType, reap_key, reconcile_key,
}
use cyber_lab_backend.Hashing.{HashedText, key_text, bucket_text, challenge_json, action_json}
use cyber_lab_backend.Validity.{IsValid}
use cyber_lab_backend.Intents.{CreateIntent}

abbrev pub alice : User
alice = record {
  id = 7;
  email = "alice@example.org";
  password_hash = 99;
  display_name = "Alice";
  role = player;
  status = AccountStatus.active;
  email_verified_at = some 1;
  updated_at = 1;
}

abbrev pub challenge : Challenge
challenge = record { id = 3; points = 50; kind = web; published = true }

abbrev pub node : LabNode
node = record {
  id = 5;
  name = "node";
  status = LabNodeStatus.active;
  capacity_slots = 1;
  last_seen_at = none;
  created_at = 1;
  updated_at = 1;
}

abbrev pub start : Database
start = record {
  users = alice ∷ [];
  sessions = [];
  email_tokens = [];
  challenges = challenge ∷ [];
  lab_nodes = node ∷ [];
  instances = [];
  instance_operations = [];
  submissions = [];
  solves = [];
  audit_events = [];
}

pub start-IsValid : IsValid start
start-IsValid = record {
  of_instances = record { one_id = λ id. omega arith; one_active = λ u. omega arith; expiry = tt };
  of_operations = record {
    one_id = λ id. omega arith;
    one_key = λ u t k. omega arith;
    references = tt;
  };
}

-- A digest for the examples.
abbrev pub digest : HashedText → ℕ
digest (key_text k) = 1
digest (bucket_text i b) = i + b
digest (challenge_json c) = c
digest (action_json i t) = i
