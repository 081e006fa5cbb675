-- ===== src/Runtime.antt =====
-- src/db/lifecycle-state-repository.ts and src/services/lifecycle-state.ts: what the worker reads
-- and writes about an instance's runtime. As in `Intents`, a method is one transaction, a generated
-- id is an argument, and `none` is a thrown `Error`, on which nothing is written.
pub mod Admission
pub mod Outcomes
use cyber_lab_backend.Prelude.{
  ℕ, Bool, true, false, not, ◌&&◌, ◌||◌, ◌==◌, leb, ltb, if◌then◌else◌, option_eq, is_some, or_else,
  Option, none, some, String, List, [], ◌∷◌, length, map, select_one, select_where, update_where,
  exists_where,
}
use cyber_lab_backend.Schema.{
  Database, Instance, LabNode, InstanceStatus, AuditEvent, of_failure, in_array, status_eq,
  is_active_node,
}
use cyber_lab_backend.Schema
use cyber_lab_backend.Intents.{Transaction, has_id, terminal_statuses}
use mathlib.Core.Option
use text.Mathlib.Text.{◌==◌ as text_eq}

pub record RuntimeInstanceState : Type 0 where
  pub id : ℕ
  pub user_id : ℕ
  pub challenge_id : ℕ
  pub status : InstanceStatus
  pub node_id : Option ℕ
  pub route_key : Option ℕ
  pub container_id : Option ℕ
  pub network_id : Option ℕ
  pub expires_at : ℕ

abbrev pub selection : Instance → RuntimeInstanceState
selection r = record {
  id = r.id;
  user_id = r.user_id;
  challenge_id = r.challenge_id;
  status = r.status;
  node_id = r.node_id;
  route_key = r.route_key;
  container_id = r.container_id;
  network_id = r.network_id;
  expires_at = r.expires_at;
}

abbrev pub max_capacity : ℕ
max_capacity = 2147483647

abbrev named : String → LabNode → Bool
named name n = text_eq n.name name

-- The insert, or on a conflict of the name the update; the id of the row that comes back.
pub register_node : (new_id : ℕ) (name : String) (capacity_slots now : ℕ) → Database → Transaction ℕ
register_node new_id name capacity_slots now db =
    if ltb capacity_slots 1 || ltb max_capacity capacity_slots
    then none
    else elim (select_one (named name) db.lab_nodes) [
      | some n ↦ some (
        record db {
          lab_nodes =
              update_where (named name)
                (λ m. record m {
                  status = Schema.LabNodeStatus.active;
                  capacity_slots = capacity_slots;
                  last_seen_at = some now;
                  updated_at = now;
                })
                db.lab_nodes;
        },
        n.id,
      )
      | none ↦ some (
        record db {
          lab_nodes =
              record {
                id = new_id;
                name = name;
                status = Schema.LabNodeStatus.active;
                capacity_slots = capacity_slots;
                last_seen_at = some now;
                created_at = now;
                updated_at = now;
              }
              ∷ db.lab_nodes;
        },
        new_id,
      )
    ]

unfoldable pub find_instance : (instance_id : ℕ) → Database → Option RuntimeInstanceState
find_instance instance_id db = Option.map selection (select_one (has_id instance_id) db.instances)
