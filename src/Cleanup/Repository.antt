-- ===== src/Cleanup/Repository.antt =====
-- src/db/managed-cleanup-repository.ts. A method is one transaction; `none` is a thrown `Error`.
use cyber_lab_backend.Prelude.{
  ℕ, Bool, true, false, not, ◌&&◌, ◌||◌, ◌==◌, if◌then◌else◌, option_eq, Option, none, some, String,
  List, [], ◌∷◌, ◌++◌, map, select_one, select_where, update_where, exists_where,
}
use cyber_lab_backend.Schema.{Database, Instance, AuditEvent, of_cleanup, in_array}
use cyber_lab_backend.Intents.{has_id, terminal_statuses}
use cyber_lab_backend.Inventory.{includes}
use cyber_lab_backend.Runtime.{RuntimeInstanceState, selection}
use cyber_lab_backend.Runtime.Admission.{reserved_on, released}
use cyber_lab_backend.Cleanup.{CleanupIntent, CleanupReason}

unfoldable pub read_snapshot : ℕ → List ℕ → Database → List RuntimeInstanceState
read_snapshot node_id observed_ids db =
    map selection
      (select_where (λ r. reserved_on node_id r || includes r.id observed_ids) db.instances)

abbrev same_record : Instance → RuntimeInstanceState → Bool
same_record r s =
    (r.user_id == s.user_id)
    && option_eq r.node_id s.node_id
    && (r.challenge_id == s.challenge_id)
    && option_eq r.route_key s.route_key
    && option_eq r.container_id s.container_id
    && option_eq r.network_id s.network_id

abbrev same_snapshot : Instance → Option RuntimeInstanceState → Bool
same_snapshot r none = false
same_snapshot r (some s) = same_record r s

abbrev same_challenge : Instance → Option ℕ → Bool
same_challenge r none = true
same_challenge r (some c) = r.challenge_id == c

abbrev at_node : Option ℕ → ℕ → Bool
at_node none node_id = true
at_node (some n) node_id = n == node_id

-- `assertUnchangedTerminalIntent` does not throw: the row is gone, or terminal and as it was.
unfoldable pub unchanged : List Instance → CleanupIntent → Bool
unchanged rows intent = elim (select_one (has_id intent.instance_id) rows) [
  | none ↦ true
  | some r ↦
      in_array r.status terminal_statuses
      && same_snapshot r intent.snapshot
      && at_node r.node_id intent.node_id
      && same_challenge r intent.allocation.challenge_id
]

abbrev pub changed : List Instance → CleanupIntent → Bool
changed rows intent = not (unchanged rows intent)

abbrev reason_text : CleanupReason → String
reason_text CleanupReason.missing = "missing"
reason_text CleanupReason.terminal = "terminal"

abbrev cleanup_event : String → String → ℕ → CleanupIntent → AuditEvent
cleanup_event event_type note now intent = record {
  actor_user_id = none;
  target_user_id = none;
  event_type = event_type;
  correlation_id = none;
  details = of_cleanup intent.instance_id intent.node_id note;
  created_at = some now;
}

unfoldable pub begin_cleanup : List CleanupIntent → (now : ℕ) → Database → Option Database
unfolding unchanged
begin_cleanup intents now db =
    if exists_where (changed db.instances) intents
    then none
    else some (record db {
      audit_events =
          map (λ i. cleanup_event "instance.orphan_cleanup_started" (reason_text i.reason) now i)
            intents
          ++ db.audit_events;
    })

abbrev pub cleanable : CleanupIntent → Instance → Bool
cleanable intent r =
    has_id intent.instance_id r
    && in_array r.status terminal_statuses
    && at_node r.node_id intent.node_id

unfoldable pub release_all : ℕ → List CleanupIntent → List Instance → List Instance
release_all now [] rows = rows
release_all now (i ∷ intents) rows =
    release_all now intents (update_where (cleanable i) (released now) rows)

unfoldable pub complete_cleanup : List CleanupIntent → (now : ℕ) → Database → Option Database
unfolding unchanged release_all
complete_cleanup intents now db =
    if exists_where (changed db.instances) intents
    then none
    else some (record db {
      instances = release_all now intents db.instances;
      audit_events =
          map (λ i. cleanup_event "instance.orphan_cleanup_succeeded" (reason_text i.reason) now i)
            intents
          ++ db.audit_events;
    })

unfoldable pub record_cleanup_failure : List CleanupIntent → (now : ℕ) → Database → Database
record_cleanup_failure intents now db = record db {
  audit_events =
      map (λ i. cleanup_event "instance.orphan_cleanup_failed" "cleanup_failed" now i) intents
      ++ db.audit_events;
}
