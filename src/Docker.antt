-- ===== src/Docker.antt =====
-- src/orchestrator/docker-adapter.ts: what the adapter reads of a Docker host. Identifiers are
-- numbers, with 0 for the empty one, and a UUID is a number too.
pub mod Listing
pub mod Allocating
pub mod Complete
pub mod Client
pub mod Adapter
pub mod Isolation
pub mod Options
pub mod Spawning
pub mod Launching
pub mod Started
pub mod Waiting
pub mod Clearing
pub mod Owned
use text.Mathlib.Text.{◌==◌ as text_eq}
use cyber_lab_backend.Prelude.{
  ℕ, Bool, true, false, not, ◌&&◌, ◌||◌, ◌==◌, Option, none, some, String, List, [], ◌∷◌,
  exists_where,
}

abbrev bool_eq : Bool → Bool → Bool
bool_eq true b = b
bool_eq false b = not b

-- A resource is a container or a network.
pub data Kind : Type 0 where
  of_container of_network : Kind

abbrev pub kind_eq : Kind → Kind → Bool
kind_eq of_container of_container = true
kind_eq of_network of_network = true
kind_eq _ _ = false

-- `cr-` or `crn-` and the hexadecimal digits of a UUID, with or without a slash before it; or any
-- other name.
pub data Name : Type 0 where
  reserved : (slashed : Bool) → Kind → (instance_id : ℕ) → Name
  other : String → Name

-- The text of a label: a UUID, or any other text.
pub data LabelText : Type 0 where
  uuid : ℕ → LabelText
  label_text : String → LabelText

-- Whether the label of managed resources is "true", and the two identity labels.
pub record Labels : Type 0 where
  pub managed : Bool
  pub instance_label : Option LabelText
  pub challenge_label : Option LabelText

-- `isUuid`
abbrev pub uuid_of : Option LabelText → Option ℕ
uuid_of (some (uuid id)) = some id
uuid_of _ = none

abbrev pub label_eq : LabelText → LabelText → Bool
label_eq (uuid a) (uuid b) = a == b
label_eq (label_text a) (label_text b) = text_eq a b
label_eq _ _ = false

-- `a === b` on two labels that may be missing.
abbrev pub same_label : Option LabelText → Option LabelText → Bool
same_label none none = true
same_label (some a) (some b) = label_eq a b
same_label _ _ = false

-- A label that is missing or empty is falsy.
abbrev pub has_label : Option LabelText → Bool
has_label none = false
has_label (some (uuid id)) = true
has_label (some (label_text t)) = not (text_eq t "")

-- `assertManagedLabels`
abbrev pub has_managed_labels : Labels → ℕ → Bool
has_managed_labels labels instance_id =
    labels.managed && same_label labels.instance_label (some (uuid instance_id))

-- What a listing shows of a resource. A network has one name.
pub record Resource : Type 0 where
  pub id : ℕ
  pub names : List Name
  pub labels : Labels

abbrev pub is_reserved : Name → Bool
is_reserved (reserved slashed kind instance_id) = true
is_reserved (other n) = false

-- `/cr-…` of a container, and `crn-…` of a network
abbrev pub is_canonical : Kind → ℕ → Name → Bool
is_canonical of_container id (reserved true of_container instance_id) = instance_id == id
is_canonical of_network id (reserved false of_network instance_id) = instance_id == id
is_canonical _ _ _ = false

abbrev pub name_eq : Name → Name → Bool
name_eq (reserved a kind i) (reserved b kind' j) = bool_eq a b && kind_eq kind kind' && (i == j)
name_eq (other a) (other b) = text_eq a b
name_eq _ _ = false

-- `resourceNames`
abbrev pub resource_name : Kind → ℕ → Name
resource_name kind instance_id = reserved false kind instance_id

abbrev pub managed_labels : (instance_id challenge_id : ℕ) → Labels
managed_labels instance_id challenge_id = record {
  managed = true;
  instance_label = some (uuid instance_id);
  challenge_label = some (uuid challenge_id);
}
