-- ===== src/Docker/Client.antt =====
-- The calls of the Docker client and of the router that the adapter makes; both are parameters.
use cyber_lab_backend.Prelude.{
  ℕ, Bool, false, Option, none, some, String, List, ◌==◌, ◌||◌, if◌then◌else◌,
}
use cyber_lab_backend.Docker.{Name, Labels, Resource}
use cyber_lab_backend.Actions.{Call, pure, raise}

-- A call answers, or throws an error that may have the status of an answer.
pub data Reply (A : Type 0) : Type 0 where
  replied : A → Reply A
  failed : (status_code : Option ℕ) → Reply A

pub data Health : Type 0 where
  is_starting is_healthy is_unhealthy : Health

-- What an inspection shows of a container, with the names of the networks it is attached to.
pub record ContainerInfo : Type 0 where
  pub id : ℕ
  pub name : Name
  pub labels : Labels
  pub oom_killed : Bool
  pub running : Bool
  pub health : Option Health
  pub networks : List Name

-- What an inspection shows of a network; a gateway mode may be missing.
pub record NetworkInfo : Type 0 where
  pub id : ℕ
  pub name : Name
  pub labels : Labels
  pub driver : String
  pub enable_ipv6 : Bool
  pub internal : Bool
  pub attachable : Bool
  pub gateway_mode_ipv4 : Option String
  pub gateway_mode_ipv6 : Option String
  -- the identifiers and the names of the containers on it
  pub containers : List (ℕ × Name)

pub record NetworkOptions : Type 0 where
  pub name : Name
  pub driver : String
  pub enable_ipv6 : Bool
  pub internal : Bool
  pub attachable : Bool
  pub check_duplicate : Bool
  pub labels : Labels
  pub gateway_mode_ipv4 : Option String
  pub gateway_mode_ipv6 : Option String

pub record ContainerHealthcheck : Type 0 where
  pub test : List String
  pub interval : ℕ
  pub timeout : ℕ
  pub retries : ℕ
  pub start_period : ℕ

pub record ContainerOptions : Type 0 where
  pub name : Name
  pub image : String
  pub user : String
  pub cmd : Option (List String)
  pub flag : String
  pub labels : Labels
  pub exposed_port : ℕ
  pub stop_timeout : ℕ
  pub healthcheck : ContainerHealthcheck
  pub auto_remove : Bool
  pub cap_drop : List String
  pub init : Bool
  pub memory : ℕ
  pub memory_swap : ℕ
  pub nano_cpus : ℕ
  pub network_mode : Name
  pub ipc_mode : String
  pub pids_limit : ℕ
  pub privileged : Bool
  pub readonly_rootfs : Bool
  pub security_opt : List String
  pub tmpfs_mb : ℕ
  pub log_max_size : String
  pub log_max_file : String
  pub network : Name
  pub aliases : List Name

pub record Route : Type 0 where
  pub instance_id : ℕ
  pub route_key : ℕ
  pub target_host : Name
  pub target_port : ℕ

-- The security options that the adapter looks for; a seccomp profile is built in, or not.
pub data SecurityOption : Type 0 where
  userns apparmor : SecurityOption
  seccomp : (is_built_in : Bool) → SecurityOption
  other_option : String → SecurityOption

-- The major number of the server's version, if it starts with one.
pub record HostInfo : Type 0 where
  pub security_options : List SecurityOption
  pub server_major : Option ℕ

-- The routes are listed by the router, with `none` for one of something that is no UUID. The other lists
-- are of all resources, and of those under the managed label and an instance's.
pub record Client (W : Type 0) : Type 0 where
  pub list_all_containers : Call W (List Resource)
  pub list_all_networks : Call W (List Resource)
  pub list_instance_ids : Call W (List (Option ℕ))
  pub list_containers : ℕ → Call W (List ℕ)
  pub list_networks : ℕ → Call W (List ℕ)
  pub inspect_container : ℕ → Call W (Reply ContainerInfo)
  pub inspect_named : Name → Call W (Reply ContainerInfo)
  pub has_image : String → Call W (Reply (Unit {0}))
  pub inspect_network : ℕ → Call W (Reply NetworkInfo)
  pub create_container : ContainerOptions → Call W (Reply ℕ)
  pub create_network : NetworkOptions → Call W (Reply ℕ)
  pub start_container : ℕ → Call W (Reply (Unit {0}))
  pub stop_container : ℕ → Call W (Reply (Unit {0}))
  pub delete_container : ℕ → Call W (Reply (Unit {0}))
  pub delete_network : ℕ → Call W (Reply (Unit {0}))
  pub connect : (network_id : ℕ) → Name → Call W (Reply (Unit {0}))
  pub disconnect : (network_id container_id : ℕ) → Call W (Reply (Unit {0}))
  pub upsert_route : Route → Call W (Unit {0})
  pub remove_route : ℕ → Call W (Unit {0})
  pub validate_managed_route : ℕ → Call W (Unit {0})
  pub now : Call W ℕ
  pub pause : Call W (Unit {0})
  pub info : Call W HostInfo
  -- the adapter's own field `hostVerified`
  pub host_verified : Call W Bool
  pub set_host_verified : Call W (Unit {0})

abbrev pub has_status : ℕ → Option ℕ → Bool
has_status status none = false
has_status status (some code) = code == status

-- `isDockerNotFound`, `isDockerNotFoundOrStopped`, `isDockerAlreadyStarted`, `isDockerConflict`
abbrev pub is_docker_not_found : Option ℕ → Bool
is_docker_not_found status_code = has_status 404 status_code

abbrev pub is_docker_already_started : Option ℕ → Bool
is_docker_already_started status_code = has_status 304 status_code

abbrev pub is_docker_not_found_or_stopped : Option ℕ → Bool
is_docker_not_found_or_stopped status_code =
    has_status 304 status_code || has_status 404 status_code

abbrev pub is_docker_conflict : Option ℕ → Bool
is_docker_conflict status_code = has_status 409 status_code

module _ {W : Type 0} where
  unfoldable pub require : {A : Type 0} → Reply A → Call W A
  require (replied a) = pure a
  require (failed status_code) = raise

  -- A `catch` that lets some errors pass.
  unfoldable pub tolerate : (Option ℕ → Bool) → Reply (Unit {0}) → Call W (Unit {0})
  tolerate allowed (replied a) = pure tt
  tolerate allowed (failed status_code) = if allowed status_code then pure tt else raise

  -- `null` for what is not found.
  unfoldable pub or_missing : {A : Type 0} → Reply A → Call W (Option A)
  or_missing (replied a) = pure (some a)
  or_missing (failed status_code) = if is_docker_not_found status_code then pure none else raise
