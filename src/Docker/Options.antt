-- ===== src/Docker/Options.antt =====
-- What a spawn asks of the host: the checks of `verifyHostSecurity` on the host's information, the
-- options of `createNetwork`, and `buildContainerOptions`, in src/orchestrator/docker-adapter.ts.
use cyber_lab_backend.Prelude.{
  ℕ, ◌*◌, Bool, true, false, not, ◌&&◌, ltb, Option, none, some, [], ◌∷◌, exists_where,
}
use cyber_lab_backend.Orchestrator.{SpawnTargetInput}
use cyber_lab_backend.Docker.{of_container, of_network, resource_name, managed_labels}
use cyber_lab_backend.Docker.Client.{
  NetworkOptions, ContainerOptions, SecurityOption, userns, apparmor, seccomp, HostInfo,
}

abbrev is_userns : SecurityOption → Bool
is_userns userns = true
is_userns _ = false

abbrev is_seccomp : SecurityOption → Bool
is_seccomp (seccomp built_in) = built_in
is_seccomp _ = false

abbrev is_apparmor : SecurityOption → Bool
is_apparmor apparmor = true
is_apparmor _ = false

abbrev is_recent : Option ℕ → Bool
is_recent none = false
is_recent (some major) = not (ltb major 28)

abbrev pub is_secure : HostInfo → Bool
is_secure info =
    exists_where is_userns info.security_options
    && exists_where is_seccomp info.security_options
    && exists_where is_apparmor info.security_options
    && is_recent info.server_major

abbrev pub network_options : SpawnTargetInput → NetworkOptions
network_options input = record {
  name = resource_name of_network input.instance_id;
  driver = "bridge";
  enable_ipv6 = false;
  internal = true;
  attachable = false;
  check_duplicate = true;
  labels = managed_labels input.instance_id input.challenge_id;
  gateway_mode_ipv4 = some "isolated";
  gateway_mode_ipv6 = some "isolated";
}

abbrev pub build_container_options : SpawnTargetInput → ContainerOptions
build_container_options input = record {
  name = resource_name of_container input.instance_id;
  image = input.manifest.image;
  user = input.manifest.user;
  cmd = input.manifest.command;
  flag = input.flag;
  labels = managed_labels input.instance_id input.challenge_id;
  exposed_port = input.manifest.container_port;
  stop_timeout = 10;
  healthcheck = record {
    test = input.manifest.healthcheck.test;
    interval = input.manifest.healthcheck.interval_seconds * 1000000000;
    timeout = input.manifest.healthcheck.timeout_seconds * 1000000000;
    retries = input.manifest.healthcheck.retries;
    start_period = 2 * 1000000000;
  };
  auto_remove = false;
  cap_drop = "ALL" ∷ [];
  init = true;
  memory = input.manifest.resources.memory_mb * 1024 * 1024;
  memory_swap = input.manifest.resources.memory_mb * 1024 * 1024;
  nano_cpus = input.manifest.resources.nano_cpus;
  network_mode = resource_name of_network input.instance_id;
  ipc_mode = "none";
  pids_limit = input.manifest.resources.pids;
  privileged = false;
  readonly_rootfs = true;
  security_opt = "no-new-privileges:true" ∷ "apparmor=docker-default" ∷ [];
  tmpfs_mb = input.manifest.resources.tmpfs_mb;
  log_max_size = "10m";
  log_max_file = "2";
  network = resource_name of_network input.instance_id;
  aliases = resource_name of_container input.instance_id ∷ [];
}
