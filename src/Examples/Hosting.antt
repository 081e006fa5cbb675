-- ===== src/Examples/Hosting.antt =====
-- The end of a stopping instance on a Docker host that lists nothing any more.
use cyber_lab_backend.Prelude.{ℕ, ◌≡◌, refl, true, false, none}
use cyber_lab_backend.Runtime.{find_instance}
use cyber_lab_backend.Runtime.Outcomes.{StopStatus, complete_stop}
use cyber_lab_backend.Jobs.{claimed_operation}
use cyber_lab_backend.Docker.Client.{require, tolerate, or_missing}
use cyber_lab_backend.Docker.Listing.{inventory_managed_resources, visit_all, put_routes}
use cyber_lab_backend.Docker.Adapter.{
  destroy_target, container_of, network_of, managed_container, managed_network, try_container,
  try_network, find_network, assert_managed_labels, remove_container, remove_network,
  remove_inspected, remove_docker_network, detach,
}
use cyber_lab_backend.Actions.{Host, returned, pure, query, write, ◌>>=◌, ◌>>◌}
use cyber_lab_backend.Worker.{Environment}
use cyber_lab_backend.Worker.Handler.{
  destroy_instance, destroy_found, remove_and_stop, confirm_absent,
}
use cyber_lab_backend.Worker.Hosting.{
  unless_thrown, read_inventory, docker_orchestrator, IsGone, destroy_instance-IsGone,
}
use cyber_lab_backend.Examples.Queue.{newer}
use cyber_lab_backend.Examples.Working.{stopping_row, seen_state, busy, config}
use cyber_lab_backend.Examples.Docking.{docker}

abbrev clock : Environment ℕ
clock = record { clock = λ h. (h, returned 500000); random_key = λ h. (h, returned 70) }

abbrev before : Host ℕ
before = record { db = busy.db; world = 0 }

abbrev after : Host ℕ
after = record { db = complete_stop 11 StopStatus.as_stopped 500000 busy.db; world = 0 }

destroy_instance-IsGone_example :
    IsGone docker 11
    × ((timed : Host ℕ) × (now : ℕ) × (after
          ≡ record timed { db = complete_stop 11 StopStatus.as_stopped now timed.db }))
unfolding destroy_instance destroy_found remove_and_stop confirm_absent docker_orchestrator
    read_inventory unless_thrown destroy_target container_of network_of managed_container
    managed_network try_container try_network find_network assert_managed_labels remove_container
    remove_network remove_inspected remove_docker_network detach inventory_managed_resources
    visit_all put_routes find_instance require tolerate or_missing query write pure ◌>>=◌ ◌>>◌
destroy_instance-IsGone_example =
    destroy_instance-IsGone docker none (λ r. false) (λ key. true) (λ t. 4) clock config
      StopStatus.as_stopped (claimed_operation newer stopping_row) seen_state before after refl refl
