-- ===== src/Worker/Absence.antt =====
-- An instance is recorded as ended only when its resources are gone.
use cyber_lab_backend.Prelude.{ℕ, ◌≡◌, false, some, arith, Bool-cases, inl, inr}
use cyber_lab_backend.Schema.{Database}
use cyber_lab_backend.Inventory.{ManagedRuntimeInventory}
use cyber_lab_backend.Runtime.{RuntimeInstanceState, find_instance}
use cyber_lab_backend.Runtime.Outcomes.{StopStatus, complete_stop}
use cyber_lab_backend.Jobs.{ClaimedLifecycleOperation}
use cyber_lab_backend.Orchestrator.{Orchestrator}
use cyber_lab_backend.Actions.{Host, returned, pure, raise, query, write, ◌>>=◌, ◌>>◌}
use cyber_lab_backend.Worker.{Environment, HandlerConfig}
use cyber_lab_backend.Worker.Handler.{
  remains, confirm_absent, remove_and_stop, destroy_found, destroy_instance,
}
use cyber_lab_backend.Worker.Inversion.{bind-returned, then-returned}

module _ {W : Type 0} (environment : Environment W) (orchestrator : Orchestrator W)
    (config : HandlerConfig) where
  -- From here on the tables show an end that an inventory has confirmed.
  pub record Confirmed (s : RuntimeInstanceState) (end : ℕ → Database → Database) (h' : Host W)
      : Type 0 where
    pub before : Host W
    pub seen : Host W
    pub timed : Host W
    pub inventory : ManagedRuntimeInventory
    pub now : ℕ
    pub read : orchestrator.inventory_managed_resources before ≡ (seen, returned inventory)
    pub gone : remains s inventory ≡ false
    pub clock : environment.clock seen ≡ (timed, returned now)
    pub ended : h' ≡ record timed { db = end now timed.db }

  confirmed :
      (s : RuntimeInstanceState) (end : ℕ → Database → Database) (h h' : Host W)
      → (confirm_absent environment orchestrator config s
            >> (environment.clock >>= λ now. write (end now)))
          h
        ≡ (h', returned tt)
      → Confirmed s end h'
  unfolding confirm_absent pure raise write
  confirmed s end h h' e =
      let (seen, absent, rest) = then-returned _ _ h h' tt e in
      let (mid, inventory, read, tested) = bind-returned _ _ h seen tt absent in
      let (timed, now, clock, last) = bind-returned _ _ seen h' tt rest in
      elim (Bool-cases (remains s inventory)) [
        | inl left ↦ absurd (ground (arith, tested, left))
        | inr gone ↦
            let same : mid ≡ seen = ground (arith, tested, gone) in
            record {
              before = h;
              seen = seen;
              timed = timed;
              inventory = inventory;
              now = now;
              read = rw (← same) read;
              gone = gone;
              clock = clock;
              ended = ground (arith, last);
            }
      ]

  -- A destroy or reap of an instance that is found, if it returns, has ended the instance by its
  -- last write, and only after an inventory of the host has shown no allocation of the instance and
  -- neither its recorded container nor its recorded network.
  pub destroy-Confirmed :
      (status : StopStatus) (operation : ClaimedLifecycleOperation) (s : RuntimeInstanceState)
      (h h' : Host W)
      → find_instance operation.instance.id h.db ≡ some s
      → destroy_instance environment orchestrator config status operation h ≡ (h', returned tt)
      → Confirmed s (complete_stop s.id status) h'
  unfolding destroy_instance destroy_found remove_and_stop query
  destroy-Confirmed status operation s h h' found e =
      let (mid, o, read, rest) = bind-returned _ _ h h' tt e in
      let same : o ≡ some s = ground (arith, read, found) in
      let (removed, destroyed, last) = then-returned _ _ mid h' tt (rw same at rest) in
      confirmed s (complete_stop s.id status) removed h' last
