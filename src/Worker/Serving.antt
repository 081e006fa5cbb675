-- ===== src/Worker/Serving.antt =====
-- What the process of src/worker.ts runs: the jobs that BullMQ delivers, the jobs that it reports as
-- failed, and the two timers. The runner of src/services/serialized-lifecycle-runner.ts runs jobs and
-- sweeps one after the other, each to its end, whether or not the one before threw; a throw is
-- reported and otherwise dropped.
use cyber_lab_backend.Prelude.{ℕ, Option, List, [], ◌∷◌, if◌then◌else◌}
use cyber_lab_backend.Schema.{OperationType}
use cyber_lab_backend.Hashing.{HashedText}
use cyber_lab_backend.Cleanup.Sweeper.{CleanupRuntime, Swept, sweep}
use cyber_lab_backend.Orchestrator.{Orchestrator}
use cyber_lab_backend.Actions.{Host, Result, Call, returned, threw, pure, ignore, ◌>>=◌, ◌>>◌}
use cyber_lab_backend.Worker.{Environment, HandlerConfig}
use cyber_lab_backend.Worker.Handler.{handle}
use cyber_lab_backend.Worker.Queue.{
  dispatch_pending, schedule_maintenance, process_job, on_failed, default_limit,
}

pub data Task : Type 0 where
  job : (operation_id : ℕ) → Task
  failed_job : (operation_id attempts_made : ℕ) (attempts : Option ℕ) → Task
  dispatch_timer maintenance_timer : Task

-- What the process was constructed with.
pub record Process (W : Type 0) : Type 0 where
  pub environment : Environment W
  pub orchestrator : Orchestrator W
  pub config : HandlerConfig
  pub add : ℕ → OperationType → Call W (Unit {0})
  pub cleanup : CleanupRuntime W
  pub sha256 : HashedText → ℕ
  pub reap_id : ℕ → ℕ
  pub reconcile_id : ℕ → ℕ
  pub begun : ℕ
  pub completed : ℕ
  pub refused : ℕ

module _ {W : Type 0} where
  abbrev pub swept : Swept W → Host W × Result (Unit {0})
  swept s = (record { db = s.db; world = s.world }, if s.returned then returned tt else threw)

  unfoldable pub run_sweep : Process W → Call W (Unit {0})
  run_sweep p h =
      swept (sweep p.cleanup p.config.node_id p.begun p.completed p.refused h.db h.world)

  unfoldable pub maintain : Process W → Call W (Unit {0})
  unfolding run_sweep
  maintain p =
      run_sweep p >> schedule_maintenance p.environment p.add p.sha256 p.reap_id p.reconcile_id

  unfoldable pub dispatch : Process W → Call W (Unit {0})
  dispatch p = do count ← dispatch_pending p.environment p.add default_limit; pure tt

  unfoldable pub serve : Process W → Task → Call W (Unit {0})
  unfolding maintain dispatch
  serve p (job id) = process_job p.environment (handle p.environment p.orchestrator p.config) id
  serve p (failed_job id made attempts) = on_failed p.environment id made attempts
  serve p dispatch_timer = dispatch p
  serve p maintenance_timer = maintain p

  unfoldable pub serve_all : Process W → List Task → Call W (Unit {0})
  unfolding serve
  serve_all p [] = pure tt
  serve_all p (t ∷ tasks) = ignore (serve p t) >> serve_all p tasks
