-- ===== src/Worker.antt =====
-- The worker: src/services/docker-lifecycle-handler.ts, src/queue/lifecycle-queue.ts,
-- src/services/serialized-lifecycle-runner.ts and the loops of src/worker.ts.
pub mod Handler
pub mod Queue
pub mod Reaching
pub mod Histories
pub mod Serving
pub mod Inversion
pub mod Absence
pub mod Dispatching
pub mod Hosting
pub mod Refinement
use cyber_lab_backend.Prelude.{ℕ, Option, String}
use cyber_lab_backend.Actions.{Call}
use cyber_lab_backend.Orchestrator.{RuntimeManifest}
use cyber_lab_backend.Submissions.{InstanceFlagContext}

-- The clock and `randomBytes`.
pub record Environment (W : Type 0) : Type 0 where
  pub clock : Call W ℕ
  pub random_key : Call W ℕ

-- What the handler was constructed with, besides the state repository and the orchestrator.
pub record HandlerConfig : Type 0 where
  pub manifest_of : ℕ → Option RuntimeManifest
  pub derive : InstanceFlagContext → String
  pub node_id : ℕ
