-- ===== src/Lib.antt =====
-- The backend of the cyber lab: players start, extend and destroy instances of challenges, a worker
-- carries the requests out on a lab node, and flags that players submit are scored.
--
-- The parts and how they interact. A route authorises a request (Auth.Scope) against a live session
-- (Auth.Service), charges the player's limit (RateLimiter) and calls a service (Routes); what is thrown
-- becomes an answer in one place (Errors.Handler). The lifecycle service (Service) turns a request into
-- an intent, which one transaction writes as an instance and an operation (Intents). The operations are
-- a durable queue: a dispatcher lists them, a worker claims them and a maintenance timer adds its own (Jobs,
-- Worker.Queue). The worker's handler (Worker.Handler) reserves a place on the node and records what
-- became of the runtime (Runtime), and drives the Docker host through an adapter (Docker). A sweeper
-- compares the node's inventory with the tables and frees what was left over (Cleanup). They share the
-- tables of one database (Schema), and the worker the host.
--
-- Which file models which source:
--   Schema, Schema/Enums, Schema/Rows      src/db/schema.ts: rows as records, enumerations as data
--   Validity                               the indexes, references and checks of src/db/schema.ts
--   Errors                                 src/lib/errors.ts (AppError and its constructors)
--   Errors/Handler                         src/plugins/error-handler.ts
--   Inventory                              src/services/runtime-inventory.ts
--   Hashing                                the texts given to SHA-256
--   Intents, Intents/Types, Intents/Tables src/db/instance-lifecycle-repository.ts:
--     createInstanceIntent, extendInstanceIntent, destroyInstanceIntent, findOperation, the reads
--   Service                                src/services/instance-lifecycle.ts (InstanceLifecycleService)
--   Runtime, Runtime/Admission, Runtime/Outcomes
--                                          src/db/lifecycle-state-repository.ts (registerNode,
--     prepareSpawn, completeSpawn, completeStop, markInstanceFailed, findInstance)
--   Jobs, Jobs/Maintenance                 src/db/lifecycle-job-repository.ts, src/queue/contracts.ts
--   Cleanup, Cleanup/Plan, Cleanup/Sweeper src/services/managed-resource-cleanup.ts
--   Cleanup/Repository                     src/db/managed-cleanup-repository.ts
--   Scoring                                src/db/scoring-repository.ts
--   Submissions                            src/services/submissions.ts, src/services/instance-flags.ts
--   Submissions/Policy                     src/services/runtime-flags.ts, src/welcome-lab-config.ts
--   RateLimiter                            src/services/user-rate-limiter.ts
--   Auth                                   src/db/auth-repository.ts
--   Auth/Service                           src/services/authentication.ts
--   Auth/Scope                             src/auth/require-scope.ts, src/auth/service-token.ts
--   Routes                                 src/routes/instances.ts, src/routes/submissions.ts
--   Routes/Signing                         src/routes/authentication.ts, src/auth/require-bff.ts
--   Progress                               src/db/progress-repository.ts,
--     src/services/progress-repository.ts
--   Actions                                asynchronous code over the tables and a world
--   Orchestrator                           the types of src/orchestrator/docker-adapter.ts and
--     src/orchestrator/runtime-manifests.ts, and the interface that the handler uses
--   Orchestrator/Registry                  the registry of src/orchestrator/runtime-manifests.ts
--   Worker/Handler                         src/services/docker-lifecycle-handler.ts
--   Worker/Queue                           src/queue/lifecycle-queue.ts
--   Worker/Hosting                         the handler on the adapter, as in src/worker.ts
--   Worker/Serving                         src/worker.ts, src/services/serialized-lifecycle-runner.ts
--   Docker, Docker/Listing, Docker/Client, Docker/Adapter, Docker/Options, Docker/Spawning,
--   Docker/Clearing                        src/orchestrator/docker-adapter.ts: the inventory, the
--     client that it calls, runtimeStatus and destroy, the options, spawn, prepareManagedCleanup and preflight
--   Lifecycle                              the step relation over the transactions above
--   Prelude                                Boolean tests, tables as lists of rows, lemmas on them
--   Examples                               concrete runs
--
-- How the code is read. A method that writes is a function from the tables to the next tables; one
-- database transaction is one atomic step, and a thrown Error, which rolls the transaction back, is
-- `none`. The advisory locks and row locks only make transactions follow one another, so an
-- interleaving is a sequence of steps. `select ... limit 1` is select_one, an update with a condition
-- is update_where. UUIDs, hashes, route keys and Engine ids are numbers, a Date is its milliseconds
-- since the epoch, and a nullable column is an Option. What the environment makes up (new ids, tokens,
-- the clock) is an argument, with a hypothesis that an id is new where a theorem needs it. SHA-256,
-- URL construction, password checks, token hashes, the derivation of flags and the normalisation of
-- texts are parameters, as is the runtime that the sweeper drives.
--
-- Asynchronous code that calls Docker, Redis or the clock between its transactions is an action on the
-- tables and a world (Actions.Host), which may throw and keeps what was written before. Such a call is
-- a parameter and may change the tables, since others commit while it waits; a theorem says by which
-- hypothesis it limits that. The adapter's client and router are an interface (Docker.Client), as are
-- the pattern of route keys and the length of a text in JavaScript; calls that the source makes
-- concurrently follow one another.
--
-- Loops are structural recursion on lists. The wait for a target to become healthy runs on fuel: two
-- turns for each second of the startup time and one more, since a turn pauses for half a second; that
-- it is enough is a theorem. Every function is total.
--
-- Not modelled: the files and archives of the Traefik routers, the schema of runtime manifests, the
-- wiring of HTTP, the catalog, the flags that keep the worker's timers from
-- overlapping, mailers, password hashing, configuration, logging and start-up. They are I/O against
-- external systems, wiring of libraries, or left for a later extension.
mod Prelude
pub mod Schema
pub mod Intents
pub mod Validity
pub mod Errors
pub mod Hashing
pub mod Inventory
pub mod Runtime
pub mod Jobs
pub mod Cleanup
pub mod Lifecycle
pub mod Service
pub mod Scoring
pub mod Progress
pub mod Submissions
pub mod RateLimiter
pub mod Auth
pub mod Routes
pub mod Actions
pub mod Orchestrator
pub mod Docker
pub mod Worker
mod Examples
