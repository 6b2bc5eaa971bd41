-- ===== src/Lib.antt =====
-- VerifyAgent: the verification of TypeScript projects, from a GitHub pull request to a policy
-- decision.
--
-- A webhook (apps/github-bot) authenticates a pull-request delivery, reserves it against replays
-- and lets an orchestrator queue a job. A worker (apps/worker) takes the jobs from its queue one at
-- a time and stores each result in a registry. The engine (packages/engine) makes a result: it
-- detects the project's capabilities, plans its checks (packages/checks), executes the selected
-- ones in a sandbox and aggregates the answers to evidence, findings, coverage and a status, which
-- the default policy (packages/policy) decides with. The records and their validation are
-- packages/domain.
--
-- Files and the code that they model:
--   Prelude, JsMap, Json    the language: lists, results, text, stable sorting, JavaScript's `Map` with
--                           string keys in insertion order, and the values of type `unknown`.
--   Errors                  the classes of what the code throws.
--   Domain.Types            packages/domain/src: the records and unions that the parts exchange.
--   Domain.Dates, Domain.Paths, Domain.Validation, Domain.Queue
--                           packages/domain/src/validation.ts and verification-queue.ts.
--   Policy                  packages/policy/src/default.ts.
--   Checks.Catalog, Checks.Specs, Checks.Selection
--                           packages/checks/src: catalog.ts, execution-specs.ts, selection.ts.
--   Checks.Settings, Checks.Dependencies, Checks.Planner
--                           packages/checks/src/planner.ts: the configuration, the order of
--                           dependencies, and the plan.
--   Engine.Evidence, Engine.Coverage, Engine.Aggregation
--                           packages/engine/src/aggregation.ts.
--   Engine.Interfaces, Engine.Sandbox, Engine.Execution
--                           packages/engine/src/interfaces.ts and execution.ts.
--   Engine.Preparation, Engine.Pipeline
--                           packages/engine/src/pipeline.ts.
--   Worker.Registry, Worker.FileRegistry
--                           apps/worker/src/result-registry.ts, in memory and in a file.
--   Worker.Queue            apps/worker/src/in-memory-job-queue.ts.
--   Worker.SqliteQueue      apps/worker/src/sqlite-job-queue.ts.
--   Worker.SqliteRegistry   apps/worker/src/sqlite-result-registry.ts.
--   Worker.Runtime          apps/worker/src/runtime.ts: `processNext` and `drain`; `Auto` is automatic
--                           processing and `Waiting` the promises for settled jobs.
--   Bot.Decision, Bot.Orchestrator
--                           packages/adapters-source/src/github-pr.ts and
--                           apps/github-bot/src/verification-orchestrator.ts.
--   Bot.Replay, Bot.Webhook apps/github-bot/src/webhook.ts.
--   Source.Freshness, Source.Rendering, Source.Publisher
--                           packages/adapters-source/src/github-checks.ts.
--   Detection               packages/adapters-lang/src: detectors.ts and service.ts.
--   Tests                   each theorem at a concrete input.
-- The modules below these hold their proofs, each named for what it proves. A definition has the name
-- of the function it models, in snake case.
--
-- Conventions. A function that throws returns a `Result`, with the class of the error and its
-- message and the tests in the order of the source. A class with state is a record, and a method
-- that changes it returns the next state; an asynchronous method is one step. The SQLite queue and
-- the SQLite registry are their tables, as lists of rows; a statement is a function on that list.
-- The runtime is generic in its queue by a record of operations, which both queues fill. Numbers
-- are natural numbers, or `Number` where the code tests a value for being one; the sizes and times
-- that the code handles stay far below 2 ^ 53.
--
-- Parameters. What lies outside the repository is an argument of the definitions that use it: the
-- SHA-256 digests, the HMAC, `JSON.parse` of a body and its number of bytes, the URL parser,
-- `localeCompare`, the clock and the new identities, `Date.parse` of the publisher, the clients of
-- GitHub, the file system of detection, and the ports of the engine: the detector, the
-- sandbox, the provisioner and the preparer of artifacts. The one hypothesis on them is that a
-- SHA-256 digest is 64 hexadecimal digits.
--
-- Fuel. The loops without a structural bound run on fuel. The eviction loops of the registries and
-- of the replay guard remove an entry in each turn, so they are given the number of entries. The
-- decimal digits of a number need no more turns than the number. The memories of published freshness
-- and of settled outcomes evict in the same way. `drain` has no bound of its own in the code: its fuel
-- is a parameter, and the definition returns none where the fuel ends first.
--
-- Asynchronous code. In `Worker.Runtime.Auto` a step is what runs from one `await` to the next, and
-- a relation says which promises may be settled in which state; its theorems hold over every order
-- of steps. The publisher's requests are kept in the order they were sent, and its promise chain for
-- each key makes a publication one function of the state.
--
-- Not modelled: processes, files, HTTP servers and GitHub's API; calls of `processNext` beside the
-- loop of automatic processing; publications under another key between the requests of one; the
-- verdict and the comment of apps/api; the AI review; the configuration. The histories of the durable
-- queue are without `clear`, which nothing in the repository calls. A check result is without its
-- environment, which is always empty, and its metrics are the two that the executor writes.
pub mod Prelude
pub mod JsMap
pub mod Json
pub mod Errors
pub mod Domain
pub mod Policy
pub mod Checks
pub mod Engine
pub mod Worker
pub mod Bot
pub mod Source
pub mod Detection
pub mod Tests
