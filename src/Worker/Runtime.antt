-- ===== src/Worker/Runtime.antt =====
-- apps/worker/src/runtime.ts: `processNext` and `drain`. The queue is an interface that both queues
-- fill; the processor is a function from a job to its result.
pub mod Draining
pub mod Retrying
pub mod Auto
pub mod Waiting
use verify_agent.Prelude.{
  ℕ, zero, suc, String, Bool, true, false, List, [], ◌∷◌, ◌++◌, Option, none, some, Result, ok,
  throw, if◌then◌else◌,
}
use verify_agent.Errors.{Error, runtime}
use verify_agent.Domain.Types.{VerificationResult}
use verify_agent.Domain.Validation.{Url}
use verify_agent.Domain.Queue.{QueueJob}
use verify_agent.Worker.Registry.{Registry, store}
use verify_agent.Worker.Queue as Memory
use verify_agent.Worker.SqliteQueue as Sqlite

-- `ConsumableVerificationJobQueue`. An `acknowledge` or a `reject` that is missing does nothing.
pub record JobQueue (Q : Type 0) : Type 0 where
  pub dequeue : Q → Option QueueJob × Q
  pub acknowledge : String → Q → Q
  pub reject : String → Q → Q

abbrev pub or_null :
    Option (QueueJob × Memory.Queue) → Memory.Queue → Option QueueJob × Memory.Queue
or_null none q = (none, q)
or_null (some (job, next)) q = (some job, next)

unfoldable pub memory_queue : JobQueue Memory.Queue
unfolding Memory.dequeue
memory_queue = record {
  dequeue = λ q. or_null (Memory.dequeue q) q;
  acknowledge = λ id q. q;
  reject = λ id q. q;
}

unfoldable pub sqlite_queue : JobQueue Sqlite.Table
unfolding Sqlite.dequeue Sqlite.acknowledge Sqlite.requeue
sqlite_queue = record {
  dequeue = λ rows. Sqlite.dequeue rows;
  acknowledge = λ id rows. Sqlite.acknowledge id rows;
  reject = λ id rows. Sqlite.requeue id rows;
}

pub data Outcome : Type 0 where
  idle : Outcome
  completed : QueueJob → VerificationResult → Outcome
  failed : QueueJob → Error → Outcome

pub record State (Q : Type 0) : Type 0 where
  pub running : Bool
  pub queue : Q
  pub registry : Registry

abbrev pub Drain : Type 0 → Type 0
Drain Q = Option (Result Error (List Outcome) × State Q)

module _ {Q : Type 0} where
  -- `outcomes.push(outcome)`, before those of the rest of the loop.
  abbrev pub collect : Outcome → Drain Q → Drain Q
  collect o none = none
  collect o (some (ok os, t)) = some (ok (o ∷ os), t)
  collect o (some (throw e, t)) = some (throw e, t)

  -- The body of the loop, with what the rest of it returns.
  abbrev pub continue : Result Error Outcome → State Q → Drain Q → Drain Q
  continue (throw e) t rest = some (throw e, t)
  continue (ok idle) t rest = some (ok [], t)
  continue (ok (completed job result)) t rest = collect (completed job result) rest
  continue (ok (failed job e)) t rest = collect (failed job e) rest

module _ {Q : Type 0} (jobs : JobQueue Q) (parse_url : String → Option Url) (max_results : ℕ)
    (process : QueueJob → Result Error VerificationResult) where
  unfoldable pub settle_store :
      QueueJob
      → VerificationResult
      → Result Error Registry
      → State Q
      → Result Error Outcome × State Q
  settle_store job result (ok registry) s = (
    ok (completed job result),
    record s { registry = registry; queue = jobs.acknowledge job.job_id s.queue },
  )
  settle_store job result (throw e) s =
      (throw e, record s { queue = jobs.reject job.job_id s.queue })

  unfoldable pub settle :
      QueueJob → Result Error VerificationResult → State Q → Result Error Outcome × State Q
  unfolding store settle_store
  settle job (ok result) s =
      settle_store job result (store parse_url max_results job.job_id result s.registry) s
  settle job (throw e) s = (ok (failed job e), record s { queue = jobs.reject job.job_id s.queue })

  unfoldable pub next : Option QueueJob × Q → State Q → Result Error Outcome × State Q
  unfolding settle
  next (none, q) s = (ok idle, record s { queue = q })
  next (some job, q) s = settle job (process job) (record s { queue = q })

  unfoldable pub process_next : State Q → Result Error Outcome × State Q
  unfolding next
  process_next s =
      if s.running
      then next (jobs.dequeue s.queue) s
      else (throw (runtime "verification job runtime is not running"), s)

  -- The loop of `drain`, on fuel: none where the fuel ends before the loop does.
  unfoldable pub drain : ℕ → State Q → Drain Q
  unfolding process_next
  drain zero s = none
  drain (suc fuel) s =
      let first = process_next s in let rest = drain fuel first.1 in continue first.0 first.1 rest
