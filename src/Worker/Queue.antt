-- ===== src/Worker/Queue.antt =====
-- apps/worker/src/in-memory-job-queue.ts: the queue in the process. A listener is kept as the number
-- of its registration; `enqueue` returns the listeners that it calls, whose errors are swallowed.
pub mod Fifo
use verify_agent.Prelude.{
  ℕ, String, Bool, true, false, not, List, [], ◌∷◌, ◌++◌, Option, none, some, Result, ok, throw,
  ◌>>=◌, nat_eq, filter, length,
}
use verify_agent.Errors.{Error}
use verify_agent.Domain.Queue.{QueueJob, create_queue_job}

pub record Queue : Type 0 where
  pub entries : List QueueJob
  pub listeners : List ℕ

unfoldable pub empty_queue : Queue
empty_queue = record { entries = []; listeners = [] }

-- The validation and the frozen copy of `create_queue_job`, then the push and the wakeups.
unfoldable pub enqueue : QueueJob → Queue → Result Error (Queue × List ℕ)
unfolding create_queue_job
enqueue job q = create_queue_job job >>= λ frozen.
    ok (record q { entries = q.entries ++ frozen ∷ [] }, q.listeners)

abbrev shift : List QueueJob → Option (QueueJob × List QueueJob)
shift [] = none
shift (job ∷ jobs) = some (job, jobs)

-- `entries.shift() ?? null`
unfoldable pub dequeue : Queue → Option (QueueJob × Queue)
dequeue q = by_shift (shift q.entries)
  where
    by_shift : Option (QueueJob × List QueueJob) → Option (QueueJob × Queue)
    by_shift none = none
    by_shift (some (job, jobs)) = some (job, record q { entries = jobs })

unfoldable pub size : Queue → ℕ
size q = length q.entries

unfoldable pub clear : Queue → Queue
clear q = record q { entries = [] }

unfoldable pub on_enqueue : ℕ → Queue → Queue
on_enqueue listener q = record q {
  listeners = filter (λ l. not (nat_eq l listener)) q.listeners ++ listener ∷ [];
}

unfoldable pub unsubscribe : ℕ → Queue → Queue
unsubscribe listener q = record q { listeners = filter (λ l. not (nat_eq l listener)) q.listeners }
