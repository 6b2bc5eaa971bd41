-- ===== src/Worker/Queue/Fifo.antt =====
-- The order of the queue in the process, over histories.
use mathlib.Core.List.{append_assoc, append-nil}
use verify_agent.Prelude.{
  List, [], ◌∷◌, ◌++◌, Option, none, some, Result, ok, throw, ◌≡◌, refl, sym, ap, ◌∙◌, Result-cases,
  inl, inr, ℕ,
}
use verify_agent.Errors.{Error}
use verify_agent.Domain.Queue.{QueueJob, create_queue_job}
use verify_agent.Worker.Queue.{Queue, enqueue, dequeue}

pub data Operation : Type 0 where
  put : QueueJob → Operation
  take : Operation

-- The queue after an operation, which stays as it was where `enqueue` throws, and the jobs taken.
abbrev after_put : Result Error (Queue × List ℕ) → Queue → Queue
after_put (ok (q, woken)) before = q
after_put (throw e) before = before

abbrev after_take : Option (QueueJob × Queue) → Queue → List QueueJob × Queue
after_take none before = ([], before)
after_take (some (job, q)) before = (job ∷ [], q)

unfoldable pub step : Operation → Queue → List QueueJob × Queue
unfolding enqueue dequeue
step (put job) q = ([], after_put (enqueue job q) q)
step take q = after_take (dequeue q) q

-- What a list of operations takes, and the queue that it leaves.
unfoldable pub run : List Operation → Queue → List QueueJob × Queue
unfolding step
run [] q = ([], q)
run (op ∷ ops) q =
    let first = step op q in let rest = run ops first.1 in (first.0 ++ rest.0, rest.1)

abbrev valid_job : Result Error QueueJob → List QueueJob
valid_job (ok job) = job ∷ []
valid_job (throw e) = []

abbrev accepted_by : Operation → List QueueJob
unfolding create_queue_job
accepted_by (put job) = valid_job (create_queue_job job)
accepted_by take = []

-- The jobs that a list of operations enqueues: those that are valid.
unfoldable pub accepted : List Operation → List QueueJob
unfolding accepted_by
accepted [] = []
accepted (op ∷ ops) = accepted_by op ++ accepted ops

step-balance :
    (op : Operation) (q : Queue)
    → q.entries ++ accepted_by op ≡ (step op q).0 ++ (step op q).1.entries
unfolding step enqueue dequeue accepted_by
step-balance (put job) q = elim (Result-cases (create_queue_job job)) [
  | inl (frozen, e) ↦ rw e refl
  | inr (err, e) ↦ rw e (append-nil q.entries)
]
step-balance take q = by_entries q.entries refl
  where
    by_entries :
        (es : List QueueJob)
        → q.entries ≡ es
        → q.entries ++ [] ≡ (step take q).0 ++ (step take q).1.entries
    by_entries [] e = rw e refl
    by_entries (job ∷ es) e = rw e (append-nil (job ∷ es))

-- Whatever is enqueued and dequeued, in whatever order: the jobs that were waiting followed by those
-- that were accepted are, in this order, the jobs taken followed by those that still wait.
pub run-fifo :
    (ops : List Operation) (q : Queue)
    → q.entries ++ accepted ops ≡ (run ops q).0 ++ (run ops q).1.entries
unfolding run accepted
run-fifo [] q = append-nil q.entries
run-fifo (op ∷ ops) q =
    let next = (step op q).1 in
    sym (append_assoc q.entries (accepted_by op) (accepted ops))
    ∙ ap (λ t. t ++ accepted ops) (step-balance op q)
    ∙ append_assoc (step op q).0 next.entries (accepted ops)
    ∙ ap (λ t. (step op q).0 ++ t) (run-fifo ops next)
    ∙ sym (append_assoc (step op q).0 (run ops next).0 (run ops next).1.entries)
