-- ===== src/Worker/SqliteQueue/History.antt =====
-- Histories of the durable queue, apps/worker/src/sqlite-job-queue.ts.
pub mod Once
pub mod Blocked
use mathlib.Core.Path.{subst}
use verify_agent.Prelude.{
  String, Bool, true, false, not, ◌&&◌, List, [], ◌∷◌, ◌++◌, Option, none, some, Result, ok, throw,
  ◌≡◌, refl, sym, ap, ◌∙◌, arith, All, All-In, All-append, includes, some_of, eq_iff, ◌==◌,
  if◌then◌else◌, returns, ok-injective, Bool-cases, Result-cases, inl, inr, reject_if, In-includes,
  In-map,
}
use verify_agent.Domain.Queue.{QueueJob, create_queue_job}
use verify_agent.Worker.SqliteQueue.{
  Row, Table, with_state, processing, is_pending, mark_processing, requeue, acknowledge, reopen,
  enqueue, insert_row, dequeue, deliver, decode_row, select_next,
}
use verify_agent.Worker.SqliteQueue.Table.{
  IsTable, ids, enqueue-IsTable, dequeue-IsTable, acknowledge-IsTable, requeue-IsTable,
  reopen-IsTable, ids-mark_processing, ids-requeue, ids-reopen, mark_processing-IsTable,
}
use verify_agent.Errors.{Error}
use verify_agent.Worker.SqliteQueue.Delivery.{dequeue-IsNext}

-- The operations of the queue, and opening its database again.
pub data Operation : Type 0 where
  put : QueueJob → Operation
  take : Operation
  ack : String → Operation
  rej : String → Operation
  restart : Operation

abbrev after_put : Result Error Table → Table → Table
after_put (ok next) rows = next
after_put (throw e) rows = rows

abbrev delivered : Option QueueJob → List String
delivered none = []
delivered (some job) = job.job_id ∷ []

unfoldable pub step : Operation → Table → List String × Table
unfolding enqueue dequeue acknowledge requeue reopen
step (put job) rows = ([], after_put (enqueue job rows) rows)
step take rows = (delivered (dequeue rows).0, (dequeue rows).1)
step (ack id) rows = ([], acknowledge id rows)
step (rej id) rows = ([], requeue id rows)
step restart rows = ([], reopen rows)

-- The identifiers delivered in a history, and the table after it.
unfoldable pub run : List Operation → Table → List String × Table
unfolding step
run [] rows = ([], rows)
run (op ∷ ops) rows =
    let first = step op rows in let rest = run ops first.1 in (first.0 ++ rest.0, rest.1)

pub step-IsTable : (op : Operation) (rows : Table) → IsTable rows → IsTable (step op rows).1
unfolding step
step-IsTable (put job) rows t = elim (Result-cases (enqueue job rows)) [
  | inl (next, e) ↦ rw e (enqueue-IsTable job rows next t e)
  | inr (err, e) ↦ rw e t
]
step-IsTable take rows t = dequeue-IsTable rows t
step-IsTable (ack id) rows t = acknowledge-IsTable id rows t
step-IsTable (rej id) rows t = requeue-IsTable id rows t
step-IsTable restart rows t = reopen-IsTable rows t

-- Whatever the history of a well-formed table, every row stays the record of one valid job, and no
-- job has two rows.
pub run-IsTable : (ops : List Operation) (rows : Table) → IsTable rows → IsTable (run ops rows).1
unfolding run
run-IsTable [] rows t = t
run-IsTable (op ∷ ops) rows t = run-IsTable ops (step op rows).1 (step-IsTable op rows t)

abbrev pub is_ack_of : String → Operation → Bool
is_ack_of id (ack other) = other == id
is_ack_of id (put job) = false
is_ack_of id take = false
is_ack_of id (rej other) = false
is_ack_of id restart = false

ids-insert :
    (rows next : Table) (job : QueueJob) (k : String)
    → enqueue job rows ≡ ok next
    → includes (ids rows) k ≡ true
    → includes (ids next) k ≡ true
unfolding enqueue insert_row
ids-insert rows next job k h m = returns (create_queue_job job) _ h λ frozen e h1.
    returns (reject_if (some_of (λ other. other.job_id == frozen.job_id) rows) _) _ h1
      λ u absent h2. subst (λ t. includes (ids t) k ≡ true) (ok-injective h2) (widen _ rows m)
  where
    widen :
        (row : Row) (ts : Table)
        → includes (ids ts) k ≡ true
        → includes (ids (ts ++ row ∷ [])) k ≡ true
    widen row [] e = absurd (ground arith)
    widen row (t ∷ ts) e = ground (arith, widen row ts)

ids-acknowledge :
    (id k : String) (rows : Table)
    → (id == k) ≡ false
    → includes (ids rows) k ≡ true
    → includes (ids (acknowledge id rows)) k ≡ true
unfolding acknowledge
ids-acknowledge id k [] apart m = m
ids-acknowledge id k (row ∷ rows) apart m =
    ground
      (arith, eq_iff row.job_id id, eq_iff row.job_id k, eq_iff id k, ids-acknowledge id k rows)

step-keeps :
    (op : Operation) (rows : Table) (k : String)
    → is_ack_of k op ≡ false
    → includes (ids rows) k ≡ true
    → includes (ids (step op rows).1) k ≡ true
unfolding step dequeue deliver
step-keeps (put job) rows k a m = elim (Result-cases (enqueue job rows)) [
  | inl (next, e) ↦ rw e (ids-insert rows next job k e m)
  | inr (err, e) ↦ rw e m
]
step-keeps take rows k a m = by_job (decode_row (select_next rows))
  where
    by_job : (o : Option QueueJob) → includes (ids (deliver o rows).1) k ≡ true
    by_job none = m
    by_job (some job) = rw (ids-mark_processing job.job_id rows) m
step-keeps (ack id) rows k a m = ids-acknowledge id k rows a m
step-keeps (rej id) rows k a m = rw (ids-requeue id rows) m
step-keeps restart rows k a m = rw (ids-reopen rows) m

-- A job that is in the table stays there, through deliveries, rejections and restarts, until it is
-- acknowledged.
pub run-keeps :
    (ops : List Operation) (rows : Table) (k : String)
    → some_of (is_ack_of k) ops ≡ false
    → includes (ids rows) k ≡ true
    → includes (ids (run ops rows).1) k ≡ true
unfolding run
run-keeps [] rows k a m = m
run-keeps (op ∷ ops) rows k a m =
    run-keeps ops (step op rows).1 k (ground arith) (step-keeps op rows k (ground arith) m)
