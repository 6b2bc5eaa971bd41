-- ===== src/Worker/SqliteQueue.antt =====
-- apps/worker/src/sqlite-job-queue.ts: the durable queue, as the table that its statements read and
-- change. A payload is the value that `JSON.parse` returns for its text, none where it throws; text
-- columns are ordered by their bytes, which for UTF-8 is the order of the code points.
pub mod Table
pub mod Delivery
pub mod History
use verify_agent.Prelude.{
  ℕ, String, Bool, true, false, not, ◌&&◌, ◌||◌, List, [], ◌∷◌, ◌++◌, map, Option, none, some,
  Result, ok, throw, ◌>>=◌, ◌>>◌, reject_if, if◌then◌else◌, ◌==◌, filter, some_of, length,
}
use verify_agent.Prelude.Sorting.{str_le}
use verify_agent.Json.{Json}
use verify_agent.Errors.{Error, plain}
use verify_agent.Domain.Queue.{QueueJob, read_queue_job, create_queue_job, job_json}

pub data State : Type 0 where
  pending processing : State

pub record Row : Type 0 where
  pub job_id : String
  pub state : State
  pub payload : Option Json
  pub enqueued_at : String

abbrev pub Table : Type 0
Table = List Row

abbrev pub is_pending : State → Bool
is_pending pending = true
is_pending processing = false

abbrev returned : Result Error QueueJob → Option QueueJob
returned (ok job) = some job
returned (throw e) = none

unfoldable pub decode : Option Json → Option QueueJob
unfolding read_queue_job
decode none = none
decode (some value) = returned (read_queue_job value)

abbrev pub with_state : State → Row → Row
with_state state row = record row { state = state }

-- `UPDATE ... SET state = 'processing' WHERE job_id = ? AND state = 'pending'`
unfoldable pub mark_processing : String → Table → Table
mark_processing id [] = []
mark_processing id (row ∷ rows) =
    (if row.job_id == id && is_pending row.state then with_state processing row else row)
    ∷ mark_processing id rows

-- `UPDATE ... SET state = 'pending' WHERE job_id = ? AND state = 'processing'`
unfoldable pub requeue : String → Table → Table
requeue id [] = []
requeue id (row ∷ rows) =
    (if row.job_id == id && not (is_pending row.state) then with_state pending row else row)
    ∷ requeue id rows

-- `DELETE ... WHERE job_id = ? AND state = 'processing'`
unfoldable pub acknowledge : String → Table → Table
acknowledge id rows = filter (λ row. not (row.job_id == id && not (is_pending row.state))) rows

-- Opening the database: `UPDATE ... SET state = 'pending' WHERE state = 'processing'`
unfoldable pub reopen : Table → Table
reopen rows = map (with_state pending) rows

-- `ORDER BY enqueued_at, job_id`
unfoldable pub row_le : Row → Row → Bool
row_le a b =
    not (str_le b.enqueued_at a.enqueued_at)
    || (str_le a.enqueued_at b.enqueued_at && str_le a.job_id b.job_id)

unfoldable pub least : Row → Option Row → Row
unfolding row_le
least row none = row
least row (some other) = if row_le row other then row else other

-- `SELECT payload ... WHERE state = 'pending' ORDER BY enqueued_at, job_id LIMIT 1`
unfoldable pub select_next : Table → Option Row
unfolding least
select_next [] = none
select_next (row ∷ rows) =
    let rest = select_next rows in if is_pending row.state then some (least row rest) else rest

-- The primary key refuses an identifier that the table holds.
unfoldable pub insert_row : Row → Table → Result Error Table
insert_row row rows = do
  reject_if (some_of (λ other. other.job_id == row.job_id) rows)
      (plain "UNIQUE constraint failed: verification_queue_jobs.job_id")
  ok (rows ++ row ∷ [])

unfoldable pub enqueue : QueueJob → Table → Result Error Table
unfolding create_queue_job insert_row job_json
enqueue job rows = do
  frozen ← create_queue_job job
  insert_row
      (record {
        job_id = frozen.job_id;
        state = pending;
        payload = some (job_json frozen);
        enqueued_at = frozen.created_at;
      })
      rows

unfoldable pub decode_row : Option Row → Option QueueJob
unfolding decode
decode_row none = none
decode_row (some row) = decode row.payload

unfoldable pub deliver : Option QueueJob → Table → Option QueueJob × Table
unfolding mark_processing
deliver none rows = (none, rows)
deliver (some job) rows = (some job, mark_processing job.job_id rows)

unfoldable pub dequeue : Table → Option QueueJob × Table
unfolding select_next decode_row deliver
dequeue rows = deliver (decode_row (select_next rows)) rows

unfoldable pub clear : Table → Table
clear rows = []

unfoldable pub size : Table → ℕ
size rows = length rows
