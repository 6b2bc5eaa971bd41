-- ===== src/Tests/Worker.antt =====
-- Runs of apps/worker.
use verify_agent.Prelude.{
  ℕ, suc, ◌≤◌, String, Bool, true, false, List, [], ◌∷◌, ◌++◌, Option, none, some, Result, ok,
  throw, ◌≡◌, refl, sym, arith, All, In, inl, inr, ◌⊎◌, includes, length, every,
}
use verify_agent.Errors.{Error, runtime}
use verify_agent.Domain.Types.{VerificationResult}
use verify_agent.Domain.Queue.{QueueJob, job_json}
use verify_agent.Domain.Queue.RoundTrip.{IsValidJob}
use verify_agent.JsMap.{size}
use verify_agent.Worker.Registry.{
  Registry, store, empty_registry, get_by_verification_id, get_by_job_id, get_by_queue_job_id,
}
use verify_agent.Worker.Registry.Consistency.{IsConsistent, empty_registry-IsConsistent}
use verify_agent.Worker.Registry.Eviction.{store-IsConsistent}
use verify_agent.Worker.Registry.Lookup.{store-found}
use verify_agent.Worker.Queue.{empty_queue}
use verify_agent.Worker.Queue.Fifo as Fifo
use verify_agent.Worker.Queue.Fifo.{run-fifo}
use verify_agent.Worker.SqliteQueue.{Row, Table, pending, decode, dequeue, mark_processing}
use verify_agent.Worker.SqliteQueue.Table.{IsTable, ids}
use verify_agent.Worker.SqliteQueue.Delivery.{IsNext, dequeue-IsNext}
use verify_agent.Worker.SqliteQueue.History as History
use verify_agent.Worker.SqliteQueue.History.{run-keeps, run-IsTable}
use verify_agent.Worker.SqliteQueue.History.Once.{dequeue-once}
use verify_agent.Worker.SqliteQueue.History.Blocked.{IsBlocking, is_behind, run-blocked}
use verify_agent.Worker.Runtime.{memory_queue, sqlite_queue, drain}
use verify_agent.Worker.Runtime.Draining.{Drained, drain-Drained}
use verify_agent.Worker.Runtime.Retrying.{drain-retries}
use verify_agent.Tests.Samples.{job_with, verification_with, no_url, today}

abbrev registry_with : VerificationResult → String → Registry
registry_with r q = record {
  by_verification_id = (r.id, r) ∷ [];
  verification_id_by_job_id = (r.job_id, r.id) ∷ [];
  verification_id_by_queue_job_id = (q, r.id) ∷ [];
}

abbrev first_result : VerificationResult
first_result = verification_with "verification-1" "job-1"

abbrev second_result : VerificationResult
second_result = verification_with "verification-2" "job-2"

first_store :
    store no_url 1 "queue-1" first_result empty_registry ≡ ok (registry_with first_result "queue-1")
unfolding store verify_agent.Domain.Validation.validate_verification_result
    verify_agent.Prelude.Text.is_identifier verify_agent.Prelude.Text.is_hex_of
    verify_agent.Domain.Dates.is_iso_date empty_registry
first_store = refl

second_store :
    store no_url 1 "queue-2" second_result (registry_with first_result "queue-1")
    ≡ ok (registry_with second_result "queue-2")
unfolding store verify_agent.Domain.Validation.validate_verification_result
    verify_agent.Prelude.Text.is_identifier verify_agent.Prelude.Text.is_hex_of
    verify_agent.Domain.Dates.is_iso_date
second_store = refl

store-IsConsistent_example :
    IsConsistent (registry_with first_result "queue-1")
    × (size (registry_with first_result "queue-1").by_verification_id ≤ 1)
store-IsConsistent_example =
    store-IsConsistent no_url 1 "queue-1" first_result empty_registry
      (registry_with first_result "queue-1") empty_registry-IsConsistent first_store

-- The bound is one result, so the second store evicts the first.
store-found_example :
    (get_by_verification_id "verification-2" (registry_with second_result "queue-2")
      ≡ some second_result)
    × (get_by_job_id "job-2" (registry_with second_result "queue-2") ≡ some second_result)
    × (get_by_queue_job_id "queue-2" (registry_with second_result "queue-2") ≡ some second_result)
store-found_example =
    store-found no_url 1 "queue-2" second_result (registry_with first_result "queue-1")
      (registry_with second_result "queue-2") store-IsConsistent_example.0 (omega arith)
      (omega arith) second_store

abbrev early : QueueJob
early = job_with "job-a" today

abbrev late : QueueJob
late = job_with "job-b" "2026-09-02T10:00:00Z"

abbrev fifo_operations : List Fifo.Operation
fifo_operations = Fifo.put early ∷ Fifo.put late ∷ Fifo.take ∷ []

run-fifo_example :
    empty_queue.entries ++ Fifo.accepted fifo_operations
    ≡ (Fifo.run fifo_operations empty_queue).0 ++ (Fifo.run fifo_operations empty_queue).1.entries
run-fifo_example = run-fifo fifo_operations empty_queue

abbrev row_of : QueueJob → Row
unfolding job_json
row_of job = record {
  job_id = job.job_id;
  state = pending;
  payload = some (job_json job);
  enqueued_at = job.created_at;
}

abbrev table : Table
unfolding row_of
table = row_of late ∷ row_of early ∷ []

early-IsValidJob : IsValidJob early
unfolding verify_agent.Prelude.Text.is_identifier verify_agent.Prelude.Text.is_blank
    verify_agent.Domain.Dates.is_iso_date
early-IsValidJob = record {
  named = refl;
  sourced = refl;
  acted = refl;
  numbered = omega arith;
  delivered = refl;
  dated = refl;
}

late-IsValidJob : IsValidJob late
unfolding verify_agent.Prelude.Text.is_identifier verify_agent.Prelude.Text.is_blank
    verify_agent.Domain.Dates.is_iso_date
late-IsValidJob = record {
  named = refl;
  sourced = refl;
  acted = refl;
  numbered = omega arith;
  delivered = refl;
  dated = refl;
}

table-IsTable : IsTable table
unfolding table row_of
table-IsTable = record {
  stored = (
    (late, late-IsValidJob, refl, refl, refl),
    ((early, early-IsValidJob, refl, refl, refl), tt),
  );
  once = (refl, (refl, tt));
}

delivered : dequeue table ≡ (some early, mark_processing "job-a" table)
unfolding dequeue table verify_agent.Prelude.Sorting.str_le verify_agent.Prelude.Text.is_blank
    verify_agent.Prelude.Text.is_identifier verify_agent.Domain.Dates.is_iso_date
delivered = refl

dequeue-IsNext_example :
    ((row : Row) × (job : QueueJob) × IsNext table (some row)
      × (row.job_id ≡ job.job_id)
      × (dequeue table ≡ (some job, mark_processing job.job_id table)))
    ⊎ (IsNext table none × (dequeue table ≡ (none, table)))
dequeue-IsNext_example = dequeue-IsNext table table-IsTable

abbrev operations : List History.Operation
operations = History.take ∷ History.take ∷ History.ack "job-b" ∷ History.put early ∷ []

dequeue-once_example :
    includes (History.run operations (mark_processing "job-a" table)).0 "job-a" ≡ false
dequeue-once_example =
    dequeue-once table (mark_processing "job-a" table) early operations table-IsTable delivered refl

run-keeps_example : includes (ids (History.run operations table).1) "job-a" ≡ true
unfolding table row_of
run-keeps_example = run-keeps operations table "job-a" refl refl

run-IsTable_example : IsTable (History.run operations table).1
run-IsTable_example = run-IsTable operations table table-IsTable

abbrev process_job : QueueJob → Result Error VerificationResult
process_job job = ok (verification_with job.job_id job.job_id)

abbrev refuse_job : QueueJob → Result Error VerificationResult
refuse_job job = throw (runtime "unresolvable source")

drain-Drained_example : Drained no_url 100 process_job (early ∷ late ∷ []) (
    drain memory_queue no_url 100 process_job 3 (record {
      running = true;
      queue = record { entries = early ∷ late ∷ []; listeners = [] };
      registry = empty_registry;
    }))
drain-Drained_example =
    drain-Drained no_url 100 process_job (early ∷ late ∷ [])
      (record {
        running = true;
        queue = record { entries = early ∷ late ∷ []; listeners = [] };
        registry = empty_registry;
      })
      refl refl

drain-retries_example :
    drain sqlite_queue no_url 100 refuse_job 1000
      (record { running = true; queue = table; registry = empty_registry })
    ≡ none
unfolding table row_of
drain-retries_example =
    drain-retries no_url 100 refuse_job 1000
      (record { running = true; queue = table; registry = empty_registry }) early
      (mark_processing "job-a" table) (runtime "unresolvable source") refl table-IsTable
      (refl, (refl, tt)) delivered refl

abbrev broken : Row
broken = record { job_id = "job-x"; state = pending; payload = none; enqueued_at = today }

abbrev blocked_operations : List History.Operation
blocked_operations = History.take ∷ History.put late ∷ History.take ∷ []

late_is_behind : every (is_behind broken) blocked_operations ≡ true
unfolding verify_agent.Prelude.Sorting.str_le
late_is_behind = refl

broken-IsBlocking : IsBlocking broken (broken ∷ [])
unfolding decode
broken-IsBlocking = (inl refl, refl, (λ _. inl refl, tt))

run-blocked_example :
    ((History.run blocked_operations (broken ∷ [])).0 ≡ [])
    × IsBlocking broken (History.run blocked_operations (broken ∷ [])).1
run-blocked_example =
    run-blocked blocked_operations broken (broken ∷ []) late_is_behind broken-IsBlocking
