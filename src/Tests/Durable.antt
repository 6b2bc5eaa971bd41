-- ===== src/Tests/Durable.antt =====
-- Runs of apps/worker/src/sqlite-result-registry.ts.
use verify_agent.Prelude.{ℕ, ◌≤◌, String, List, [], ◌∷◌, some, ok, throw, ◌≡◌, refl, arith, length}
use verify_agent.Errors.{plain}
use verify_agent.Domain.Types.{VerificationResult}
use verify_agent.Domain.Validation.{validate_verification_result}
use verify_agent.Worker.SqliteRegistry.{
  Table, row_for, store, get_by_verification_id, get_by_job_id, get_by_queue_job_id,
}
use verify_agent.Worker.SqliteRegistry.Found.{durable_store-found}
use verify_agent.Worker.SqliteRegistry.Retention.{IsTable, durable_store-IsTable}
use verify_agent.Tests.Samples.{verification_with, no_url}

abbrev first_result : VerificationResult
first_result = verification_with "verification-1" "job-1"

abbrev second_result : VerificationResult
second_result = verification_with "verification-2" "job-2"

abbrev one_row : Table
one_row = row_for "queue-1" first_result ∷ []

first_store : store no_url 1 "queue-1" first_result [] ≡ ok one_row
unfolding store validate_verification_result verify_agent.Prelude.Text.is_identifier
    verify_agent.Prelude.Text.is_hex_of verify_agent.Domain.Dates.is_iso_date
first_store = refl

-- The bound is one result, so the second store deletes the first.
second_store :
    store no_url 1 "queue-2" second_result one_row ≡ ok (row_for "queue-2" second_result ∷ [])
unfolding store validate_verification_result verify_agent.Prelude.Text.is_identifier
    verify_agent.Prelude.Text.is_hex_of verify_agent.Domain.Dates.is_iso_date
second_store = refl

second_beside :
    store no_url 9 "queue-2" second_result one_row
    ≡ ok (row_for "queue-1" first_result ∷ row_for "queue-2" second_result ∷ [])
unfolding store validate_verification_result verify_agent.Prelude.Text.is_identifier
    verify_agent.Prelude.Text.is_hex_of verify_agent.Domain.Dates.is_iso_date
second_beside = refl

-- A second verification for the same job is refused.
same_job :
    store no_url 9 "queue-2" (verification_with "verification-2" "job-1") one_row
    ≡ throw (plain "native result jobId \"job-1\" is already registered")
unfolding store validate_verification_result verify_agent.Prelude.Text.is_identifier
    verify_agent.Prelude.Text.is_hex_of verify_agent.Domain.Dates.is_iso_date
same_job = refl

empty-IsTable : IsTable no_url []
empty-IsTable = record { stored = tt; distinct = tt }

durable_store-IsTable_example : IsTable no_url one_row × (length one_row ≤ 1)
durable_store-IsTable_example =
    durable_store-IsTable no_url 1 "queue-1" first_result [] one_row empty-IsTable first_store

durable_store-found_example :
    (get_by_verification_id no_url "verification-2" (row_for "queue-2" second_result ∷ [])
      ≡ some second_result)
    × (get_by_job_id no_url "job-2" (row_for "queue-2" second_result ∷ []) ≡ some second_result)
    × (get_by_queue_job_id no_url "queue-2" (row_for "queue-2" second_result ∷ [])
        ≡ some second_result)
durable_store-found_example =
    durable_store-found no_url 1 "queue-2" second_result one_row
      (row_for "queue-2" second_result ∷ []) (omega arith) second_store
