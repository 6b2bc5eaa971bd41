-- ===== src/Tests/FileRegistry.antt =====
-- Runs of the registry in a file of apps/worker/src/result-registry.ts.
use verify_agent.Prelude.{
  ℕ, ◌≤◌, String, List, [], ◌∷◌, some, Result, ok, throw, ◌>>=◌, ◌≡◌, refl, arith, length, In, All,
}
use verify_agent.Errors.{Error}
use verify_agent.Domain.Types.{VerificationResult}
use verify_agent.Worker.Registry.{record_result, get_by_queue_job_id, empty_registry}
use verify_agent.Worker.Registry.Consistency.{empty_registry-IsConsistent}
use verify_agent.Worker.FileRegistry.{FileRegistry, file_store, open_registry, persist}
use verify_agent.Worker.FileRegistry.Backing.{IsBacked, file_store-IsBacked}
use verify_agent.Tests.Samples.{verification_with, no_url}

abbrev result_a : VerificationResult
result_a = verification_with "verification-a" "job-a"

abbrev result_b : VerificationResult
result_b = verification_with "verification-b" "job-b"

abbrev result_c : VerificationResult
result_c = verification_with "verification-c" "job-c"

-- Four stores in a registry for two results: a, b, a again, c.
abbrev stored : Result Error FileRegistry
unfolding file_store open_registry
stored =
    file_store no_url 2 "queue-a" result_a (open_registry no_url 2 [])
    >>= file_store no_url 2 "queue-b" result_b
    >>= file_store no_url 2 "queue-a" result_a
    >>= file_store no_url 2 "queue-c" result_c

-- The memory holds b and c, and the file only c, so b is lost with the process.
stored_b : stored >>= (λ s. ok (get_by_queue_job_id "queue-b" s.memory)) ≡ ok (some result_b)
unfolding stored verify_agent.Domain.Validation.validate_verification_result
    verify_agent.Prelude.Text.is_identifier verify_agent.Prelude.Text.is_hex_of
    verify_agent.Domain.Dates.is_iso_date
stored_b = refl

lost_b :
    stored >>= (λ s. ok (s.file)) ≡ ok (record { queue_job_id = "queue-c"; result = result_c } ∷ [])
unfolding stored verify_agent.Domain.Validation.validate_verification_result
    verify_agent.Prelude.Text.is_identifier verify_agent.Prelude.Text.is_hex_of
    verify_agent.Domain.Dates.is_iso_date
lost_b = refl

abbrev opened : FileRegistry
unfolding open_registry
opened = open_registry no_url 2 []

abbrev first_file : FileRegistry
unfolding persist opened record_result
first_file = persist (record {
  memory = record_result "queue-a" result_a opened.memory;
  entries = record { queue_job_id = "queue-a"; result = result_a } ∷ [];
  file = [];
})

first_file_store : file_store no_url 2 "queue-a" result_a opened ≡ ok first_file
unfolding opened file_store verify_agent.Domain.Validation.validate_verification_result
    verify_agent.Prelude.Text.is_identifier verify_agent.Prelude.Text.is_hex_of
    verify_agent.Domain.Dates.is_iso_date
first_file_store = refl

file_store-IsBacked_example :
    In (record { queue_job_id = "queue-a"; result = result_a }) first_file.file
    × (length first_file.file ≤ 2)
    × All (IsBacked first_file.memory) first_file.file
unfolding opened empty_registry
file_store-IsBacked_example =
    file_store-IsBacked no_url 2 "queue-a" result_a opened first_file empty_registry-IsConsistent
      (omega arith) (omega arith) first_file_store
