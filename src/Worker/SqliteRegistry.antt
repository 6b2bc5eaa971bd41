-- ===== src/Worker/SqliteRegistry.antt =====
-- apps/worker/src/sqlite-result-registry.ts: the durable result registry, as the table that its
-- statements read and change, in the order of the row numbers: an insertion comes last. A payload is
-- the value that `JSON.parse` returns for its text, none where that is no result. What `store`
-- changes before a throw is rolled back, so a rejected store returns an error and no table.
pub mod Found
pub mod Retention
pub mod Others
use Prim.Native.String.{◌++◌ as concat}
use verify_agent.Prelude.{
  ℕ, zero, suc, String, Bool, true, false, not, ◌||◌, List, [], ◌∷◌, ◌++◌, Option, none, some,
  Result, ok, throw, ◌>>=◌, ◌>>◌, reject_if, if◌then◌else◌, ◌==◌, ltb, length, filter, find,
  some_of,
}
use verify_agent.Prelude.Text.{is_blank}
use verify_agent.Errors.{Error, plain}
use verify_agent.Domain.Types.{VerificationResult}
use verify_agent.Domain.Validation.{Url, validate_verification_result}

pub record Row : Type 0 where
  pub queue_job_id : String
  pub verification_id : String
  pub job_id : String
  pub payload : Option VerificationResult
  pub stored_at : String

abbrev pub Table : Type 0
Table = List Row

abbrev returned : Result Error (Unit {0}) → VerificationResult → Option VerificationResult
returned (ok u) r = some r
returned (throw e) r = none

-- `UNIQUE constraint failed`, on the primary key and the two unique columns
abbrev pub conflicts : Row → Row → Bool
conflicts row other =
    other.queue_job_id == row.queue_job_id
    || other.verification_id == row.verification_id
    || other.job_id == row.job_id

unfoldable pub insert_row : Row → Table → Result Error Table
insert_row row rows = do
  reject_if (some_of (conflicts row) rows) (plain "UNIQUE constraint failed: verification_results")
  ok (rows ++ row ∷ [])

-- `DELETE ... WHERE queue_job_id = ?` and `DELETE ... WHERE verification_id = ?`
unfoldable pub delete_queue_job : String → Table → Table
delete_queue_job id rows = filter (λ row. not (row.queue_job_id == id)) rows

unfoldable pub delete_verification : String → Table → Table
delete_verification id rows = filter (λ row. not (row.verification_id == id)) rows

-- `ORDER BY rowid ASC LIMIT 1`, and the deletion of that row by its primary key
unfoldable pub delete_oldest : Table → Table
unfolding delete_queue_job
delete_oldest [] = []
delete_oldest (oldest ∷ rows) = delete_queue_job oldest.queue_job_id (oldest ∷ rows)

-- The loop of `trimRetention`, on fuel.
unfoldable pub trim_retention : ℕ → ℕ → Table → Table
unfolding delete_oldest
trim_retention zero max_results rows = rows
trim_retention (suc fuel) max_results rows =
    let rest = trim_retention fuel max_results (delete_oldest rows) in
    if ltb max_results (length rows) then rest else rows

-- Whether a stored result is there and its field is another than expected.
abbrev pub has_other : (VerificationResult → String) → Option VerificationResult → String → Bool
has_other field none expected = false
has_other field (some r) expected = not (field r == expected)

-- `${name} "${key}" ${problem}`
abbrev quoted : String → String → String → String
quoted name key problem = concat name (concat " \"" (concat key (concat "\" " problem)))

unfoldable pub row_for : String → VerificationResult → Row
row_for queue_key result = record {
  queue_job_id = queue_key;
  verification_id = result.id;
  job_id = result.job_id;
  payload = some result;
  stored_at = result.created_at;
}

module _ (parse_url : String → Option Url) where
  abbrev read_payload : Option VerificationResult → Option VerificationResult
  read_payload none = none
  read_payload (some r) = returned (validate_verification_result parse_url r) r

  unfoldable pub read_result : Option Row → Option VerificationResult
  read_result none = none
  read_result (some row) = read_payload row.payload

  unfoldable pub get_by_queue_job_id : String → Table → Option VerificationResult
  unfolding read_result
  get_by_queue_job_id id rows = read_result (find (λ row. row.queue_job_id == id) rows)

  unfoldable pub get_by_verification_id : String → Table → Option VerificationResult
  unfolding read_result
  get_by_verification_id id rows = read_result (find (λ row. row.verification_id == id) rows)

  unfoldable pub get_by_job_id : String → Table → Option VerificationResult
  unfolding read_result
  get_by_job_id id rows = read_result (find (λ row. row.job_id == id) rows)

  -- The number of rows is enough fuel for the retention.
  unfoldable pub store : ℕ → String → VerificationResult → Table → Result Error Table
  unfolding is_blank get_by_queue_job_id get_by_verification_id get_by_job_id insert_row row_for
      delete_queue_job delete_verification trim_retention
  store max_results queue_key result rows = do
    reject_if (is_blank queue_key) (plain "queueJobId must be a non-empty string")
    validate_verification_result parse_url result
    reject_if (has_other (λ r. r.id) (get_by_queue_job_id queue_key rows) result.id)
        (plain (quoted "queue jobId" queue_key "is already registered"))
    reject_if (has_other (λ r. r.id) (get_by_job_id result.job_id rows) result.id)
        (plain (quoted "native result jobId" result.job_id "is already registered"))
    reject_if (has_other (λ r. r.job_id) (get_by_verification_id result.id rows) result.job_id)
        (plain (quoted "verification" result.id "has a different jobId"))
    inserted ←
        insert_row (row_for queue_key result)
          (delete_verification result.id (delete_queue_job queue_key rows))
    ok (trim_retention (length inserted) max_results inserted)

unfoldable pub size : Table → ℕ
size rows = length rows

unfoldable pub clear : Table → Table
clear rows = []
