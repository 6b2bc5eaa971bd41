-- ===== src/Worker/Registry.antt =====
-- apps/worker/src/result-registry.ts: the in-memory registry of verification results, with its two
-- secondary indexes and its bounded retention. All throws of `store` come before its changes, so a
-- rejected store returns an error and no registry.
pub mod Consistency
pub mod Recording
pub mod Eviction
pub mod Lookup
use Prim.Native.String.{◌++◌ as concat}
use verify_agent.Prelude.{
  ℕ, zero, suc, String, Bool, true, false, not, ◌&&◌, List, [], ◌∷◌, Option, none, some, Result, ok,
  throw, ◌>>=◌, ◌>>◌, reject_if, if◌then◌else◌, ◌==◌, ltb, is_some, or_else,
}
use verify_agent.Prelude.Text.{is_blank}
use verify_agent.JsMap.{JsMap, get, put, delete, delete_where, size, first_key}
use verify_agent.Errors.{Error, plain}
use verify_agent.Domain.Types.{VerificationResult}
use verify_agent.Domain.Validation.{Url, validate_verification_result}

pub record Registry : Type 0 where
  pub by_verification_id : JsMap VerificationResult
  pub verification_id_by_job_id : JsMap String
  pub verification_id_by_queue_job_id : JsMap String

unfoldable pub empty_registry : Registry
empty_registry = record {
  by_verification_id = [];
  verification_id_by_job_id = [];
  verification_id_by_queue_job_id = [];
}

unfoldable pub clear_secondary_mappings : String → Registry → Registry
unfolding delete_where
clear_secondary_mappings id s = record s {
  verification_id_by_job_id = delete_where (λ mapped. mapped == id) s.verification_id_by_job_id;
  verification_id_by_queue_job_id =
      delete_where (λ mapped. mapped == id) s.verification_id_by_queue_job_id;
}

unfoldable pub evict : Option String → Registry → Registry
unfolding delete clear_secondary_mappings
evict none s = s
evict (some oldest) s =
    clear_secondary_mappings oldest
      (record s { by_verification_id = delete oldest s.by_verification_id })

unfoldable pub evict_oldest : Registry → Registry
unfolding evict
evict_oldest s = evict (first_key s.by_verification_id) s

-- `while (byVerificationId.size > maxResults) evictOldest()`, on fuel.
unfoldable pub trim : ℕ → ℕ → Registry → Registry
unfolding evict_oldest
trim zero max_results s = s
trim (suc fuel) max_results s =
    let rest = trim fuel max_results (evict_oldest s) in
    if ltb max_results (size s.by_verification_id) then rest else s

-- `findNativeJobConflict` and `findQueueJobConflict`: whether another verification owns the key.
abbrev pub has_other_owner : Option String → String → Bool
has_other_owner none key = false
has_other_owner (some owner) key = not (owner == key)

-- The message of a conflict, with the owner where there is one.
abbrev taken : String → String → Option String → String
taken name key owner = concat name (
    concat " \"" (
      concat key
        (concat "\" is already registered for verification \"" (concat (or_else owner "") "\""))))

-- The changes of `store` before the eviction.
unfoldable pub record_result : String → VerificationResult → Registry → Registry
unfolding get put clear_secondary_mappings
record_result queue_key result s =
    let key = result.id in
    let cleared =
      if is_some (get key s.by_verification_id) then clear_secondary_mappings key s else s in
    record {
      by_verification_id = put key result cleared.by_verification_id;
      verification_id_by_job_id = put result.job_id key cleared.verification_id_by_job_id;
      verification_id_by_queue_job_id = put queue_key key cleared.verification_id_by_queue_job_id;
    }

module _ (parse_url : String → Option Url) where
  -- The size of the map is enough fuel for the eviction.
  unfoldable pub store : ℕ → String → VerificationResult → Registry → Result Error Registry
  unfolding get record_result trim is_blank
  store max_results queue_key result s = do
    reject_if (is_blank queue_key) (plain "queueJobId must be a non-empty string")
    validate_verification_result parse_url result
    reject_if (has_other_owner (get result.job_id s.verification_id_by_job_id) result.id) (
        plain (
          taken "native result jobId" result.job_id
            (get result.job_id s.verification_id_by_job_id)))
    reject_if (has_other_owner (get queue_key s.verification_id_by_queue_job_id) result.id)
        (plain (taken "queue jobId" queue_key (get queue_key s.verification_id_by_queue_job_id)))
    let next = record_result queue_key result s
    ok (trim (size next.by_verification_id) max_results next)

abbrev find_by : Option String → JsMap VerificationResult → Option VerificationResult
unfolding get
find_by none m = none
find_by (some id) m = get id m

unfoldable pub get_by_verification_id : String → Registry → Option VerificationResult
unfolding get
get_by_verification_id id s = get id s.by_verification_id

unfoldable pub get_by_job_id : String → Registry → Option VerificationResult
unfolding get find_by
get_by_job_id job_id s = find_by (get job_id s.verification_id_by_job_id) s.by_verification_id

unfoldable pub get_by_queue_job_id : String → Registry → Option VerificationResult
unfolding get find_by
get_by_queue_job_id queue_job_id s =
    find_by (get queue_job_id s.verification_id_by_queue_job_id) s.by_verification_id
