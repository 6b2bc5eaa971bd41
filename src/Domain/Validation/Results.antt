-- ===== src/Domain/Validation/Results.antt =====
-- packages/domain/src/validation.ts: the requirement evidence and the verification result. The URL
-- parser is the host's, a parameter.
use Prim.Native.String.{◌++◌ as concat}
use verify_agent.Prelude.{
  ℕ, String, Bool, true, false, ◌&&◌, ◌||◌, List, [], ◌∷◌, ◌++◌, map, Option, none, some, ◌>>◌,
  ◌==◌, is_empty, length, leb, nat_eq,
}
use verify_agent.Prelude.Text.{is_hex_of, codes, js_length}
use verify_agent.Json.{Number, nat}
use verify_agent.Domain.Dates.{skip_digits}
use verify_agent.Domain.Types.{
  VerificationResult, RequirementEvidence, EvidenceLocation, CheckRunEvidence,
}
use verify_agent.Domain.Validation.Fields.{
  Checked, require, check_each, check_optional, non_empty, identifier, hash, iso_date,
}
use verify_agent.Domain.Validation.Records.{validate_coverage}

-- `Number.isSafeInteger(n) && n > 0`
abbrev is_safe_positive : Number → Bool
is_safe_positive (nat n) = leb 1 n && leb n 9007199254740991
is_safe_positive _ = false

abbrev is_missing_or {ℓ} : {A : Type ℓ} → (A → Bool) → Option A → Bool
is_missing_or p none = true
is_missing_or p (some x) = p x

-- `/^\d+\.\d+\.\d+$/`
abbrev digits_then : (List ℕ → Bool) → List ℕ → Bool
digits_then rest cs = let (n, more) = skip_digits cs in leb 1 n && rest more

abbrev dot_then : (List ℕ → Bool) → List ℕ → Bool
dot_then rest [] = false
dot_then rest (c ∷ cs) = nat_eq c b'.' && rest cs

unfoldable pub is_semantic_version : String → Bool
is_semantic_version s =
    digits_then (dot_then (digits_then (dot_then (digits_then is_empty)))) (codes s)

-- What the program reads of a parsed URL.
pub record Url : Type 0 where
  pub protocol : String
  pub username : String
  pub password : String

module _ (parse_url : String → Option Url) where
  -- The throws inside the `try` are caught by its own `catch`.
  safe_http_url : String → String → Checked
  safe_http_url value name =
      require (is_safe (parse_url value)) (concat name " must be a valid URL")
    where
      is_safe : Option Url → Bool
      is_safe none = false
      is_safe (some url) =
          (url.protocol == "https:" || url.protocol == "http:")
          && is_empty (codes url.username)
          && is_empty (codes url.password)

  evidence_location : EvidenceLocation → Checked
  unfolding safe_http_url
  evidence_location location = do
    check_optional (λ u. safe_http_url u "requirement evidence URL") location.url
    require (is_missing_or is_safe_positive location.start_line)
        "invalid requirement evidence start line"
    require (is_missing_or is_safe_positive location.end_line)
        "invalid requirement evidence end line"

  requirement_evidence : RequirementEvidence → Checked
  unfolding identifier non_empty hash iso_date check_each safe_http_url evidence_location js_length
  requirement_evidence evidence = do
    identifier evidence.id "requirement evidence id"
    check_optional (λ r. identifier r "requirement id") evidence.requirement_id
    non_empty evidence.requirement_text "requirement text"
    non_empty evidence.explanation "requirement explanation"
    non_empty evidence.source.owner "requirement source owner"
    non_empty evidence.source.repository "requirement source repository"
    require (is_safe_positive evidence.source.number) "invalid requirement source number"
    require (leb (length evidence.matched_files) 50 && leb (length evidence.locations) 100)
        "too much requirement evidence detail"
    require (leb (length evidence.observed_text) 100) "too much observed requirement evidence"
    check_each
        (λ value. require (leb (js_length value) 500) "requirement evidence value is too long")
        (evidence.matched_files ++ (evidence.observed_text ++ map (λ l. l.file) evidence.locations))
    require (leb (js_length evidence.explanation) 1000)
        "requirement evidence explanation is too long"
    hash evidence.evidence_hash "requirement evidence hash"
    check_optional (λ u. safe_http_url u "requirement source URL") evidence.source.url
    check_each evidence_location evidence.locations
    require (is_missing_or (is_hex_of 40) evidence.commit_sha)
        "requirement evidence commitSha must be a full SHA"
    check_optional (λ d. iso_date d "requirement evidence collectedAt") evidence.collected_at

  check_run : CheckRunEvidence → Checked
  unfolding non_empty safe_http_url
  check_run check = do
    require (is_safe_positive check.id) "invalid check-run id"
    non_empty check.name "check-run name"
    non_empty check.status "check-run status"
    require (is_hex_of 40 check.head_sha) "check-run headSha must be a full SHA"
    check_optional (λ c. non_empty c "check-run conclusion") check.conclusion
    check_optional (λ u. safe_http_url u "check-run URL") check.url

  requirement_records : List RequirementEvidence → Checked
  unfolding requirement_evidence check_each
  requirement_records records = do
    require (leb (length records) 100) "too many requirement evidence records"
    check_each requirement_evidence records

  check_run_records : List CheckRunEvidence → Checked
  unfolding check_run check_each
  check_run_records records = do
    require (leb (length records) 100) "too many check-run evidence records"
    check_each check_run records

  unfoldable pub validate_verification_result : VerificationResult → Checked
  unfolding identifier non_empty hash iso_date check_each validate_coverage requirement_records
      check_run_records is_semantic_version
  validate_verification_result value = do
    identifier value.id "verification id"
    identifier value.request_id "request id"
    identifier value.job_id "job id"
    identifier value.project_id "project id"
    identifier value.snapshot_id "snapshot id"
    identifier value.change_set_id "change set id"
    non_empty value.summary "summary"
    identifier value.policy_decision "policy decision"
    validate_coverage value.coverage
    check_each (λ r. identifier r "result reference")
        (value.check_results ++ (value.evidence_references ++ value.finding_references))
    hash value.content_hash "contentHash"
    require (is_semantic_version value.result_version) "resultVersion must be semantic version"
    iso_date value.created_at "createdAt"
    check_optional requirement_records value.requirement_evidence
    check_optional check_run_records value.check_run_evidence
