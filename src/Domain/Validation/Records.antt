-- ===== src/Domain/Validation/Records.antt =====
-- packages/domain/src/validation.ts: the records that checks produce, the policy and the coverage. A
-- value of a union type needs no test of its union (Types).
use Prim.Native.String.{◌++◌ as concat}
use verify_agent.Prelude.{
  String, Bool, true, false, not, ◌&&◌, List, [], ◌∷◌, ◌++◌, Option, none, some, Result, ok, ◌>>=◌,
  ◌>>◌, reject_if, is_empty, leb, nat_eq, every, includes, ltb, or_else,
}
use verify_agent.Prelude.Text.{is_blank, codes}
use verify_agent.Json.{Number, nat}
use verify_agent.Errors.{Error, domain_validation}
use verify_agent.Domain.Paths.{normalize_path}
use verify_agent.Domain.Types.{
  CheckExecution, CheckResult, Evidence, Finding, FindingLocation, Policy, PolicyDecision,
  VerificationCoverage, ProjectProfile,
}
use verify_agent.Domain.Validation.Fields.{
  Checked, require, check_each, check_optional, non_empty, identifier, integer_at_least, hash,
  iso_date, has_producer, optional_date,
}

unfoldable pub validate_project_profile : ProjectProfile → Checked
unfolding identifier
validate_project_profile value = do
  identifier value.project_id "profile project id"
  identifier value.snapshot_id "profile snapshot id"
  require (leb value.detection_confidence 100) "detectionConfidence must be between 0 and 1"

unfoldable pub validate_check_execution : CheckExecution → Checked
unfolding identifier hash iso_date
validate_check_execution value = do
  identifier value.id "check execution id"
  identifier value.check_definition_id "check definition id"
  identifier value.job_id "job id"
  hash value.inputs_hash "inputsHash"
  check_optional (λ d. identifier d "dependency artifact id") value.dependency_artifact_id
  optional_date value.started_at "startedAt"
  optional_date value.completed_at "completedAt"

unfoldable pub validate_check_result : CheckResult → Checked
unfolding identifier non_empty integer_at_least hash iso_date
validate_check_result value = do
  identifier value.id "check result id"
  identifier value.check_execution_id "check execution id"
  identifier value.check_id "check id"
  non_empty value.check_version "check version"
  non_empty value.summary "summary"
  integer_at_least value.duration_ms 0 "durationMs"
  hash value.input_hash "inputHash"
  hash value.content_hash "contentHash"
  iso_date value.created_at "createdAt"
  require (has_producer value.producer) "check result requires producer provenance"

unfoldable pub validate_evidence : Evidence → Checked
unfolding identifier non_empty hash iso_date
validate_evidence value = do
  identifier value.id "evidence id"
  non_empty value.type "evidence type"
  non_empty value.summary "evidence summary"
  require
      (not (is_empty value.source_references)
        && every (λ r. not (is_blank r)) value.source_references)
      "evidence requires a source reference"
  hash value.content_hash "contentHash"
  iso_date value.created_at "createdAt"
  require (has_producer value.producer) "evidence requires producer provenance"

unfoldable pub validate_policy : Policy → Checked
unfolding non_empty iso_date
validate_policy value = do
  non_empty value.id "policy id"
  non_empty value.name "policy name"
  non_empty value.version "policy version"
  iso_date value.created_at "createdAt"

unfoldable pub validate_policy_decision : PolicyDecision → Checked
unfolding identifier non_empty hash iso_date check_each
validate_policy_decision value = do
  identifier value.id "policy decision id"
  identifier value.policy_id "policy id"
  non_empty value.policy_version "policy version"
  non_empty value.content_hash "contentHash"
  hash value.content_hash "contentHash"
  check_each (λ r. identifier r "policy reference")
      (value.triggered_rule_ids ++ (value.evidence_references ++ value.finding_references))
  iso_date value.created_at "createdAt"

abbrev is_below : Number → Number → Bool
is_below (nat a) (nat b) = ltb a b
is_below _ _ = false

abbrev same_number : Number → Number → Bool
same_number (nat a) (nat b) = nat_eq a b
same_number _ _ = false

abbrev ends_before : Option Number → Number → Bool
ends_before none start = false
ends_before (some end_) start = is_below end_ start

abbrev on_one_line_ends_before : FindingLocation → Bool
on_one_line_ends_before value = elim value.end_line [
  | none ↦ false
  | some line ↦ same_number line value.start_line && elim value.end_column [
    | none ↦ false
    | some last ↦ elim value.start_column [ none ↦ false | some first ↦ is_below last first ]
  ]
]

-- Its numbers are compared where the tests above have shown them to be natural.
unfoldable pub validate_finding_location : FindingLocation → Checked
unfolding integer_at_least
validate_finding_location value = do
  _ ← normalize_path (codes value.path)
  integer_at_least value.start_line 1 "startLine"
  check_optional (λ n. integer_at_least n 1 "startColumn") value.start_column
  check_optional (λ n. integer_at_least n 1 "endLine") value.end_line
  check_optional (λ n. integer_at_least n 1 "endColumn") value.end_column
  require (not (ends_before value.end_line value.start_line))
      "endLine cannot be less than startLine"
  require (not (on_one_line_ends_before value))
      "endColumn cannot be less than startColumn on the same line"

unfoldable pub validate_finding : Finding → Checked
unfolding identifier non_empty check_each validate_finding_location
validate_finding value = do
  identifier value.id "finding id"
  non_empty value.category "finding category"
  non_empty value.title "finding title"
  non_empty value.description "finding description"
  require (not (is_empty value.evidence_references))
      "finding requires at least one evidence reference"
  check_each (λ r. identifier r "evidence reference") value.evidence_references
  check_each validate_finding_location value.locations
  require (has_producer value.producer) "finding requires producer provenance"
  require (or_else value.confidence_in_range true) "confidence must be between 0 and 1"

-- The loops of `validateCoverage` over one category, and over the six of them: `seen` is the set.
coverage_group : List String → List String → Result Error (List String)
unfolding non_empty
coverage_group seen [] = ok seen
coverage_group seen (capability ∷ rest) = do
  non_empty capability "capability"
  reject_if (includes seen capability)
      (domain_validation (concat "capability appears in multiple coverage categories: " capability))
  coverage_group (capability ∷ seen) rest

coverage_groups : List String → List (List String) → Checked
unfolding coverage_group
coverage_groups seen [] = ok tt
coverage_groups seen (group ∷ groups) = do
  seen' ← coverage_group seen group
  coverage_groups seen' groups

abbrev pub categories : VerificationCoverage → List (List String)
categories value =
    value.verified ∷ value.partial ∷ value.unsupported ∷ value.not_applicable ∷ value.simulated
    ∷ value.fixture ∷ []

unfoldable pub validate_coverage : VerificationCoverage → Checked
unfolding coverage_groups
validate_coverage value = coverage_groups [] (categories value)
