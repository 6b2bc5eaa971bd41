-- ===== src/Engine/Evidence.antt =====
-- packages/engine/src/aggregation.ts: the evidence of a check result, and the findings. `sha256` of
-- the JSON text of a value is node:crypto's, a parameter.
use Prim.Native.String.{◌++◌ as concat, slice}
use verify_agent.Prelude.{
  String, true, List, [], ◌∷◌, ◌++◌, Option, none, some, Result, ok, ◌>>=◌, ◌>>◌, ◌==◌,
  if◌then◌else◌, or_option,
}
use verify_agent.Json.{Json, Number, num, str, object, strings, optional}
use verify_agent.Errors.{Error}
use verify_agent.Domain.Types.{
  CheckResult, CheckStatus, passed, failed, error, timed_out, cancelled, skipped, ExecutionSource,
  real, simulated, fixture, Evidence, Finding, high, opened,
}
use verify_agent.Domain.Validation.{validate_evidence, validate_finding}
use verify_agent.Policy.{brand_id}

abbrev pub check_status_text : CheckStatus → String
check_status_text passed = "passed"
check_status_text failed = "failed"
check_status_text error = "error"
check_status_text timed_out = "timed_out"
check_status_text cancelled = "cancelled"
check_status_text skipped = "skipped"

abbrev pub source_text : ExecutionSource → String
source_text real = "real"
source_text simulated = "simulated"
source_text fixture = "fixture"

abbrev option_num : Option Number → Option Json
option_num none = none
option_num (some n) = some (num n)

abbrev pub option_str : Option String → Option Json
option_str none = none
option_str (some s) = some (str s)

abbrev pub evidence_content : CheckResult → Json
evidence_content result = object (
    ("type", str "check.result")
    ∷ ("checkResultId", str result.id)
    ∷ ("checkExecutionId", str result.check_execution_id)
    ∷ ("checkId", str result.check_id)
    ∷ ("checkVersion", str result.check_version)
    ∷ ("status", str (check_status_text result.status))
    ∷ (optional "exitCode" (option_num result.exit_code)
        ++ (("durationMs", num result.duration_ms)
            ∷ ("summary", str result.summary)
            ∷ (optional "rawOutputRef" (option_str result.raw_output_ref)
                ++ (("artifactRefs", strings result.artifact_refs)
                    ∷ (
                      "metrics",
                      object (
                          ("memoryBytes", num result.memory_bytes)
                          ∷ ("cpuTimeMs", num result.cpu_time_ms)
                          ∷ []),
                    )
                    ∷ ("inputHash", str result.input_hash)
                    ∷ ("executionSource", str (source_text result.execution_source))
                    ∷ [])))))

-- The severity is "high" in each case: the title and the description of a finding, or none.
abbrev pub finding_details : CheckResult → Option (String × String)
finding_details result = by_status result.status
  where
    by_status : CheckStatus → Option (String × String)
    by_status failed = some (concat result.check_id " failed", result.summary)
    by_status timed_out = some (concat result.check_id " timed out", result.summary)
    by_status error =
        some (concat result.check_id " encountered an execution error", result.summary)
    by_status cancelled = some (
      concat result.check_id " was cancelled",
      "The check did not complete, so its capability could not be verified.",
    )
    by_status passed = none
    by_status skipped = none

-- The text of `sourceReferences[0]`, "undefined" where there is none.
abbrev pub first_reference : Evidence → String
first_reference e = head e.source_references
  where
    head : List String → String
    head [] = "undefined"
    head (r ∷ rs) = r

-- `new Map(evidence.map((item) => [item.sourceReferences[0], item])).get(id)`: the last one counts.
unfoldable pub evidence_of : String → List Evidence → Option Evidence
evidence_of id [] = none
evidence_of id (e ∷ es) =
    or_option (evidence_of id es) (if first_reference e == id then some e else none)

module _ (sha256 : Json → String) where
  make_evidence : CheckResult → String → String → Evidence
  make_evidence result digest id = record {
    id = id;
    type = "check.result";
    summary = result.summary;
    value = evidence_content result;
    source_references = result.id ∷ result.check_execution_id ∷ [];
    producer = result.producer;
    created_at = result.created_at;
    content_hash = digest;
    execution_source = result.execution_source;
  }

  unfoldable pub evidence_for_check_result : CheckResult → Result Error Evidence
  unfolding make_evidence
  evidence_for_check_result result = do
    let digest = sha256 (evidence_content result)
    id ← brand_id (concat "evidence-" (slice digest 0 24))
    let evidence = make_evidence result digest id
    validate_evidence evidence
    ok evidence

  finding_content : CheckResult → String → String → Evidence → Json
  finding_content result title description source = object (
      ("category", str "check")
      ∷ ("checkId", str result.check_id)
      ∷ ("status", str (check_status_text result.status))
      ∷ ("severity", str "high")
      ∷ ("title", str title)
      ∷ ("description", str description)
      ∷ ("evidenceReferences", strings (source.id ∷ []))
      ∷ [])

  make_finding : CheckResult → String → String → Evidence → String → Finding
  make_finding result title description source id = record {
    id = id;
    category = "check";
    severity = high;
    status = opened;
    title = title;
    description = description;
    locations = [];
    evidence_references = source.id ∷ [];
    producer = result.producer;
    confidence_in_range = some true;
  }

  -- The body of the `flatMap`.
  unfoldable pub finding_for :
      CheckResult → Option (String × String) → Option Evidence → Result Error (List Finding)
  unfolding finding_content make_finding
  finding_for result (some (title, description)) (some source) = do
    id ←
        brand_id (
          concat "finding-" (slice (sha256 (finding_content result title description source)) 0 24))
    let finding = make_finding result title description source id
    validate_finding finding
    ok (finding ∷ [])
  finding_for result none source = ok []
  finding_for result (some details) none = ok []

  unfoldable pub findings_for_check_results :
      List Evidence → List CheckResult → Result Error (List Finding)
  unfolding finding_for
  findings_for_check_results evidence [] = ok []
  findings_for_check_results evidence (r ∷ rs) = do
    here ← finding_for r (finding_details r) (evidence_of r.id evidence)
    rest ← findings_for_check_results evidence rs
    ok (here ++ rest)
