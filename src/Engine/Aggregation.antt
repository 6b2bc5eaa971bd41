-- ===== src/Engine/Aggregation.antt =====
-- packages/engine/src/aggregation.ts: from the results of the checks to the verification result.
-- `sha256` of the JSON text of a value and the URL parser are parameters.
pub mod Passing
pub mod Failing
use Prim.Native.String.{◌++◌ as concat}
use verify_agent.Prelude.{
  String, Bool, true, false, not, ◌&&◌, List, [], ◌∷◌, map, Option, none, some, Result, ok, throw,
  ◌>>=◌, ◌>>◌, ◌==◌, if◌then◌else◌, filter, find, length, or_else, traverse,
}
use verify_agent.Prelude.Text.{decimal}
use verify_agent.Prelude.Sorting.{unique_sorted}
use verify_agent.Json.{Json, str, object, strings}
use verify_agent.Errors.{Error}
use verify_agent.Domain.Types.{
  CheckResult, Evidence, Finding, CheckPlan, CheckPlanItem, Applicability, applicable,
  not_applicable, unsupported, VerificationCoverage, VerificationStatus, pass, needs_review,
  needs_changes, blocked, partial, error, PolicyDecision, Policy, VerificationResult,
}
use verify_agent.Domain.Validation.{Url, validate_verification_result}
use verify_agent.Policy.{
  brand_id, brand_all, evaluate_default_policy, default_policy, DecisionContext,
}
use verify_agent.Engine.Evidence.{evidence_for_check_result, findings_for_check_results}
use verify_agent.Engine.Coverage.{coverage_for_plan, status_for, is_passed, is_real}

abbrev pub status_text : VerificationStatus → String
status_text pass = "pass"
status_text needs_review = "needs_review"
status_text needs_changes = "needs_changes"
status_text blocked = "blocked"
status_text partial = "partial"
status_text error = "error"

-- What the function reads of the request and of the job.
pub record Request : Type 0 where
  pub id : String
  pub project_id : String
  pub snapshot_id : String
  pub change_set_id : String

pub record Input : Type 0 where
  pub request : Request
  pub job_id : String
  pub plan : CheckPlan
  pub check_results : List CheckResult
  pub policy : Option Policy
  pub verification_id : String
  pub created_at : String
  pub previous_verification_id : Option String

pub record Output : Type 0 where
  pub evidence : List Evidence
  pub findings : List Finding
  pub policy_decision : PolicyDecision
  pub result : VerificationResult

abbrev pub is_applicable : Applicability → Bool
is_applicable applicable = true
is_applicable not_applicable = false
is_applicable unsupported = false

abbrev pub is_unsupported : Applicability → Bool
is_unsupported unsupported = true
is_unsupported applicable = false
is_unsupported not_applicable = false

abbrev pub is_planned : Applicability → CheckPlanItem → Bool
is_planned applicable item = is_applicable item.applicability
is_planned unsupported item = is_unsupported item.applicability
is_planned not_applicable item = false

-- The check identifiers of the required items of one applicability.
unfoldable pub required_ids : Applicability → CheckPlan → List String
required_ids a plan = map (λ i. i.check_id) (filter (λ i. i.required && is_planned a i) plan.items)

abbrev has_synthetic_result : Option CheckResult → Bool
has_synthetic_result none = false
has_synthetic_result (some r) = not (is_real r.execution_source)

unfoldable pub decision_context : Input → List Evidence → List Finding → DecisionContext
unfolding required_ids
decision_context input evidence findings =
    let required = required_ids applicable input.plan in
    record {
      results = input.check_results;
      evidence = evidence;
      findings = findings;
      policy = or_else input.policy default_policy;
      required_check_ids = required;
      unsupported_required_capabilities = required_ids unsupported input.plan;
      non_real_required_check_ids =
          filter (λ id. has_synthetic_result (find (λ r. r.check_id == id) input.check_results))
            required;
      created_at = input.created_at;
    }

abbrev summary_of : VerificationStatus → List CheckResult → String
summary_of status results = concat (status_text status) (
    concat ": " (
      concat (decimal (length (filter (λ r. is_passed r.status) results)))
        (concat "/" (concat (decimal (length results)) " checks passed."))))

abbrev coverage_json : VerificationCoverage → Json
coverage_json c = object (
    ("verified", strings c.verified)
    ∷ ("partial", strings c.partial)
    ∷ ("unsupported", strings c.unsupported)
    ∷ ("notApplicable", strings c.not_applicable)
    ∷ ("simulated", strings c.simulated)
    ∷ ("fixture", strings c.fixture)
    ∷ [])

abbrev brand_optional : Option String → Result Error (Option String)
brand_optional none = ok none
brand_optional (some id) = brand_id id >>= λ b. ok (some b)

-- The references of a result: check results, evidence, findings, in this order.
abbrev References : Type 0
References = List String × List String × List String

-- The object literal of the result.
make_result :
    Input
    → PolicyDecision
    → VerificationCoverage
    → References
    → VerificationStatus
    → String
    → Option String
    → String
    → VerificationResult
make_result input decision coverage (checks, evidence, findings) status id previous digest =
    record {
      id = id;
      request_id = input.request.id;
      job_id = input.job_id;
      project_id = input.request.project_id;
      snapshot_id = input.request.snapshot_id;
      change_set_id = input.request.change_set_id;
      status = status;
      coverage = coverage;
      check_results = checks;
      evidence_references = evidence;
      finding_references = findings;
      policy_decision = decision.id;
      summary = summary_of status input.check_results;
      previous_verification_id = previous;
      result_version = "1.0.0";
      content_hash = digest;
      created_at = input.created_at;
      requirement_evidence = none;
      check_run_evidence = none;
    }

result_content :
    Input → PolicyDecision → VerificationCoverage → References → VerificationStatus → Json
result_content input decision coverage (checks, evidence, findings) status = object (
    ("requestId", str input.request.id)
    ∷ ("jobId", str input.job_id)
    ∷ ("projectId", str input.request.project_id)
    ∷ ("snapshotId", str input.request.snapshot_id)
    ∷ ("changeSetId", str input.request.change_set_id)
    ∷ ("status", str (status_text status))
    ∷ ("coverage", coverage_json coverage)
    ∷ ("checkResults", strings checks)
    ∷ ("evidenceReferences", strings evidence)
    ∷ ("findingReferences", strings findings)
    ∷ ("policyDecision", str decision.id)
    ∷ ("policyDecisionHash", str decision.content_hash)
    ∷ ("summary", str (summary_of status input.check_results))
    ∷ ("resultVersion", str "1.0.0")
    ∷ [])

module _ (sha256 : Json → String) (parse_url : String → Option Url) where
  -- The part of the function after the policy decision.
  unfoldable pub assemble :
      Input → List Evidence → List Finding → PolicyDecision → Result Error VerificationResult
  unfolding coverage_for_plan status_for make_result result_content
  assemble input evidence findings decision = do
    let coverage = coverage_for_plan input.plan input.check_results
    let status = status_for decision.outcome coverage input.check_results
    checks ← brand_all (unique_sorted (map (λ r. r.id) input.check_results))
    evidence_ids ← brand_all (unique_sorted (map (λ e. e.id) evidence))
    finding_ids ← brand_all (unique_sorted (map (λ f. f.id) findings))
    let references : References = (checks, evidence_ids, finding_ids)
    id ← brand_id input.verification_id
    previous ← brand_optional input.previous_verification_id
    let digest = sha256 (result_content input decision coverage references status)
    let result = make_result input decision coverage references status id previous digest
    validate_verification_result parse_url result
    ok result

  unfoldable pub aggregate_verification : Input → Result Error Output
  unfolding evidence_for_check_result findings_for_check_results decision_context assemble
  aggregate_verification input = do
    evidence ← traverse (evidence_for_check_result sha256) input.check_results
    findings ← findings_for_check_results sha256 evidence input.check_results
    decision ← evaluate_default_policy sha256 (decision_context input evidence findings)
    result ← assemble input evidence findings decision
    ok (record {
      evidence = evidence;
      findings = findings;
      policy_decision = decision;
      result = result;
    })
