-- ===== src/Tests/Aggregation.antt =====
-- Runs of packages/engine/src/aggregation.ts.
use verify_agent.Prelude.{
  ℕ, ◌+◌, ◌≤◌, String, Bool, true, false, List, [], ◌∷◌, Option, none, some, Result, ok, throw, ◌≡◌,
  ◌↔◌, refl, arith, inr, length,
}
use verify_agent.Domain.Types.{
  CheckResult, passed, failed, real, pass, blocked, block, Evidence, CheckStatus, PolicyOutcome,
  PolicyDecision, VerificationStatus, VerificationResult, allow, Finding, high, opened,
}
use verify_agent.Engine.Evidence.{evidence_content}
use verify_agent.Engine.Aggregation.{Output, aggregate_verification}
use verify_agent.Engine.Aggregation.Passing.{IsVerified, aggregate_verification-IsVerified}
use verify_agent.Tests.Samples.{digest, sha256_json, no_url, today, host, result_with}
use verify_agent.Tests.Engine.{input_with}

abbrev lint_result : CheckStatus → CheckResult
lint_result status = result_with "result-1" "typescript.lint" status

abbrev evidence_with : CheckStatus → Evidence
evidence_with status = record {
  id = "evidence-0123456789abcdef01234567";
  type = "check.result";
  summary = "done";
  value = evidence_content (lint_result status);
  source_references = "result-1" ∷ "run-1" ∷ [];
  producer = host;
  created_at = today;
  content_hash = digest;
  execution_source = real;
}

abbrev decision_with : PolicyOutcome → List String → List String → PolicyDecision
decision_with outcome rules findings = record {
  id = "decision-0123456789abcdef01234567";
  policy_id = "policy.default";
  policy_version = "1.0.0";
  outcome = outcome;
  triggered_rule_ids = rules;
  evidence_references = "evidence-0123456789abcdef01234567" ∷ [];
  finding_references = findings;
  created_at = today;
  content_hash = digest;
}

abbrev result_of :
    VerificationStatus → String → List String → List String → List String → VerificationResult
result_of status summary verified partial findings = record {
  id = "verification-1";
  request_id = "request-1";
  job_id = "job-1";
  project_id = "project-1";
  snapshot_id = "snapshot-1";
  change_set_id = "change-1";
  status = status;
  coverage = record {
    verified = verified;
    partial = partial;
    unsupported = [];
    not_applicable = [];
    simulated = [];
    fixture = [];
  };
  check_results = "result-1" ∷ [];
  evidence_references = "evidence-0123456789abcdef01234567" ∷ [];
  finding_references = findings;
  policy_decision = "decision-0123456789abcdef01234567";
  summary = summary;
  previous_verification_id = none;
  result_version = "1.0.0";
  content_hash = digest;
  created_at = today;
  requirement_evidence = none;
  check_run_evidence = none;
}

abbrev passing_output : Output
passing_output = record {
  evidence = evidence_with passed ∷ [];
  findings = [];
  policy_decision = decision_with allow [] [];
  result = result_of pass "pass: 1/1 checks passed." ("typescript.lint" ∷ []) [] [];
}

passing :
    aggregate_verification sha256_json no_url (input_with (lint_result passed ∷ []))
    ≡ ok passing_output
unfolding aggregate_verification verify_agent.Policy.brand_id
    verify_agent.Prelude.Text.is_identifier verify_agent.Domain.Validation.validate_evidence
    verify_agent.Prelude.Text.is_blank verify_agent.Prelude.Text.is_hex_of
    verify_agent.Domain.Dates.is_iso_date verify_agent.Policy.evaluate_default_policy
    verify_agent.Domain.Validation.validate_policy verify_agent.Policy.default_policy
    verify_agent.Prelude.Sorting.unique_sorted
    verify_agent.Domain.Validation.validate_policy_decision
    verify_agent.Domain.Validation.validate_verification_result
    verify_agent.Engine.Coverage.result_of verify_agent.Prelude.Text.decimal
passing = refl

aggregate_verification-IsVerified_example :
    IsVerified (input_with (lint_result passed ∷ [])) passing_output
aggregate_verification-IsVerified_example =
    aggregate_verification-IsVerified sha256_json no_url (input_with (lint_result passed ∷ []))
      passing_output passing refl

abbrev lint_finding : Finding
lint_finding = record {
  id = "finding-0123456789abcdef01234567";
  category = "check";
  severity = high;
  status = opened;
  title = "typescript.lint failed";
  description = "done";
  locations = [];
  evidence_references = "evidence-0123456789abcdef01234567" ∷ [];
  producer = host;
  confidence_in_range = some true;
}

abbrev failing_output : Output
failing_output = record {
  evidence = evidence_with failed ∷ [];
  findings = lint_finding ∷ [];
  policy_decision =
      decision_with block ("high-finding" ∷ "required-check-failure" ∷ [])
        ("finding-0123456789abcdef01234567" ∷ []);
  result =
      result_of blocked "blocked: 0/1 checks passed." [] ("typescript.lint" ∷ [])
        ("finding-0123456789abcdef01234567" ∷ []);
}
