-- ===== src/Tests/Domain.antt =====
-- Runs of packages/domain and packages/policy.
use verify_agent.Prelude.{
  ℕ, ◌≤◌, String, true, false, List, [], ◌∷◌, ◌++◌, Option, none, some, ok, ◌≡◌, ◌↔◌, refl, arith,
  some_of, is_some, nat_eq, Bool, ◌||◌,
}
use verify_agent.Prelude.Text.{codes, is_identifier, is_blank, between}
use verify_agent.Domain.Dates.{is_iso_date}
use verify_agent.Domain.Paths.{normalize_path, split_slash, starts_with_slash}
use verify_agent.Domain.Paths.Confined.{normalize_path-confined, walk}
use verify_agent.Domain.Queue.{QueueJob, read_queue_job, job_json}
use verify_agent.Domain.Queue.RoundTrip.{IsValidJob, read_queue_job-job_json}
use verify_agent.Domain.Types.{failed, PolicyDecision, block}
use verify_agent.Policy.{DecisionContext, apply_rules, default_policy, evaluate_default_policy}
use verify_agent.Policy.Outcome.{apply_rules-specified, specified_outcome}
use verify_agent.Policy.Decision.{evaluate_default_policy-IsTraced, IsTraced}
use verify_agent.Tests.Samples.{job_with, today, result_with, sha256_json, digest}

abbrev sample_path : List ℕ
sample_path = codes "./src\\main.ts"

normalize_path-confined_example :
    (some_of (λ c. nat_eq c 92) (codes "src/main.ts") ≡ false)
    × (starts_with_slash (codes "src/main.ts") ≡ false)
    × ((c : ℕ) (rest : List ℕ)
        → codes "src/main.ts" ≡ c ∷ b':' ∷ b'/' ∷ rest
        → (between b'A' b'Z' c || between b'a' b'z' c) ≡ false)
    × (is_some (walk 0 (split_slash (codes "src/main.ts"))) ≡ true)
unfolding normalize_path
normalize_path-confined_example = normalize_path-confined sample_path (codes "src/main.ts") 0 refl

abbrev sample_job : QueueJob
sample_job = job_with "job-1" today

sample_job-IsValidJob : IsValidJob sample_job
unfolding is_identifier is_blank is_iso_date
sample_job-IsValidJob = record {
  named = refl;
  sourced = refl;
  acted = refl;
  numbered = omega arith;
  delivered = refl;
  dated = refl;
}

read_queue_job-job_json_example : read_queue_job (job_json sample_job) ≡ ok sample_job
read_queue_job-job_json_example = read_queue_job-job_json sample_job sample_job-IsValidJob

abbrev sample_context : DecisionContext
unfolding default_policy
sample_context = record {
  results = result_with "result-1" "typescript.lint" failed ∷ [];
  evidence = [];
  findings = [];
  policy = default_policy;
  required_check_ids = "typescript.lint" ∷ [];
  unsupported_required_capabilities = "rust.check" ∷ [];
  non_real_required_check_ids = [];
  created_at = today;
}

apply_rules-specified_example :
    (apply_rules sample_context).outcome ≡ specified_outcome sample_context
apply_rules-specified_example = apply_rules-specified sample_context

abbrev sample_decision : PolicyDecision
unfolding default_policy
sample_decision = record {
  id = "decision-0123456789abcdef01234567";
  policy_id = "policy.default";
  policy_version = "1.0.0";
  outcome = block;
  triggered_rule_ids = "required-check-failure" ∷ [];
  evidence_references = [];
  finding_references = [];
  created_at = today;
  content_hash = digest;
}

evaluate_default_policy-IsTraced_example : IsTraced sample_context sample_decision
unfolding evaluate_default_policy verify_agent.Domain.Validation.validate_policy is_blank
    sample_context is_iso_date verify_agent.Prelude.Sorting.unique_sorted is_identifier
    verify_agent.Domain.Validation.validate_policy_decision verify_agent.Prelude.Text.is_hex_of
evaluate_default_policy-IsTraced_example =
    evaluate_default_policy-IsTraced sha256_json sample_context sample_decision refl
