-- ===== src/Engine/Aggregation/Passing.antt =====
-- When a verification passes.
use verify_agent.Prelude.{
  String, false, List, Option, ok, ◌≡◌, sym, ap, ◌∙◌, arith, All, some_of, returns, ok-injective,
  map, traverse,
}
use verify_agent.Prelude.Sorting.{unique_sorted}
use verify_agent.Json.{Json}
use verify_agent.Domain.Types.{pass, allow, Evidence, Finding, VerificationResult, PolicyDecision}
use verify_agent.Domain.Validation.{Url, validate_verification_result}
use verify_agent.Policy.{brand_id, brand_all, DecisionContext, evaluate_default_policy}
use verify_agent.Policy.Decision.{evaluate_default_policy-IsTraced}
use verify_agent.Policy.Outcome.{specified_outcome, has_required_failure}
use verify_agent.Engine.Evidence.{evidence_for_check_result, findings_for_check_results}
use verify_agent.Engine.Coverage.{coverage_for_plan, is_error, status_for}
use verify_agent.Engine.Coverage.Settled.{IsSettled, coverage_for_plan-IsSettled, status_for-pass}
use verify_agent.Engine.Aggregation.{
  Input, Output, decision_context, assemble, aggregate_verification, make_result, brand_optional,
}

-- What a verification that passes has established.
pub record IsVerified (input : Input) (out : Output) : Type 0 where
  pub allowed : out.policy_decision.outcome ≡ allow
  pub settled : All (IsSettled input.check_results) input.plan.items
  pub no_errors : some_of (λ r. is_error r.status) input.check_results ≡ false
  pub required : has_required_failure (decision_context input out.evidence out.findings) ≡ false

specified_outcome-allow :
    (c : DecisionContext) → specified_outcome c ≡ allow → has_required_failure c ≡ false
specified_outcome-allow c h = ground arith

module _ (sha256 : Json → String) (parse_url : String → Option Url) where
  -- The status and the coverage of a result that is assembled.
  pub assemble-status :
      (input : Input) (evidence : List Evidence) (findings : List Finding) (d : PolicyDecision)
      (v : VerificationResult)
      → assemble sha256 parse_url input evidence findings d ≡ ok v
      → v.status
        ≡ status_for d.outcome
            (coverage_for_plan input.plan input.check_results)
            input.check_results
  unfolding assemble make_result
  assemble-status input evidence findings d v h =
      returns (brand_all (unique_sorted (map (λ r. r.id) input.check_results))) _ h λ checks _ h1.
        returns (brand_all (unique_sorted (map (λ e. e.id) evidence))) _ h1 λ es _ h2.
          returns (brand_all (unique_sorted (map (λ f. f.id) findings))) _ h2 λ fs _ h3.
            returns (brand_id input.verification_id) _ h3 λ id _ h4.
              returns (brand_optional input.previous_verification_id) _ h4 λ previous _ h5.
                returns (validate_verification_result parse_url _) _ h5
                  λ _ _ h6. ap (λ r. r.status) (sym (ok-injective h6))

  -- The calls of an aggregation that returned.
  pub aggregate_verification-eq-ok :
      (input : Input) (out : Output)
      → aggregate_verification sha256 parse_url input ≡ ok out
      → (traverse (evidence_for_check_result sha256) input.check_results ≡ ok out.evidence)
        × (findings_for_check_results sha256 out.evidence input.check_results ≡ ok out.findings)
        × (evaluate_default_policy sha256 (decision_context input out.evidence out.findings)
            ≡ ok out.policy_decision)
        × (assemble sha256 parse_url input out.evidence out.findings out.policy_decision
            ≡ ok out.result)
  unfolding aggregate_verification
  aggregate_verification-eq-ok input out h =
      returns (traverse (evidence_for_check_result sha256) input.check_results) _ h
        λ evidence e1 h1.
          returns (findings_for_check_results sha256 evidence input.check_results) _ h1
            λ findings e2 h2.
              returns (evaluate_default_policy sha256 (decision_context input evidence findings)) _
                h2
                λ d e3 h3.
                  returns (assemble sha256 parse_url input evidence findings d) _ h3
                    λ v e4 h4. rw (← ok-injective h4) (e1, e2, e3, e4)

  -- A verification passes only if the policy allows it, no check had an error, no required check
  -- failed, and each planned item is either disabled or has a last result that passed in a real
  -- execution: simulated, fixture, missing and unsupported checks never pass.
  pub aggregate_verification-IsVerified :
      (input : Input) (out : Output)
      → aggregate_verification sha256 parse_url input ≡ ok out
      → out.result.status ≡ pass
      → IsVerified input out
  aggregate_verification-IsVerified input out h p =
      let (_, _, e3, e4) = aggregate_verification-eq-ok input out h in
      let status =
        assemble-status input out.evidence out.findings out.policy_decision out.result e4 in
      let (allowed, complete, no_errors) =
        status_for-pass out.policy_decision.outcome
          (coverage_for_plan input.plan input.check_results) input.check_results (sym status ∙ p) in
      let context = decision_context input out.evidence out.findings in
      let traced = evaluate_default_policy-IsTraced sha256 context out.policy_decision e3 in
      record {
        allowed = allowed;
        settled = coverage_for_plan-IsSettled input.plan input.check_results complete;
        no_errors = no_errors;
        required = specified_outcome-allow context (sym traced.decided ∙ allowed);
      }
