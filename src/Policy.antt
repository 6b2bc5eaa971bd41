-- ===== src/Policy.antt =====
-- packages/policy/src/default.ts: the default policy and its evaluation. `sha256` of the JSON text
-- of a value is node:crypto's, a parameter.
pub mod Outcome
pub mod Decision
use Prim.Native.String.{◌++◌ as concat, slice}
use verify_agent.Prelude.{
  ℕ, String, Bool, true, false, not, ◌&&◌, List, [], ◌∷◌, ◌++◌, map, Option, none, some, Result, ok,
  throw, ◌>>=◌, ◌>>◌, reject_if, if◌then◌else◌, is_empty, filter, includes,
}
use verify_agent.Prelude.Text.{is_identifier}
use verify_agent.Prelude.Sorting.{unique_sorted}
use verify_agent.Json.{Json, str, strings, object}
use verify_agent.Errors.{Error, plain}
use verify_agent.Domain.Types.{
  CheckResult, CheckStatus, passed, failed, error, timed_out, cancelled, skipped, Evidence, Finding,
  Severity, info, low, medium, high, critical, Policy, PolicyRule, PolicyOutcome, allow,
  needs_review, needs_changes, block, PolicyDecision,
}
use verify_agent.Domain.Validation.{validate_policy, validate_policy_decision}

pub record DecisionContext : Type 0 where
  pub results : List CheckResult
  pub evidence : List Evidence
  pub findings : List Finding
  pub policy : Policy
  pub required_check_ids : List String
  pub unsupported_required_capabilities : List String
  pub non_real_required_check_ids : List String
  pub created_at : String

-- The policy of `createDefaultPolicy()`; conditions and descriptions of rules are not kept.
unfoldable pub default_policy : Policy
default_policy = record {
  id = "policy.default";
  name = "Default deterministic verification policy";
  version = "1.0.0";
  rules =
      rule "non-real-required-execution" "needs_changes" 25
      ∷ rule "required-check-failure" "block" 10
      ∷ rule "high-finding" "block" 20
      ∷ rule "unsupported-required-capability" "needs_changes" 30
      ∷ rule "medium-finding" "needs_review" 40
      ∷ [];
  created_at = "2026-08-31T00:00:00Z";
}
  where
    rule : String → String → ℕ → PolicyRule
    rule id action priority = record { rule_id = id; action = action; priority = priority }

-- `["failed", "timed_out", "error", "cancelled"].includes(status)`
abbrev pub is_failure : CheckStatus → Bool
is_failure failed = true
is_failure timed_out = true
is_failure error = true
is_failure cancelled = true
is_failure passed = false
is_failure skipped = false

abbrev pub is_severe : Severity → Bool
is_severe high = true
is_severe critical = true
is_severe info = false
is_severe low = false
is_severe medium = false

abbrev pub is_medium : Severity → Bool
is_medium medium = true
is_medium info = false
is_medium low = false
is_medium high = false
is_medium critical = false

abbrev pub is_block : PolicyOutcome → Bool
is_block block = true
is_block allow = false
is_block needs_review = false
is_block needs_changes = false

abbrev pub is_allow : PolicyOutcome → Bool
is_allow allow = true
is_allow block = false
is_allow needs_review = false
is_allow needs_changes = false

unfoldable pub failed_required_checks : List CheckResult → List String → List CheckResult
failed_required_checks results required =
    filter (λ r. includes required r.check_id && is_failure r.status) results

-- The two variables that the rules assign: the outcome, and the identifiers of the rules.
pub record Triggered : Type 0 where
  pub outcome : PolicyOutcome
  pub rules : List String

abbrev trigger : Bool → PolicyOutcome → String → Triggered → Triggered
trigger false o rule t = t
trigger true o rule t = record { outcome = o; rules = t.rules ++ rule ∷ [] }

-- The five tests, in order.
unfoldable pub apply_rules : DecisionContext → Triggered
unfolding failed_required_checks
apply_rules c =
    let start : Triggered = record { outcome = allow; rules = [] } in
    let failing =
      trigger (not (is_empty (failed_required_checks c.results c.required_check_ids))) block
        "required-check-failure" start in
    let severe =
      trigger (not (is_empty (filter (λ f. is_severe f.severity) c.findings))) block "high-finding"
        failing in
    let synthetic =
      trigger (not (is_block severe.outcome) && not (is_empty c.non_real_required_check_ids))
        needs_changes "non-real-required-execution" severe in
    let missing =
      trigger
        (not (is_block synthetic.outcome) && not (is_empty c.unsupported_required_capabilities))
        needs_changes "unsupported-required-capability" synthetic in
    trigger
      (is_allow missing.outcome && not (is_empty (filter (λ f. is_medium f.severity) c.findings)))
      needs_review "medium-finding" missing

abbrev outcome_text : PolicyOutcome → String
outcome_text allow = "allow"
outcome_text needs_review = "needs_review"
outcome_text needs_changes = "needs_changes"
outcome_text block = "block"

-- `brandId`, of packages/domain/src/identifiers.ts
unfoldable pub brand_id : String → Result Error String
brand_id value =
    if is_identifier value then ok value else throw (plain (concat "Invalid identifier: " value))

unfoldable pub brand_all : List String → Result Error (List String)
unfolding brand_id
brand_all [] = ok []
brand_all (v ∷ vs) = do b ← brand_id v; bs ← brand_all vs; ok (b ∷ bs)

-- The object literal of the decision.
abbrev make_decision :
    DecisionContext → Triggered → List String → List String → String → String → PolicyDecision
make_decision c t evidence findings id digest = record {
  id = id;
  policy_id = c.policy.id;
  policy_version = c.policy.version;
  outcome = t.outcome;
  triggered_rule_ids = unique_sorted t.rules;
  evidence_references = evidence;
  finding_references = findings;
  created_at = c.created_at;
  content_hash = digest;
}

module _ (sha256 : Json → String) where
  decision_content : DecisionContext → Triggered → List String → List String → Json
  decision_content c t evidence findings = object (
      ("policyId", str c.policy.id)
      ∷ ("policyVersion", str c.policy.version)
      ∷ ("outcome", str (outcome_text t.outcome))
      ∷ ("triggeredRuleIds", strings (unique_sorted t.rules))
      ∷ ("evidenceReferences", strings evidence)
      ∷ ("findingReferences", strings findings)
      ∷ [])

  unfoldable pub evaluate_default_policy : DecisionContext → Result Error PolicyDecision
  unfolding apply_rules brand_all decision_content
  evaluate_default_policy c = do
    validate_policy c.policy
    let t = apply_rules c
    evidence ← brand_all (unique_sorted (map (λ e. e.id) c.evidence))
    findings ← brand_all (unique_sorted (map (λ f. f.id) c.findings))
    let digest = sha256 (decision_content c t evidence findings)
    id ← brand_id (concat "decision-" (slice digest 0 24))
    let decision = make_decision c t evidence findings id digest
    validate_policy_decision decision
    ok decision
