-- ===== src/Engine/Coverage.antt =====
-- packages/engine/src/aggregation.ts: the coverage of a plan and the status of a verification.
pub mod Settled
use verify_agent.Prelude.{
  String, Bool, true, false, not, ◌||◌, List, [], ◌∷◌, ◌++◌, Option, none, some, ◌==◌,
  if◌then◌else◌, is_empty, some_of, or_option,
}
use verify_agent.Prelude.Sorting.{unique_sorted}
use verify_agent.Domain.Types.{
  CheckResult, CheckStatus, passed, failed, error, timed_out, cancelled, skipped, ExecutionSource,
  real, simulated, fixture, CheckPlan, CheckPlanItem, Applicability, applicable, not_applicable,
  unsupported, VerificationCoverage, VerificationStatus, pass, needs_review, needs_changes, blocked,
  partial, PolicyOutcome, allow, block,
}

-- `new Map(results.map((result) => [result.checkId, result])).get(id)`
unfoldable pub result_of : String → List CheckResult → Option CheckResult
result_of id [] = none
result_of id (r ∷ rs) = or_option (result_of id rs) (if r.check_id == id then some r else none)

-- The arrays of `coverageForPlan`, and where the loop pushes the capability of an item.
abbrev no_coverage : VerificationCoverage
no_coverage = record {
  verified = [];
  partial = [];
  unsupported = [];
  not_applicable = [];
  simulated = [];
  fixture = [];
}

abbrev push_result :
    Option (CheckStatus × ExecutionSource) → String → VerificationCoverage → VerificationCoverage
push_result (some (passed, real)) k c = record c { verified = c.verified ++ k ∷ [] }
push_result (some (passed, simulated)) k c = record c { simulated = c.simulated ++ k ∷ [] }
push_result (some (passed, fixture)) k c = record c { fixture = c.fixture ++ k ∷ [] }
push_result (some (failed, _)) k c = record c { partial = c.partial ++ k ∷ [] }
push_result (some (error, _)) k c = record c { partial = c.partial ++ k ∷ [] }
push_result (some (timed_out, _)) k c = record c { partial = c.partial ++ k ∷ [] }
push_result (some (cancelled, _)) k c = record c { partial = c.partial ++ k ∷ [] }
push_result (some (skipped, _)) k c = record c { partial = c.partial ++ k ∷ [] }
push_result none k c = record c { partial = c.partial ++ k ∷ [] }

abbrev pub outcome_of : Option CheckResult → Option (CheckStatus × ExecutionSource)
outcome_of none = none
outcome_of (some r) = some (r.status, r.execution_source)

abbrev push_item :
    Applicability
    → Option (CheckStatus × ExecutionSource)
    → String
    → VerificationCoverage
    → VerificationCoverage
push_item unsupported o k c = record c { unsupported = c.unsupported ++ k ∷ [] }
push_item not_applicable o k c = record c { not_applicable = c.not_applicable ++ k ∷ [] }
push_item applicable o k c = push_result o k c

unfoldable pub cover :
    List CheckResult → VerificationCoverage → List CheckPlanItem → VerificationCoverage
cover results c [] = c
cover results c (item ∷ items) =
    cover results
      (push_item item.applicability (outcome_of (result_of item.check_id results)) item.check_id c)
      items

unfoldable pub coverage_for_plan : CheckPlan → List CheckResult → VerificationCoverage
unfolding cover
coverage_for_plan plan results =
    let c = cover results no_coverage plan.items in
    record {
      verified = unique_sorted c.verified;
      partial = unique_sorted c.partial;
      unsupported = unique_sorted c.unsupported;
      not_applicable = unique_sorted c.not_applicable;
      simulated = unique_sorted c.simulated;
      fixture = unique_sorted c.fixture;
    }

abbrev pub is_error : CheckStatus → Bool
is_error error = true
is_error passed = false
is_error failed = false
is_error timed_out = false
is_error cancelled = false
is_error skipped = false

abbrev pub is_passed : CheckStatus → Bool
is_passed passed = true
is_passed error = false
is_passed failed = false
is_passed timed_out = false
is_passed cancelled = false
is_passed skipped = false

abbrev pub is_real : ExecutionSource → Bool
is_real real = true
is_real simulated = false
is_real fixture = false

-- `coverage.partial.length > 0 || ...`
abbrev pub is_incomplete : VerificationCoverage → Bool
is_incomplete c =
    not (is_empty c.partial)
    || not (is_empty c.unsupported)
    || not (is_empty c.simulated)
    || not (is_empty c.fixture)

abbrev by_outcome : PolicyOutcome → VerificationCoverage → VerificationStatus
by_outcome block c = blocked
by_outcome needs_changes c = needs_changes
by_outcome needs_review c = needs_review
by_outcome allow c = if is_incomplete c then partial else pass

unfoldable pub status_for :
    PolicyOutcome → VerificationCoverage → List CheckResult → VerificationStatus
status_for outcome coverage results =
    if some_of (λ r. is_error r.status) results then error else by_outcome outcome coverage
