-- ===== src/Tests/Checks.antt =====
-- Runs of packages/checks.
use verify_agent.Prelude.{
  ℕ, ◌*◌, ◌≤◌, String, true, false, List, [], ◌∷◌, map, filter, Option, none, some, Result, ok,
  throw, ◌≡◌, ◌↔◌, refl, sym, arith, length, All, In, inl, inr, includes, ap,
}
use verify_agent.Json.{Number}
use verify_agent.Domain.Types.{
  CheckPlan, CheckPlanItem, CheckDefinition, applicable, ProjectProfile, deterministic,
}
use verify_agent.Checks.Catalog.{initial_check_definitions}
use verify_agent.Checks.Specs.{trusted_execution_specs, safe_positive}
use verify_agent.Checks.Specs.Timeouts.{IsTimed}
use verify_agent.Checks.Planner.{plan}
use verify_agent.Checks.Settings.{no_config}
use verify_agent.Checks.Planner.Order.{ByPriority, DependenciesEarlier, plan_ordered}
use verify_agent.Checks.Planner.Items.{IsSound, IsPlanned, is_reached, plan-IsSound}
use verify_agent.Tests.Samples.{sha256_json, collate, profile_with}

abbrev sample_item : String → ℕ → List String → String → CheckPlanItem
sample_item id priority dependencies reason = record {
  check_id = id;
  check_version = "1.0.0";
  applicability = applicable;
  required = true;
  reason = reason;
  priority = priority;
  dependencies = dependencies;
}

abbrev sample_profile : ProjectProfile
sample_profile = profile_with ("typescript.build" ∷ "typescript.typecheck" ∷ [])

abbrev sample_plan : CheckPlan
sample_plan = record {
  plan_id = "plan-0123456789abcdef01234567";
  planner_version = "1.0.0";
  project_id = "project-1";
  snapshot_id = "snapshot-1";
  items =
      sample_item "typescript.typecheck" 10 []
        "TypeScript configuration detected; typecheck capability is applicable."
      ∷ sample_item "typescript.build" 40 ("typescript.typecheck" ∷ [])
          "A static JavaScript/TypeScript build signal was detected."
      ∷ [];
  created_at = "1970-01-01T00:00:00.000Z";
  content_hash = "0123456789abcdef0123456789abcdef0123456789abcdef0123456789abcdef";
}

planned :
    plan sha256_json collate initial_check_definitions sample_profile no_config ≡ ok sample_plan
unfolding plan initial_check_definitions verify_agent.Checks.Settings.is_disabled no_config
    verify_agent.JsMap.get verify_agent.Checks.Settings.has_config
    verify_agent.Checks.Planner.priority_of verify_agent.Checks.Dependencies.dependencies_for
    verify_agent.Policy.brand_id verify_agent.Prelude.Text.is_identifier
    verify_agent.Checks.Settings.is_required verify_agent.Checks.Planner.reason_for
planned = refl

plan_ordered_example : ByPriority sample_plan.items × DependenciesEarlier [] sample_plan.items
plan_ordered_example =
    plan_ordered sha256_json collate initial_check_definitions sample_profile no_config sample_plan
      planned

plan-IsSound_example :
    ((item : CheckPlanItem)
      → In item sample_plan.items
      → IsSound sample_profile no_config initial_check_definitions item)
    × ((d : CheckDefinition)
        → In d initial_check_definitions
        → is_reached sample_profile no_config d ≡ true
        → (item : CheckPlanItem) × In item sample_plan.items
          × IsPlanned sample_profile no_config d item)
    × (length sample_plan.items
        ≡ length (filter (is_reached sample_profile no_config) initial_check_definitions))
plan-IsSound_example =
    plan-IsSound sha256_json collate initial_check_definitions sample_profile no_config sample_plan
      planned

abbrev build_definition : CheckDefinition
build_definition = record {
  id = "typescript.build";
  name = "TypeScript build";
  version = "1.0.0";
  category = "correctness";
  description = "Builds the statically configured JavaScript/TypeScript project.";
  determinism = deterministic;
  supported_languages = "typescript" ∷ "javascript" ∷ [];
  supported_frameworks = [];
  requirements = "build-signal" ∷ [];
}

build-In : In build_definition initial_check_definitions
unfolding initial_check_definitions
build-In = inr (inr (inr (inl refl)))

timed : All IsTimed trusted_execution_specs
unfolding trusted_execution_specs
timed = (
  (λ t e. absurd (ground arith)),
  (
    (λ t e. absurd (ground arith)),
    (
      (λ t e. absurd (ground arith)),
      (
        (λ t e. absurd (ground arith)),
        (
          (λ t e. absurd (ground arith)),
          (
            (λ t e. absurd (ground arith)),
            (
              (λ t e. absurd (ground arith)),
              ((λ t e. (300000, ap (λ n. safe_positive n) (sym (some-injective e)))), tt),
            ),
          ),
        ),
      ),
    ),
  ),
)
  where
    some-injective : {a b : Number} → some a ≡ some b → a ≡ b
    some-injective e = cc
