-- ===== src/Tests/Pipeline.antt =====
-- Runs of packages/engine/src/pipeline.ts.
use verify_agent.Prelude.{
  ℕ, ◌+◌, ◌≤◌, String, Bool, true, false, List, [], ◌∷◌, Option, none, some, Result, ok, throw, ◌≡◌,
  ◌↔◌, refl, arith, inl, inr, ◌⊎◌, length, is_some,
}
use verify_agent.Errors.{Error}
use verify_agent.Domain.Types.{CheckPlanItem}
use verify_agent.Checks.Specs.{trusted_execution_specs, find_spec}
use verify_agent.Checks.Planner.{plan}
use verify_agent.Checks.Settings.{no_config}
use verify_agent.Checks.Catalog.{initial_check_definitions}
use verify_agent.Checks.Selection.{all_applicable}
use verify_agent.Engine.Interfaces.{CheckExecutionRequest, CheckExecutionOutcome}
use verify_agent.Engine.Preparation.{PipelineInput, PipelineOutput}
use verify_agent.Engine.Pipeline.{Dependencies, verify}
use verify_agent.Engine.Pipeline.Requested.{IsRequested}
use verify_agent.Engine.Pipeline.Outcomes.{Executed, IsSelection, verify-Executed}
use verify_agent.Tests.Samples.{sha256_json, collate, today, profile_with}
use verify_agent.Tests.Engine.{lint_plan, sample_snapshot, lint_outcome}

abbrev execute_stub : CheckExecutionRequest → Result Error CheckExecutionOutcome
execute_stub request = ok lint_outcome

abbrev dependencies : Dependencies
unfolding trusted_execution_specs
dependencies = record {
  detect = ok (profile_with ("typescript.lint" ∷ []));
  execute = execute_stub;
  provision = none;
  prepare = none;
  specs = trusted_execution_specs;
}

abbrev pipeline_input : PipelineInput
unfolding no_config
pipeline_input = record {
  project_id = "project-1";
  snapshot_id = "snapshot-1";
  change_set_id = "change-1";
  snapshot = sample_snapshot;
  planner_config = no_config;
  selected_check_id = none;
  selected_check_ids = none;
  selection = some all_applicable;
  execution_limits = none;
  job_id = "job-1";
  execution_id = "run-1";
  result_id = "result-1";
  created_at = today;
  execution_environment = none;
  dependency_provisioning = none;
  generated_artifact_requirements = [];
  generated_artifact_destination = none;
}

abbrev pipeline_output : PipelineOutput
pipeline_output = record {
  profile = profile_with ("typescript.lint" ∷ []);
  plan = lint_plan;
  outcomes = lint_outcome ∷ [];
  execution_environment = none;
}

pipeline_run : verify sha256_json collate dependencies pipeline_input ≡ ok pipeline_output
unfolding verify dependencies verify_agent.Checks.Settings.has_config pipeline_input
    verify_agent.JsMap.get verify_agent.Checks.Settings.is_disabled
    verify_agent.Checks.Dependencies.dependencies_for verify_agent.Policy.brand_id
    verify_agent.Prelude.Text.is_identifier collate verify_agent.Checks.Settings.is_required
    verify_agent.Checks.Planner.reason_for verify_agent.Checks.Planner.priority_of
pipeline_run = refl

verify-Executed_example :
    (dependencies.detect ≡ ok pipeline_output.profile)
    × (plan sha256_json collate initial_check_definitions pipeline_output.profile
          pipeline_input.planner_config
        ≡ ok pipeline_output.plan)
    × (selected : List String) × IsRequested
        (λ id. is_some (find_spec collate dependencies.specs id))
        pipeline_output.plan.items
        pipeline_input
        selected
    × (chosen : List CheckPlanItem) × IsSelection pipeline_output.plan.items selected chosen
    × Executed sha256_json collate dependencies chosen pipeline_output.outcomes
verify-Executed_example =
    verify-Executed sha256_json collate dependencies pipeline_input pipeline_output pipeline_run
