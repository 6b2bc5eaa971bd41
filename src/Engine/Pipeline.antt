-- ===== src/Engine/Pipeline.antt =====
-- packages/engine/src/pipeline.ts: from a project to the outcomes of its selected checks. The
-- detector, the executor, the provisioner and the preparer are the pipeline's dependencies.
pub mod Requested
pub mod Outcomes
use Prim.Native.String.{◌++◌ as concat}
use verify_agent.Prelude.{
  ℕ, zero, suc, String, Bool, true, false, not, ◌&&◌, ◌||◌, List, [], ◌∷◌, ◌++◌, map, Option, none,
  some, Result, ok, throw, ◌>>=◌, ◌>>◌, ensure, reject_if, if◌then◌else◌, is_empty, ◌==◌, or_else,
  filter, some_of, includes, length, nat_eq, traverse, is_some,
}
use verify_agent.Prelude.Text.{codes, decimal}
use verify_agent.Prelude.Sorting.{uniq}
use verify_agent.Json.{Json, str, object, array, optional}
use verify_agent.Errors.{
  Error, pipeline, detection_failed, no_applicable_check, dependency_provisioning_failed,
  execution_failed,
}
use verify_agent.Domain.Types.{
  CheckDefinition, CheckExecution, CheckPlanItem, CheckPlan, ProjectProfile, queued,
}
use verify_agent.Checks.Catalog.{initial_check_definitions, find_definition}
use verify_agent.Checks.Planner.{plan}
use verify_agent.Checks.Settings.{Config}
use verify_agent.Checks.Selection.{
  VerificationCheckSelection, resolve_check_selection, is_applicable,
}
use verify_agent.Checks.Specs.{Spec, find_spec}
use verify_agent.Policy.{brand_id}
use verify_agent.Engine.Evidence.{option_str}
use verify_agent.Engine.Execution.{dependency_json}
use verify_agent.Engine.Interfaces.{
  CheckExecutionRequest, CheckExecutionOutcome, ExecutionEnvironment, DependencyEnvironment,
  ExecutionLimits, Snapshot, default_execution_limits,
}
use verify_agent.Engine.Preparation.{
  PipelineInput, PipelineOutput, or_throw, default_selection, select_items, indexed, artifact_of,
  identity_of, require_definition, is_falsy, create_initial_execution, provisioned,
  base_environment, with_artifacts,
}

-- The ports of the pipeline; the optional ones may be missing.
pub record Dependencies : Type 0 where
  pub detect : Result Error ProjectProfile
  pub execute : CheckExecutionRequest → Result Error CheckExecutionOutcome
  pub provision : Option (Json → String → Result Error DependencyEnvironment)
  pub prepare : Option (Json → ExecutionEnvironment → String → Result Error Json)
  pub specs : List Spec

module _ (sha256 : Json → String) (locale_le : String → String → Bool) (deps : Dependencies) where
  unfoldable pub provision_dependencies : PipelineInput → Result Error (Option ExecutionEnvironment)
  unfolding provisioned
  provision_dependencies input = by_input input.execution_environment input.dependency_provisioning
    where
      failure : String → Error
      failure message = pipeline dependency_provisioning_failed message

      by_port :
          Json
          → String
          → Option (Json → String → Result Error DependencyEnvironment)
          → Result Error (Option ExecutionEnvironment)
      by_port request destination none =
          throw (failure "Dependency provisioning was requested but no provisioner is configured")
      by_port request destination (some provision) =
          or_throw (failure "Dependency provisioning failed") (provision request destination)
          >>= λ d. ok (some (provisioned sha256 input d))

      by_input :
          Option ExecutionEnvironment
          → Option (Json × String)
          → Result Error (Option ExecutionEnvironment)
      by_input (some environment) requested = ok (some environment)
      by_input none none = ok none
      by_input none (some (request, destination)) = by_port request destination deps.provision

  unfoldable pub prepare_artifacts :
      PipelineInput → Option ExecutionEnvironment → Result Error (Option ExecutionEnvironment)
  unfolding with_artifacts base_environment
  prepare_artifacts input environment =
      if is_empty input.generated_artifact_requirements
      then ok environment
      else by_port deps.prepare
    where
      failure : String → Error
      failure message = pipeline dependency_provisioning_failed message

      base : ExecutionEnvironment
      base = or_else environment (base_environment sha256 input)

      by_port :
          Option (Json → ExecutionEnvironment → String → Result Error Json)
          → Result Error (Option ExecutionEnvironment)
      by_port none =
          throw
            (failure "Generated artifact preparation was requested but no preparer is configured")
      by_port (some prepare) = do
        reject_if (is_falsy input.generated_artifact_destination)
            (failure "Generated artifact destination is required")
        artifacts ← or_throw (failure "Generated artifact preparation failed") (
            traverse (λ r. prepare r base (or_else input.generated_artifact_destination ""))
              input.generated_artifact_requirements)
        ok (some (with_artifacts sha256 base artifacts))

  -- The request for one item.
  unfoldable pub make_request :
      PipelineInput
      → Option ExecutionEnvironment
      → ℕ
      → CheckPlanItem
      → CheckDefinition
      → CheckExecution
      → CheckExecutionRequest
  unfolding decimal default_execution_limits
  make_request input environment index item definition execution = record {
    snapshot = input.snapshot;
    plan_item = item;
    definition = definition;
    execution = execution;
    result_id = indexed input.result_id index;
    created_at = input.created_at;
    limits = some (or_else input.execution_limits default_execution_limits);
    execution_environment = environment;
  }

  -- The body of the `try` in the loop.
  unfoldable pub execute_item :
      PipelineInput
      → Option ExecutionEnvironment
      → ℕ
      → CheckPlanItem
      → CheckDefinition
      → Result Error CheckExecutionOutcome
  unfolding create_initial_execution make_request
  execute_item input environment index item definition = do
    execution ← create_initial_execution sha256 input item environment index
    deps.execute (make_request input environment index item definition execution)

  -- The loop over the selected items: the first failure ends it.
  unfoldable pub execute_items :
      PipelineInput
      → Option ExecutionEnvironment
      → ℕ
      → List (CheckPlanItem × CheckDefinition)
      → Result Error (List CheckExecutionOutcome)
  unfolding execute_item
  execute_items input environment index [] = ok []
  execute_items input environment index ((item, definition) ∷ rest) = do
    outcome ←
        or_throw (pipeline execution_failed (concat "Check execution failed: " item.check_id))
          (execute_item input environment index item definition)
    outcomes ← execute_items input environment (suc index) rest
    ok (outcome ∷ outcomes)

  unfoldable pub with_definition : CheckPlanItem → Result Error (CheckPlanItem × CheckDefinition)
  with_definition item = do
    definition ←
        require_definition (find_definition locale_le initial_check_definitions item.check_id)
          item.check_id
    ok (item, definition)

  unfoldable pub verify : PipelineInput → Result Error PipelineOutput
  unfolding plan select_items with_definition provision_dependencies prepare_artifacts execute_items
      resolve_check_selection initial_check_definitions find_spec find_definition
  verify input = do
    profile ← or_throw (pipeline detection_failed "Project detection failed") deps.detect
    p ← plan sha256 locale_le initial_check_definitions profile input.planner_config
    let selected =
        default_selection
          (resolve_check_selection p.items input.selection input.selected_check_ids
            input.selected_check_id (λ id. is_some (find_spec locale_le deps.specs id)))
          input.selected_check_id
    items ← select_items p.items selected
    pairs ← traverse with_definition items
    provided ← provision_dependencies input
    environment ← prepare_artifacts input provided
    outcomes ← execute_items input environment 0 pairs
    ok (record {
      profile = profile;
      plan = p;
      outcomes = outcomes;
      execution_environment = environment;
    })
