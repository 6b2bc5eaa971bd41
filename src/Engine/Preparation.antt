-- ===== src/Engine/Preparation.antt =====
-- packages/engine/src/pipeline.ts: the input of the pipeline, the selection of planned items, the first
-- state of an execution and the environments that it is given.
use Prim.Native.String.{◌++◌ as concat}
use verify_agent.Prelude.{
  ℕ, zero, suc, String, Bool, true, not, ◌&&◌, List, [], ◌∷◌, ◌++◌, Option, none, some, Result, ok,
  throw, ◌>>=◌, ◌>>◌, ensure, reject_if, is_empty, filter, some_of, includes, length, nat_eq,
}
use verify_agent.Prelude.Text.{codes, decimal}
use verify_agent.Prelude.Sorting.{uniq}
use verify_agent.Json.{Json, str, object, array, optional}
use verify_agent.Errors.{Error, pipeline, no_applicable_check, execution_failed}
use verify_agent.Domain.Types.{
  CheckDefinition, CheckExecution, CheckPlanItem, CheckPlan, ProjectProfile, queued,
}
use verify_agent.Checks.Settings.{Config}
use verify_agent.Checks.Selection.{VerificationCheckSelection, is_applicable}
use verify_agent.Policy.{brand_id}
use verify_agent.Engine.Evidence.{option_str}
use verify_agent.Engine.Execution.{dependency_json}
use verify_agent.Engine.Interfaces.{
  CheckExecutionOutcome, ExecutionEnvironment, DependencyEnvironment, ExecutionLimits, Snapshot,
}

pub record PipelineInput : Type 0 where
  pub project_id : String
  pub snapshot_id : String
  pub change_set_id : String
  pub snapshot : Snapshot
  pub planner_config : Config
  pub selected_check_id : Option String
  pub selected_check_ids : Option (List String)
  pub selection : Option VerificationCheckSelection
  pub execution_limits : Option ExecutionLimits
  pub job_id : String
  pub execution_id : String
  pub result_id : String
  pub created_at : String
  pub execution_environment : Option ExecutionEnvironment
  pub dependency_provisioning : Option (Json × String)
  pub generated_artifact_requirements : List Json
  pub generated_artifact_destination : Option String

pub record PipelineOutput : Type 0 where
  pub profile : ProjectProfile
  pub plan : CheckPlan
  pub outcomes : List CheckExecutionOutcome
  pub execution_environment : Option ExecutionEnvironment

-- `try { ... } catch (error) { throw new VerificationPipelineError(code, message, error) }`
abbrev pub or_throw {ℓ} : {A : Type ℓ} → Error → Result Error A → Result Error A
or_throw e (ok a) = ok a
or_throw e (throw cause) = throw e

abbrev pub default_selection : Option (List String) → Option String → List String
default_selection (some ids) id = ids
default_selection none (some id) = id ∷ []
default_selection none none = "typescript.typecheck" ∷ []

-- The planned items of a selection, in the order of the plan, and the guards on them.
unfoldable pub select_items : List CheckPlanItem → List String → Result Error (List CheckPlanItem)
unfolding uniq
select_items items selected = do
  reject_if (is_empty selected)
      (pipeline no_applicable_check "No checks were selected for execution")
  ensure (nat_eq (length (uniq selected)) (length selected))
      (pipeline no_applicable_check "Duplicate checks cannot be executed")
  let selected_items = filter (λ i. includes selected i.check_id) items
  ensure
      (nat_eq (length selected_items) (length selected)
        && not (some_of (λ i. not (is_applicable i.applicability)) selected_items))
      (pipeline no_applicable_check "No applicable planned check")
  ok selected_items

-- `index === 0 ? id : `${id}-${index}``
abbrev pub indexed : String → ℕ → String
indexed id zero = id
indexed id (suc index) = concat id (concat "-" (decimal (suc index)))

abbrev pub artifact_of : Option ExecutionEnvironment → Option String
artifact_of none = none
artifact_of (some e) = of_dependency e.dependency_environment
  where
    of_dependency : Option DependencyEnvironment → Option String
    of_dependency none = none
    of_dependency (some d) = some d.artifact_id

abbrev pub identity_of : Option ExecutionEnvironment → Option String
identity_of none = none
identity_of (some e) = some e.identity_hash

abbrev pub require_definition : Option CheckDefinition → String → Result Error CheckDefinition
require_definition none id =
    throw (pipeline execution_failed (concat "No definition for planned check: " id))
require_definition (some d) id = ok d

-- `!value`, of an optional text
abbrev pub is_falsy : Option String → Bool
is_falsy none = true
is_falsy (some text) = is_empty (codes text)

module _ (sha256 : Json → String) where
  unfoldable pub create_initial_execution :
      PipelineInput → CheckPlanItem → Option ExecutionEnvironment → ℕ → Result Error CheckExecution
  unfolding decimal
  create_initial_execution input item environment index = do
    id ← brand_id (indexed input.execution_id index)
    job_id ← brand_id input.job_id
    ok (record {
      id = id;
      check_definition_id = item.check_id;
      job_id = job_id;
      inputs_hash = sha256 (
          object (
            ("projectId", str input.project_id)
            ∷ ("snapshotId", str input.snapshot_id)
            ∷ ("changeSetId", str input.change_set_id)
            ∷ ("checkId", str item.check_id)
            ∷ ("checkVersion", str item.check_version)
            ∷ (optional "dependencyArtifactId" (option_str (artifact_of environment))
                ++ optional "environmentIdentity" (option_str (identity_of environment)))));
      dependency_artifact_id = artifact_of environment;
      started_at = none;
      completed_at = none;
      status = queued;
      execution_source = none;
    })

  -- The environment that provisioning adds.
  unfoldable pub provisioned : PipelineInput → DependencyEnvironment → ExecutionEnvironment
  provisioned input d = record {
    source_snapshot_id = input.snapshot_id;
    dependency_environment = some d;
    generated_artifacts = [];
    identity_hash = sha256 (
        object (
          ("sourceSnapshotId", str input.snapshot_id)
          ∷ ("dependencyArtifactId", str d.artifact_id)
          ∷ ("dependencyContentHash", str d.content_hash)
          ∷ ("generatedArtifacts", array [])
          ∷ []));
    sandbox_snapshot_identity = none;
  }

  unfoldable pub base_environment : PipelineInput → ExecutionEnvironment
  base_environment input = record {
    source_snapshot_id = input.snapshot_id;
    dependency_environment = none;
    generated_artifacts = [];
    identity_hash = sha256 (object (("sourceSnapshotId", str input.snapshot_id) ∷ []));
    sandbox_snapshot_identity = none;
  }

  unfoldable pub with_artifacts : ExecutionEnvironment → List Json → ExecutionEnvironment
  with_artifacts base artifacts = record base {
    generated_artifacts = artifacts;
    identity_hash = sha256 (
        object (
          ("sourceSnapshotId", str base.source_snapshot_id)
          ∷ (optional "dependencyEnvironment" (dependency_json base.dependency_environment)
              ++ (("generatedArtifacts", array artifacts) ∷ []))));
  }
