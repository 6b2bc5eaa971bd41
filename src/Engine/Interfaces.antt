-- ===== src/Engine/Interfaces.antt =====
-- packages/engine/src/interfaces.ts: what the sandbox is given and what it returns.
use verify_agent.Prelude.{◌*◌, String, List, Option}
use verify_agent.Json.{Json, Number, nat}
use verify_agent.Domain.Types.{
  CheckDefinition, CheckExecution, CheckPlanItem, CheckResult, SandboxStatus,
}

pub record ExecutionLimits : Type 0 where
  pub timeout_ms : Number
  pub memory_limit_bytes : Number

unfoldable pub default_execution_limits : ExecutionLimits
default_execution_limits = record {
  timeout_ms = nat 120000;
  memory_limit_bytes = nat (512 * 1024 * 1024);
}

-- The working directory is "." and the environment is empty in every command.
pub record SandboxCommand : Type 0 where
  pub executable : String
  pub args : List String

-- The policies are "none".
pub record SandboxJobRequest : Type 0 where
  pub job_id : String
  pub source : Json
  pub snapshot : String
  pub commands : List SandboxCommand
  pub resource_limits : ExecutionLimits

pub record SandboxJobResult : Type 0 where
  pub job_id : String
  pub status : SandboxStatus
  pub duration_ms : Number
  pub logs_ref : String
  pub artifact_refs : List String
  pub memory_bytes : Number
  pub cpu_time_ms : Number
  pub errors : List String
  pub exit_code : Option Number

pub record DependencyEnvironment : Type 0 where
  pub artifact_id : String
  pub content_hash : String
  pub content : Json

pub record ExecutionEnvironment : Type 0 where
  pub source_snapshot_id : String
  pub dependency_environment : Option DependencyEnvironment
  pub generated_artifacts : List Json
  pub identity_hash : String
  pub sandbox_snapshot_identity : Option String

-- What the executor reads of the snapshot.
pub record Snapshot : Type 0 where
  pub source : Json
  pub source_state : Json
  pub source_state_value : String

pub record CheckExecutionRequest : Type 0 where
  pub snapshot : Snapshot
  pub plan_item : CheckPlanItem
  pub definition : CheckDefinition
  pub execution : CheckExecution
  pub result_id : String
  pub created_at : String
  pub limits : Option ExecutionLimits
  pub execution_environment : Option ExecutionEnvironment

pub record CheckExecutionOutcome : Type 0 where
  pub request : SandboxJobRequest
  pub execution : CheckExecution
  pub result : CheckResult
