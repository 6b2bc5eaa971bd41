-- ===== src/Tests/Engine.antt =====
-- Runs of packages/engine/src/execution.ts, and the samples that the other runs of the engine share.
use verify_agent.Prelude.{
  ℕ, ◌+◌, ◌≤◌, String, Bool, true, false, List, [], ◌∷◌, Option, none, some, Result, ok, throw, ◌≡◌,
  ◌↔◌, refl, arith, inl, inr, ◌⊎◌, length,
}
use verify_agent.Errors.{Error}
use verify_agent.Json.{Json, nat, str, object}
use verify_agent.Domain.Types.{
  CheckResult, CheckExecution, CheckPlan, CheckPlanItem, CheckDefinition, ExecutionStatus,
  applicable, passed, completed, queued, real, deterministic,
}
use verify_agent.Checks.Specs.{trusted_execution_specs}
use verify_agent.Engine.Interfaces.{
  SandboxJobRequest, SandboxJobResult, CheckExecutionRequest, CheckExecutionOutcome, Snapshot,
}
use verify_agent.Engine.Sandbox.{check_status, terminal_status, is_zero}
use verify_agent.Engine.Sandbox.Wire.{IsWireSafe, to_sandbox_wire_job_id-IsWireSafe}
use verify_agent.Engine.Execution.{execute}
use verify_agent.Engine.Execution.Outcome.{IsExecuted, execute-IsExecuted}
use verify_agent.Engine.Aggregation.{Input, Output}
use verify_agent.Tests.Samples.{digest, sha256_json, sha256_of_text, collate, today}

to_sandbox_wire_job_id-IsWireSafe_example :
    IsWireSafe "job-0123456789abcdef0123456789abcdef0123456789abcdef0123456789abcdef"
unfolding verify_agent.Prelude.Text.is_hex_of verify_agent.Engine.Sandbox.to_sandbox_wire_job_id
to_sandbox_wire_job_id-IsWireSafe_example =
    to_sandbox_wire_job_id-IsWireSafe sha256_of_text "acme:app:sha-job"
      "job-0123456789abcdef0123456789abcdef0123456789abcdef0123456789abcdef" (λ s. refl) refl

abbrev execution_in : ExecutionStatus → CheckExecution
execution_in status = record {
  id = "run-1";
  check_definition_id = "typescript.lint";
  job_id = "job-1";
  inputs_hash = digest;
  dependency_artifact_id = none;
  started_at = none;
  completed_at = none;
  status = status;
  execution_source = none;
}

abbrev lint_item : CheckPlanItem
lint_item = record {
  check_id = "typescript.lint";
  check_version = "1.0.0";
  applicability = applicable;
  required = true;
  reason = "ESLint detected in static project metadata.";
  priority = 20;
  dependencies = [];
}

abbrev lint_definition : CheckDefinition
lint_definition = record {
  id = "typescript.lint";
  name = "TypeScript lint";
  version = "1.0.0";
  category = "quality";
  description = "Applies the repository's statically detected lint tooling.";
  determinism = deterministic;
  supported_languages = "typescript" ∷ "javascript" ∷ [];
  supported_frameworks = [];
  requirements = "eslint-signal" ∷ [];
}

abbrev pub lint_plan : CheckPlan
lint_plan = record {
  plan_id = "plan-0123456789abcdef01234567";
  planner_version = "1.0.0";
  project_id = "project-1";
  snapshot_id = "snapshot-1";
  items = lint_item ∷ [];
  created_at = "1970-01-01T00:00:00.000Z";
  content_hash = digest;
}

abbrev pub input_with : List CheckResult → Input
input_with results = record {
  request = record {
    id = "request-1";
    project_id = "project-1";
    snapshot_id = "snapshot-1";
    change_set_id = "change-1";
  };
  job_id = "job-1";
  plan = lint_plan;
  check_results = results;
  policy = none;
  verification_id = "verification-1";
  created_at = today;
  previous_verification_id = none;
}

-- What a run returned, or a blank output where it threw.
abbrev output_or : Output → Result Error Output → Output
output_or blank (ok out) = out
output_or blank (throw e) = blank

abbrev pub sample_source : Json
sample_source = object (("provider", str "github") ∷ ("reference", str "0123") ∷ [])

abbrev pub sample_snapshot : Snapshot
sample_snapshot = record {
  source = sample_source;
  source_state = str "commit";
  source_state_value = "0123";
}

abbrev lint_request : CheckExecutionRequest
lint_request = record {
  snapshot = sample_snapshot;
  plan_item = lint_item;
  definition = lint_definition;
  execution = execution_in queued;
  result_id = "result-1";
  created_at = today;
  limits = none;
  execution_environment = none;
}

abbrev answer_of : SandboxJobRequest → SandboxJobResult
answer_of sent = record {
  job_id = sent.job_id;
  status = completed;
  duration_ms = nat 12;
  logs_ref = "logs-1";
  artifact_refs = [];
  memory_bytes = nat 1;
  cpu_time_ms = nat 1;
  errors = [];
  exit_code = some (nat 0);
}

abbrev sandbox : SandboxJobRequest → Result Error SandboxJobResult
sandbox sent = ok (answer_of sent)

abbrev pub lint_outcome : CheckExecutionOutcome
lint_outcome = record {
  request = record {
    job_id = "job-1";
    source = sample_source;
    snapshot = "0123";
    commands = record { executable = "typescript-lint"; args = "." ∷ [] } ∷ [];
    resource_limits = record { timeout_ms = nat 120000; memory_limit_bytes = nat 536870912 };
  };
  execution = record (execution_in completed) { execution_source = some real };
  result = record {
    id = "result-1";
    check_execution_id = "run-1";
    check_id = "typescript.lint";
    check_version = "1.0.0";
    status = passed;
    exit_code = some (nat 0);
    duration_ms = nat 12;
    summary = "TypeScript lint: passed";
    raw_output_ref = some "logs-1";
    artifact_refs = [];
    memory_bytes = nat 1;
    cpu_time_ms = nat 1;
    input_hash = digest;
    content_hash = digest;
    created_at = today;
    producer = record { type = "system"; name = "verify-agent"; version = some "0.1.0-phase0" };
    execution_source = real;
  };
}

executed :
    execute sha256_json sha256_of_text collate trusted_execution_specs real sandbox lint_request
    ≡ ok lint_outcome
unfolding execute trusted_execution_specs collate
    verify_agent.Domain.Validation.validate_check_execution verify_agent.Prelude.Text.is_blank
    verify_agent.Prelude.Text.is_identifier verify_agent.Prelude.Text.is_hex_of
    verify_agent.Policy.brand_id verify_agent.Domain.Validation.validate_check_result
    verify_agent.Domain.Dates.is_iso_date
executed = refl

execute-IsExecuted_example :
    IsExecuted sha256_of_text collate trusted_execution_specs real sandbox lint_request lint_outcome
execute-IsExecuted_example =
    execute-IsExecuted sha256_json sha256_of_text collate trusted_execution_specs real sandbox
      lint_request lint_outcome executed
