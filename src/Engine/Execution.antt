-- ===== src/Engine/Execution.antt =====
-- packages/engine/src/execution.ts: one check in a sandbox. `sha256` is the digest of the canonical
-- JSON text of a value, `sha256_text` of a text, `locale_le` is `localeCompare`; the sandbox is a
-- function from a request to its result.
pub mod Outcome
use Prim.Native.String.{◌++◌ as concat}
use verify_agent.Prelude.{
  ℕ, String, Bool, true, false, not, ◌&&◌, List, [], ◌∷◌, ◌++◌, Option, none, some, Result, ok,
  throw, ◌>>=◌, ◌>>◌, ensure, reject_if, if◌then◌else◌, is_empty, ◌==◌, or_else,
}
use verify_agent.Prelude.Text.{codes}
use verify_agent.Json.{Json, Number, num, str, object, strings, array, optional, prop}
use verify_agent.Errors.{Error, plain}
use verify_agent.Domain.Types.{
  CheckExecution, CheckResult, ExecutionStatus, queued, running, completed, failed, timed_out,
  cancelled, CheckStatus, ExecutionSource, Provenance,
}
use verify_agent.Domain.Validation.{validate_check_execution, validate_check_result}
use verify_agent.Checks.Specs.{Spec, Runtime, node, cargo, find_spec}
use verify_agent.Checks.Planner.{item_json}
use verify_agent.Policy.{brand_id}
use verify_agent.Engine.Evidence.{check_status_text, source_text, option_str}
use verify_agent.Engine.Interfaces.{
  SandboxJobRequest, SandboxJobResult, SandboxCommand, CheckExecutionRequest, CheckExecutionOutcome,
  ExecutionEnvironment, DependencyEnvironment, ExecutionLimits, default_execution_limits,
}
use verify_agent.Engine.Sandbox.{
  assert_limits, resolve_limits, to_sandbox_wire_job_id, transition_check_execution, check_status,
  terminal_status,
}

abbrev runtime_text : Runtime → String
runtime_text node = "node"
runtime_text cargo = "cargo"

abbrev optional_num : String → Option Number → List (String × Json)
optional_num k none = []
optional_num k (some n) = (k, num n) ∷ []

abbrev spec_json : Spec → Json
spec_json s = object (
    ("checkId", str s.check_id)
    ∷ ("runtime", str (runtime_text s.runtime))
    ∷ ("executable", str s.executable)
    ∷ ("args", strings s.args)
    ∷ ("workingDirectory", str ".")
    ∷ ("environment", object [])
    ∷ (optional_num "memoryLimitBytes" s.memory_limit_bytes
        ++ optional_num "timeoutMs" s.timeout_ms))

abbrev pub dependency_json : Option DependencyEnvironment → Option Json
dependency_json none = none
dependency_json (some d) = some d.content

abbrev environment_json : Option ExecutionEnvironment → Option Json
environment_json none = none
environment_json (some e) = some (
    object (
      ("sourceSnapshotId", str e.source_snapshot_id)
      ∷ (optional "dependencyEnvironment" (dependency_json e.dependency_environment)
          ++ (("generatedArtifacts", array e.generated_artifacts)
              ∷ ("identityHash", str e.identity_hash)
              ∷ optional "sandboxSnapshotIdentity" (option_str e.sandbox_snapshot_identity)))))

abbrev pub snapshot_identity : Option ExecutionEnvironment → Option String
snapshot_identity none = none
snapshot_identity (some e) = e.sandbox_snapshot_identity

-- What `createExecutionInputHash` digests.
abbrev pub input_content : CheckExecutionRequest → Spec → Json
input_content request spec = object (
    ("source", request.snapshot.source)
    ∷ ("sourceState", request.snapshot.source_state)
    ∷ ("checkId", str request.definition.id)
    ∷ ("checkVersion", str request.definition.version)
    ∷ ("planItem", item_json request.plan_item)
    ∷ ("spec", spec_json spec)
    ∷ optional "environment" (environment_json request.execution_environment))

abbrev pub is_queued : ExecutionStatus → Bool
is_queued queued = true
is_queued running = false
is_queued completed = false
is_queued failed = false
is_queued timed_out = false
is_queued cancelled = false

-- `["completed", "failed", "timed_out", "cancelled"].includes(status)`
abbrev pub is_terminal : ExecutionStatus → Bool
is_terminal queued = false
is_terminal running = false
is_terminal completed = true
is_terminal failed = true
is_terminal timed_out = true
is_terminal cancelled = true

abbrev found_spec : String → Option Spec → Result Error Spec
found_spec id none = throw (plain (concat "No trusted execution specification: " id))
found_spec id (some spec) = ok spec

abbrev join_errors : List String → String
join_errors [] = ""
join_errors (e ∷ []) = e
join_errors (e ∷ f ∷ rest) = concat e (concat "; " (join_errors (f ∷ rest)))

-- `errors.join("; ") || otherwise`
abbrev summary_or : String → String → String
summary_or joined otherwise = if is_empty (codes joined) then otherwise else joined

abbrev system_producer : Provenance
system_producer = record { type = "system"; name = "verify-agent"; version = some "0.1.0-phase0" }

abbrev provenance : Option ExecutionSource → Result Error ExecutionSource
provenance none = throw (plain "check execution provenance is required before result mapping")
provenance (some source) = ok source

-- The two fields of a source reference, and no other that the value may have.
abbrev to_public_source_reference : Json → Json
to_public_source_reference source =
    object (
      optional "provider" (prop "provider" source)
      ++ optional "reference" (prop "reference" source))

module _ (sha256_text : String → String) (locale_le : String → String → Bool) where
  unfoldable pub map_check_execution_to_sandbox_job_request :
      List Spec → CheckExecutionRequest → Result Error SandboxJobRequest
  unfolding find_spec resolve_limits assert_limits to_sandbox_wire_job_id default_execution_limits
  map_check_execution_to_sandbox_job_request specs request = do
    ensure (is_queued request.execution.status)
        (plain "check execution must be queued before mapping")
    ensure (request.execution.check_definition_id == request.definition.id)
        (plain "check execution definition does not match request")
    ensure (request.plan_item.check_id == request.definition.id)
        (plain "plan item definition does not match request")
    spec ← found_spec request.definition.id (find_spec locale_le specs request.definition.id)
    -- the parameter's default is for an absent argument
    limits ←
        assert_limits (resolve_limits spec (some (or_else request.limits default_execution_limits)))
    job_id ← to_sandbox_wire_job_id sha256_text request.execution.job_id
    ok (record {
      job_id = job_id;
      source = to_public_source_reference request.snapshot.source;
      snapshot =
          or_else (snapshot_identity request.execution_environment)
            request.snapshot.source_state_value;
      commands = record { executable = spec.executable; args = spec.args } ∷ [];
      resource_limits = limits;
    })

module _ (sha256 : Json → String) (sha256_text : String → String) where
  result_content :
      CheckExecutionRequest → CheckExecution → SandboxJobResult → ExecutionSource → String → Json
  unfolding check_status
  result_content request execution sandbox source summary = object (
      ("checkExecutionId", str execution.id)
      ∷ ("checkId", str request.definition.id)
      ∷ ("checkVersion", str request.definition.version)
      ∷ ("status", str (check_status_text (check_status sandbox.status sandbox.exit_code)))
      ∷ (optional_num "exitCode" sandbox.exit_code
          ++ (("durationMs", num sandbox.duration_ms)
              ∷ ("summary", str summary)
              ∷ ("rawOutputRef", str sandbox.logs_ref)
              ∷ ("artifactRefs", strings sandbox.artifact_refs)
              ∷ ("inputHash", str execution.inputs_hash)
              ∷ ("executionSource", str (source_text source))
              ∷ [])))

  -- The object literal of the result.
  make_check_result :
      CheckExecutionRequest
      → CheckExecution
      → SandboxJobResult
      → ExecutionSource
      → String
      → String
      → CheckResult
  unfolding result_content check_status
  make_check_result request execution sandbox source summary id = record {
    id = id;
    check_execution_id = execution.id;
    check_id = request.definition.id;
    check_version = request.definition.version;
    status = check_status sandbox.status sandbox.exit_code;
    exit_code = sandbox.exit_code;
    duration_ms = sandbox.duration_ms;
    summary = summary;
    raw_output_ref = some sandbox.logs_ref;
    artifact_refs = sandbox.artifact_refs;
    memory_bytes = sandbox.memory_bytes;
    cpu_time_ms = sandbox.cpu_time_ms;
    input_hash = execution.inputs_hash;
    content_hash = sha256 (result_content request execution sandbox source summary);
    created_at = request.created_at;
    producer = system_producer;
    execution_source = source;
  }

  unfoldable pub map_sandbox_job_result_to_check_result :
      CheckExecutionRequest → CheckExecution → SandboxJobResult → Result Error CheckResult
  unfolding make_check_result to_sandbox_wire_job_id check_status
  map_sandbox_job_result_to_check_result request execution sandbox = do
    source ← provenance execution.execution_source
    wire ← to_sandbox_wire_job_id sha256_text execution.job_id
    ensure (sandbox.job_id == wire) (plain "sandbox result job does not match check execution")
    ensure (is_terminal execution.status)
        (plain "check execution must be terminal before result mapping")
    let status = check_status sandbox.status sandbox.exit_code
    let summary =
        summary_or (join_errors sandbox.errors)
          (concat request.definition.name (concat ": " (check_status_text status)))
    id ← brand_id request.result_id
    let result = make_check_result request execution sandbox source summary id
    validate_check_result result
    ok result

module _ (sha256 : Json → String) (sha256_text : String → String)
    (locale_le : String → String → Bool) (specs : List Spec) (source : ExecutionSource)
    (sandbox : SandboxJobRequest → Result Error SandboxJobResult) where
  abbrev pub queued_execution : CheckExecutionRequest → Spec → CheckExecution
  queued_execution request spec = record request.execution {
    inputs_hash = sha256 (input_content request spec);
    execution_source = some source;
  }

  -- `createCheckExecutor(sandbox, specRegistry).execute(request)`
  unfoldable pub execute : CheckExecutionRequest → Result Error CheckExecutionOutcome
  unfolding find_spec map_check_execution_to_sandbox_job_request transition_check_execution
      terminal_status map_sandbox_job_result_to_check_result
  execute request = do
    spec ← found_spec request.definition.id (find_spec locale_le specs request.definition.id)
    let execution = queued_execution request spec
    validate_check_execution execution
    sandbox_request ←
        map_check_execution_to_sandbox_job_request sha256_text locale_le specs
          (record request { execution = execution })
    started ← transition_check_execution execution running none none
    answer ← sandbox sandbox_request
    terminal ←
        transition_check_execution started (terminal_status answer.status answer.exit_code) none
          none
    result ←
        map_sandbox_job_result_to_check_result sha256 sha256_text
          (record request { execution = terminal }) terminal answer
    ok (record { request = sandbox_request; execution = terminal; result = result })
