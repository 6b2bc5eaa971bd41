-- ===== src/Engine/Execution/Outcome.antt =====
-- What an executed check says of the sandbox's answer.
use mathlib.Core.Path.{subst}
use verify_agent.Prelude.{
  ensure_holds, String, Bool, true, List, [], ◌∷◌, Option, none, some, Result, ok, ◌≡◌, refl, sym,
  ap, ◌∙◌, arith, returns, ok-injective, ◌↔◌, eq_iff, ◌==◌, or_else, ensure,
}
use verify_agent.Json.{Json, Number}
use verify_agent.Errors.{Error}
use verify_agent.Domain.Types.{
  CheckExecution, CheckResult, passed, ExecutionStatus, queued, running, completed, SandboxStatus,
  ExecutionSource,
}
use verify_agent.Domain.Validation.{validate_check_execution, validate_check_result}
use verify_agent.Checks.Specs.{Spec, find_spec}
use verify_agent.Policy.{brand_id}
use verify_agent.Engine.Interfaces.{
  SandboxJobRequest, SandboxJobResult, CheckExecutionRequest, CheckExecutionOutcome,
  default_execution_limits,
}
use verify_agent.Engine.Sandbox.{
  assert_limits, resolve_limits, to_sandbox_wire_job_id, transition_check_execution, check_status,
  terminal_status, is_zero,
}
use verify_agent.Engine.Sandbox.Transitions.{transition_check_execution-Step}
use verify_agent.Engine.Execution.{
  execute, found_spec, queued_execution, is_queued, is_terminal, provenance,
  map_check_execution_to_sandbox_job_request, map_sandbox_job_result_to_check_result,
}

-- What is sent to the sandbox: the trusted command of the check, once.
pub record IsTrusted (sha256_text : String → String) (locale_le : String → String → Bool)
    (specs : List Spec) (request : CheckExecutionRequest) (sent : SandboxJobRequest) : Type 0 where
  pub spec : Spec
  pub found : find_spec locale_le specs request.definition.id ≡ some spec
  pub command : sent.commands ≡ record { executable = spec.executable; args = spec.args } ∷ []
  pub job : to_sandbox_wire_job_id sha256_text request.execution.job_id ≡ ok sent.job_id
  pub planned : request.plan_item.check_id ≡ request.definition.id
  pub named : request.execution.check_definition_id ≡ request.definition.id
  pub was_queued : request.execution.status ≡ queued

-- What a check result says of the sandbox's answer.
pub record IsMapped (sha256_text : String → String) (request : CheckExecutionRequest)
    (execution : CheckExecution) (answer : SandboxJobResult) (result : CheckResult) : Type 0 where
  pub status : result.status ≡ check_status answer.status answer.exit_code
  pub exit_code : result.exit_code ≡ answer.exit_code
  pub check : result.check_id ≡ request.definition.id
  pub execution_id : result.check_execution_id ≡ execution.id
  pub inputs : result.input_hash ≡ execution.inputs_hash
  pub source : execution.execution_source ≡ some result.execution_source
  pub correlated : to_sandbox_wire_job_id sha256_text execution.job_id ≡ ok answer.job_id
  pub valid : validate_check_result result ≡ ok tt

is_queued-eq : (s : ExecutionStatus) → is_queued s ≡ true → s ≡ queued
is_queued-eq s h = ground arith

found_spec-eq-ok : (id : String) (o : Option Spec) (s : Spec) → found_spec id o ≡ ok s → o ≡ some s
found_spec-eq-ok id o s h = ground arith

provenance-eq-ok :
    (o : Option ExecutionSource) (s : ExecutionSource) → provenance o ≡ ok s → o ≡ some s
provenance-eq-ok o s h = ground arith

-- A check passes, and its execution completes, exactly if the sandbox completed with exit code zero.
pub check_status-passed :
    (s : SandboxStatus) (exit : Option Number)
    → ((check_status s exit ≡ passed) ↔ ((s ≡ completed) × (is_zero exit ≡ true)))
      × ((terminal_status s exit ≡ completed) ↔ ((s ≡ completed) × (is_zero exit ≡ true)))
unfolding check_status terminal_status
check_status-passed s exit = ground arith

module _ (sha256_text : String → String) (locale_le : String → String → Bool) where
  mapped_request :
      (specs : List Spec) (request : CheckExecutionRequest) (sent : SandboxJobRequest)
      → map_check_execution_to_sandbox_job_request sha256_text locale_le specs request ≡ ok sent
      → IsTrusted sha256_text locale_le specs request sent
  unfolding map_check_execution_to_sandbox_job_request
  mapped_request specs request sent h =
      let id = request.definition.id in
      returns (ensure (is_queued request.execution.status) _) _ h λ u1 e1 h1.
        returns (ensure (request.execution.check_definition_id == id) _) _ h1 λ u2 e2 h2.
          returns (ensure (request.plan_item.check_id == id) _) _ h2 λ u3 e3 h3.
            returns (found_spec id (find_spec locale_le specs id)) _ h3 λ spec e4 h4.
              returns
                (assert_limits
                  (resolve_limits spec (some (or_else request.limits default_execution_limits))))
                _ h4
                λ limits e5 h5.
                  returns (to_sandbox_wire_job_id sha256_text request.execution.job_id) _ h5
                    λ job e6 h6.
                      subst (IsTrusted sha256_text locale_le specs request) (ok-injective h6)
                        (record {
                          spec = spec;
                          found = found_spec-eq-ok id _ spec e4;
                          command = refl;
                          job = e6;
                          planned =
                              (eq_iff request.plan_item.check_id id).0 (ensure_holds _ _ u3 e3);
                          named =
                              (eq_iff request.execution.check_definition_id id).0
                                (ensure_holds _ _ u2 e2);
                          was_queued =
                              is_queued-eq request.execution.status (ensure_holds _ _ u1 e1);
                        })

module _ (sha256 : Json → String) (sha256_text : String → String) where
  IsMapped-result :
      (request : CheckExecutionRequest) (execution : CheckExecution) (answer : SandboxJobResult)
      (result : CheckResult)
      → map_sandbox_job_result_to_check_result sha256 sha256_text request execution answer
        ≡ ok result
      → IsMapped sha256_text request execution answer result
  unfolding map_sandbox_job_result_to_check_result
  IsMapped-result request execution answer result h =
      returns (provenance execution.execution_source) _ h λ source e1 h1.
        returns (to_sandbox_wire_job_id sha256_text execution.job_id) _ h1 λ wire e2 h2.
          returns (ensure (answer.job_id == wire) _) _ h2 λ u3 e3 h3.
            returns (ensure (is_terminal execution.status) _) _ h3 λ u4 e4 h4.
              returns (brand_id request.result_id) _ h4 λ id _ h5.
                returns (validate_check_result _) _ h5 λ _ e6 h6.
                  subst (IsMapped sha256_text request execution answer) (ok-injective h6) (record {
                    status = refl;
                    exit_code = refl;
                    check = refl;
                    execution_id = refl;
                    inputs = refl;
                    source = provenance-eq-ok execution.execution_source source e1;
                    correlated =
                        e2
                        ∙ ap (λ w. ok w)
                            (sym ((eq_iff answer.job_id wire).0 (ensure_holds _ _ u3 e3)));
                    valid = e6;
                  })

-- An executed check: what was sent, what came back, and what was made of it.
pub record IsExecuted (sha256_text : String → String) (locale_le : String → String → Bool)
    (specs : List Spec) (source : ExecutionSource)
    (sandbox : SandboxJobRequest → Result Error SandboxJobResult) (request : CheckExecutionRequest)
    (out : CheckExecutionOutcome) : Type 0 where
  pub answer : SandboxJobResult
  pub answered : sandbox out.request ≡ ok answer
  pub correlated : answer.job_id ≡ out.request.job_id
  pub trusted : IsTrusted sha256_text locale_le specs request out.request
  pub terminal : out.execution.status ≡ terminal_status answer.status answer.exit_code
  pub status : out.result.status ≡ check_status answer.status answer.exit_code
  pub check : out.result.check_id ≡ request.definition.id
  pub execution_id : out.result.check_execution_id ≡ request.execution.id
  pub attributed : out.result.execution_source ≡ source
  pub inputs : out.result.input_hash ≡ out.execution.inputs_hash

module _ (sha256 : Json → String) (sha256_text : String → String)
    (locale_le : String → String → Bool) (specs : List Spec) (source : ExecutionSource)
    (sandbox : SandboxJobRequest → Result Error SandboxJobResult) where
  -- An execution that returns sent the check's trusted command to the sandbox under the job's own
  -- wire identity, took only the answer for that identity, moved the execution from queued to the
  -- status of the answer, and attributes the result to the check, the execution and the sandbox's
  -- source.
  pub execute-IsExecuted :
      (request : CheckExecutionRequest) (out : CheckExecutionOutcome)
      → execute sha256 sha256_text locale_le specs source sandbox request ≡ ok out
      → IsExecuted sha256_text locale_le specs source sandbox request out
  unfolding execute
  execute-IsExecuted request out h =
      let id = request.definition.id in
      returns (found_spec id (find_spec locale_le specs id)) _ h λ spec e1 h1.
        let queued_ =
          queued_execution sha256 sha256_text locale_le specs source sandbox request spec in
        returns (validate_check_execution queued_) _ h1 λ _ e2 h2.
          returns
            (map_check_execution_to_sandbox_job_request sha256_text locale_le specs
              (record request { execution = queued_ }))
            _ h2
            λ sent e3 h3.
              returns (transition_check_execution queued_ running none none) _ h3 λ started e4 h4.
                returns (sandbox sent) _ h4 λ answer e5 h5.
                  returns
                    (transition_check_execution started
                      (terminal_status answer.status answer.exit_code) none none)
                    _ h5
                    λ final e6 h6.
                      returns
                        (map_sandbox_job_result_to_check_result sha256 sha256_text
                          (record request { execution = final }) final answer)
                        _ h6
                        λ result e7 h7.
                          let (_, _, id1, job1, hash1, source1, _, _) =
                            transition_check_execution-Step queued_ started running none none e4 in
                          let (_, status2, id2, job2, hash2, source2, _, _) =
                            transition_check_execution-Step started final
                              (terminal_status answer.status answer.exit_code) none none e6 in
                          let t =
                            mapped_request sha256_text locale_le specs
                              (record request { execution = queued_ }) sent e3 in
                          let m =
                            IsMapped-result sha256 sha256_text
                              (record request { execution = final }) final answer result e7 in
                          let same_job =
                            ap (λ j. to_sandbox_wire_job_id sha256_text j) (sym job1 ∙ sym job2) in
                          subst (IsExecuted sha256_text locale_le specs source sandbox request)
                            (ok-injective h7)
                            (record {
                              answer = answer;
                              answered = e5;
                              correlated = ok-injective (
                                  sym m.correlated
                                  ∙ ap (λ j. to_sandbox_wire_job_id sha256_text j) (job2 ∙ job1)
                                  ∙ t.job);
                              trusted = record {
                                spec = t.spec;
                                found = t.found;
                                command = t.command;
                                job = t.job;
                                planned = t.planned;
                                named = t.named;
                                was_queued = t.was_queued;
                              };
                              terminal = status2;
                              status = m.status;
                              check = m.check;
                              execution_id = m.execution_id ∙ id2 ∙ id1;
                              attributed = ground (arith, m.source, source2, source1);
                              inputs = m.inputs;
                            })
