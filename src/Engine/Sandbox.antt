-- ===== src/Engine/Sandbox.antt =====
-- packages/engine/src/execution.ts and interfaces.ts: the sandbox's job identity, its limits and
-- statuses, and the state machine of a check execution. `sha256_text` is the hexadecimal digest of
-- the UTF-8 text, of node:crypto.
pub mod Wire
pub mod Transitions
use Prim.Native.String.{◌++◌ as concat}
use verify_agent.Prelude.{
  ℕ, ◌*◌, String, Bool, true, false, not, ◌&&◌, ◌||◌, List, [], ◌∷◌, Option, none, some, Result, ok,
  throw, ◌>>=◌, ◌>>◌, ensure, reject_if, if◌then◌else◌, is_empty, every, leb, ltb, nat_eq, or_else,
  or_option,
}
use verify_agent.Prelude.Text.{codes, js_length, is_alnum}
use verify_agent.Json.{Number, nat, negative, non_integer}
use verify_agent.Errors.{Error, plain}
use verify_agent.Domain.Types.{
  CheckExecution, ExecutionStatus, queued, running, completed, failed, timed_out, cancelled,
  CheckStatus, passed, error, SandboxStatus,
}
use verify_agent.Domain.Validation.{validate_check_execution}
use verify_agent.Checks.Specs.{Spec}
use verify_agent.Engine.Interfaces.{ExecutionLimits, default_execution_limits}

abbrev is_positive : Number → Bool
is_positive (nat n) = leb 1 n
is_positive (negative n) = false
is_positive (non_integer s) = false

unfoldable pub assert_limits : ExecutionLimits → Result Error ExecutionLimits
assert_limits limits = do
  ensure (is_positive limits.timeout_ms) (plain "timeoutMs must be a positive integer")
  ensure (is_positive limits.memory_limit_bytes)
      (plain "memoryLimitBytes must be a positive integer")
  ok limits

abbrev caller_limit : (ExecutionLimits → Number) → Option ExecutionLimits → Option Number
caller_limit f none = none
caller_limit f (some l) = some (f l)

unfoldable pub resolve_limits : Spec → Option ExecutionLimits → ExecutionLimits
unfolding default_execution_limits
resolve_limits spec caller = record {
  timeout_ms =
      or_else (or_option spec.timeout_ms (caller_limit (λ l. l.timeout_ms) caller))
        default_execution_limits.timeout_ms;
  memory_limit_bytes =
      or_else (or_option spec.memory_limit_bytes (caller_limit (λ l. l.memory_limit_bytes) caller))
        default_execution_limits.memory_limit_bytes;
}

-- `/^[A-Za-z0-9][A-Za-z0-9._-]*$/`
abbrev is_wire_char : ℕ → Bool
is_wire_char c = is_alnum c || nat_eq c b'.' || nat_eq c b'_' || nat_eq c b'-'

abbrev pub is_wire_codes : List ℕ → Bool
is_wire_codes [] = false
is_wire_codes (c ∷ cs) = is_alnum c && every is_wire_char cs

module _ (sha256_text : String → String) where
  unfoldable pub to_sandbox_wire_job_id : String → Result Error String
  unfolding js_length
  to_sandbox_wire_job_id id = do
    reject_if (is_empty (codes id) || ltb 256 (js_length id))
        (plain "sandbox wire job identity requires a non-empty job id")
    ok (
        if leb (js_length id) 128 && is_wire_codes (codes id)
        then id
        else concat "job-" (sha256_text id))

-- `allowed[status].includes(next)`
unfoldable pub is_allowed : ExecutionStatus → ExecutionStatus → Bool
is_allowed queued running = true
is_allowed queued cancelled = true
is_allowed queued queued = false
is_allowed queued completed = false
is_allowed queued failed = false
is_allowed queued timed_out = false
is_allowed running completed = true
is_allowed running failed = true
is_allowed running timed_out = true
is_allowed running cancelled = true
is_allowed running queued = false
is_allowed running running = false
is_allowed completed next = false
is_allowed failed next = false
is_allowed timed_out next = false
is_allowed cancelled next = false

abbrev pub is_running : ExecutionStatus → Bool
is_running running = true
is_running queued = false
is_running completed = false
is_running failed = false
is_running timed_out = false
is_running cancelled = false

-- `...(test && time ? { key: time } : {})`: an empty text is no time.
abbrev stamp : Bool → Option String → Option String → Option String
stamp true (some t) before = if is_empty (codes t) then before else some t
stamp true none before = before
stamp false t before = before

abbrev pub moved : CheckExecution → ExecutionStatus → Option String → Option String → CheckExecution
moved execution next start stop = record execution {
  status = next;
  started_at = stamp (is_running next) start execution.started_at;
  completed_at = stamp (not (is_running next)) stop execution.completed_at;
}

abbrev execution_status_text : ExecutionStatus → String
execution_status_text queued = "queued"
execution_status_text running = "running"
execution_status_text completed = "completed"
execution_status_text failed = "failed"
execution_status_text timed_out = "timed_out"
execution_status_text cancelled = "cancelled"

unfoldable pub transition_check_execution :
    CheckExecution → ExecutionStatus → Option String → Option String → Result Error CheckExecution
unfolding is_allowed
transition_check_execution execution next start stop = do
  ensure (is_allowed execution.status next) (
      plain (
        concat "Invalid check execution transition: " (
          concat (execution_status_text execution.status)
            (concat " -> " (execution_status_text next)))))
  validate_check_execution (moved execution next start stop)
  ok (moved execution next start stop)

-- `exitCode === 0`
abbrev pub is_zero : Option Number → Bool
is_zero (some (nat n)) = nat_eq n 0
is_zero (some (negative n)) = false
is_zero (some (non_integer s)) = false
is_zero none = false

unfoldable pub check_status : SandboxStatus → Option Number → CheckStatus
check_status timed_out exit = timed_out
check_status cancelled exit = cancelled
check_status error exit = error
check_status failed exit = error
check_status completed exit = if is_zero exit then passed else failed

-- `terminalStatus`, in `execute`
unfoldable pub terminal_status : SandboxStatus → Option Number → ExecutionStatus
terminal_status completed exit = if is_zero exit then completed else failed
terminal_status error exit = failed
terminal_status failed exit = failed
terminal_status timed_out exit = timed_out
terminal_status cancelled exit = cancelled
