-- ===== src/Engine/Sandbox/Transitions.antt =====
-- The state machine of a check execution: queued, running, then one final status.
use mathlib.Core.Path.{subst}
use verify_agent.Prelude.{
  ℕ, suc, ◌+◌, ◌≤◌, String, true, List, [], ◌∷◌, Option, none, Result, ok, ◌>>=◌, ◌≡◌, refl, arith,
  length, returns, ok-injective, ensure,
}
use verify_agent.Errors.{Error}
use verify_agent.Domain.Types.{
  CheckExecution, ExecutionStatus, queued, running, completed, failed, timed_out, cancelled,
}
use verify_agent.Domain.Validation.{validate_check_execution}
use verify_agent.Engine.Sandbox.{transition_check_execution, is_allowed, moved}

-- The moves of a check execution.
pub data Step : ExecutionStatus → ExecutionStatus → Type 0 where
  begin : Step queued running
  withdraw : Step queued cancelled
  finish : (s : ExecutionStatus) → is_allowed running s ≡ true → Step running s

is_allowed-Step : (s t : ExecutionStatus) → is_allowed s t ≡ true → Step s t
unfolding is_allowed
is_allowed-Step queued queued h = absurd (ground arith)
is_allowed-Step queued running h = begin
is_allowed-Step queued completed h = absurd (ground arith)
is_allowed-Step queued failed h = absurd (ground arith)
is_allowed-Step queued timed_out h = absurd (ground arith)
is_allowed-Step queued cancelled h = withdraw
is_allowed-Step running t h = finish t h
is_allowed-Step completed t h = absurd (ground arith)
is_allowed-Step failed t h = absurd (ground arith)
is_allowed-Step timed_out t h = absurd (ground arith)
is_allowed-Step cancelled t h = absurd (ground arith)

-- A move that succeeds is one of the state machine's, and keeps what identifies the execution.
pub transition_check_execution-Step :
    (e f : CheckExecution) (next : ExecutionStatus) (start stop : Option String)
    → transition_check_execution e next start stop ≡ ok f
    → Step e.status f.status
      × (f.status ≡ next)
      × (f.id ≡ e.id)
      × (f.job_id ≡ e.job_id)
      × (f.inputs_hash ≡ e.inputs_hash)
      × (f.execution_source ≡ e.execution_source)
      × (f.check_definition_id ≡ e.check_definition_id)
      × (validate_check_execution f ≡ ok tt)
unfolding transition_check_execution
transition_check_execution-Step e f next start stop h =
    returns (ensure (is_allowed e.status next) _) _ h λ _ allowed h1.
      returns (validate_check_execution (moved e next start stop)) _ h1 λ _ valid h2.
        subst
          (λ g.
            Step e.status g.status
            × (g.status ≡ next)
            × (g.id ≡ e.id)
            × (g.job_id ≡ e.job_id)
            × (g.inputs_hash ≡ e.inputs_hash)
            × (g.execution_source ≡ e.execution_source)
            × (g.check_definition_id ≡ e.check_definition_id)
            × (validate_check_execution g ≡ ok tt))
          (ok-injective h2)
          (is_allowed-Step e.status next (ground arith), refl, refl, refl, refl, refl, refl, valid)

abbrev pub moves_left : ExecutionStatus → ℕ
moves_left queued = 2
moves_left running = 1
moves_left completed = 0
moves_left failed = 0
moves_left timed_out = 0
moves_left cancelled = 0

Step-moves_left : {s t : ExecutionStatus} → Step s t → suc (moves_left t) ≤ moves_left s
unfolding is_allowed
Step-moves_left begin = omega arith
Step-moves_left withdraw = omega arith
Step-moves_left (finish t h) = ground arith

-- The moves of a list, one after the other.
abbrev pub run_transitions : CheckExecution → List ExecutionStatus → Result Error CheckExecution
run_transitions e [] = ok e
run_transitions e (next ∷ rest) =
    transition_check_execution e next none none >>= λ f. run_transitions f rest

-- A check execution moves at most twice, and a finished one never moves.
pub run_transitions-length :
    (moves : List ExecutionStatus) (e f : CheckExecution)
    → run_transitions e moves ≡ ok f
    → length moves + moves_left f.status ≤ moves_left e.status
run_transitions-length [] e f h = let same = ok-injective h in rw same (omega arith)
run_transitions-length (next ∷ moves) e f h =
    returns (transition_check_execution e next none none) _ h λ g h1 h2.
      let step = (transition_check_execution-Step e g next none none h1).0 in
      let less = Step-moves_left step in
      let rest = run_transitions-length moves g f h2 in omega arith
