-- ===== src/Checks/Specs.antt =====
-- packages/checks/src/execution-specs.ts: the trusted execution specifications and their timeouts.
pub mod Timeouts
use verify_agent.Prelude.{
  ℕ, ◌*◌, String, Bool, true, false, ◌&&◌, ◌||◌, not, List, [], ◌∷◌, Option, none, some, ◌==◌, ltb,
  leb, Result, ok, throw, ◌>>=◌, ◌>>◌, ensure, if◌then◌else◌, find,
}
use verify_agent.Prelude.Sorting.{sort_by}
use verify_agent.Json.{Number, nat}
use verify_agent.Errors.{Error, plain}

pub data Runtime : Type 0 where
  node cargo : Runtime

pub record Spec : Type 0 where
  pub check_id : String
  pub runtime : Runtime
  pub executable : String
  pub args : List String
  pub memory_limit_bytes : Option Number
  pub timeout_ms : Option Number

abbrev spec : String → Runtime → String → List String → Spec
spec id runtime executable args = record {
  check_id = id;
  runtime = runtime;
  executable = executable;
  args = args;
  memory_limit_bytes = none;
  timeout_ms = none;
}

unfoldable pub trusted_execution_specs : List Spec
trusted_execution_specs =
    record (spec "typescript.typecheck" node "typescript" ("--noEmit" ∷ [])) {
      memory_limit_bytes = some (nat (1024 * 1024 * 1024));
    }
    ∷ spec "typescript.lint" node "typescript-lint" ("." ∷ [])
    ∷ spec "typescript.test" node "typescript-test" ("run" ∷ [])
    ∷ spec "typescript.build" node "typescript-build" ("--build" ∷ [])
    ∷ spec "rust.check" cargo "cargo" ("check" ∷ [])
    ∷ spec "rust.test" cargo "cargo" ("test" ∷ [])
    ∷ spec "rust.clippy" cargo "cargo" ("clippy" ∷ [])
    ∷ record (spec "soroban.contract-test" cargo "cargo" ("test" ∷ "--offline" ∷ [])) {
      memory_limit_bytes = some (nat (2 * 1024 * 1024 * 1024));
      timeout_ms = some (nat (5 * 60 * 1000));
    }
    ∷ []

module _ (locale_le : String → String → Bool) where
  -- `createTrustedExecutionSpecRegistry(specs).find(checkId)`
  unfoldable pub find_spec : List Spec → String → Option Spec
  unfolding sort_by
  find_spec specs id =
      find (λ s. s.check_id == id) (sort_by (λ a b. locale_le a.check_id b.check_id) specs)

-- `Number.isSafeInteger(n) && n >= 1`, with the number
abbrev pub safe_positive : Number → Option ℕ
safe_positive (nat n) = if leb 1 n && leb n 9007199254740991 then some n else none
safe_positive _ = none

abbrev positive_or_throw : String → Option ℕ → Result Error ℕ
positive_or_throw message none = throw (plain message)
positive_or_throw message (some n) = ok n

-- The loop of `maxTrustedExecutionTimeoutMs`.
raise_maximum : ℕ → List Spec → Result Error ℕ
raise_maximum maximum [] = ok maximum
raise_maximum maximum (s ∷ specs) = elim s.timeout_ms [
  | none ↦ raise_maximum maximum specs
  | some t ↦
      positive_or_throw "trusted spec timeout must be a positive integer" (safe_positive t) >>= λ n.
      raise_maximum (if ltb maximum n then n else maximum) specs
]

unfoldable pub max_trusted_execution_timeout : Number → List Spec → Result Error ℕ
unfolding raise_maximum
max_trusted_execution_timeout fallback specs = do
  n ← positive_or_throw "fallback timeout must be a positive integer" (safe_positive fallback)
  raise_maximum n specs
