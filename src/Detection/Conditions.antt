-- ===== src/Detection/Conditions.antt =====
-- packages/adapters-lang/src/service.ts: which checks the conditions of a project bring.
use verify_agent.Prelude.{
  String, Bool, false, ◌&&◌, ◌||◌, List, [], ◌∷◌, ◌++◌, ◌≡◌, includes, if◌then◌else◌, arith, ◌==◌,
}
use verify_agent.Detection.Detectors.{when}
use verify_agent.Detection.Observed.{some_of-append, some_of-when, some_of-if}

-- A capability of a list of seven conditions.
module _ (js types lint tests build rust soroban : Bool) where
  abbrev javascript_checks : List String
  javascript_checks =
      "dependency.audit" ∷ when types "typescript.typecheck"
      ++ when lint "typescript.lint"
      ++ when tests "typescript.test"
      ++ when build "typescript.build"

  abbrev rust_checks : List String
  rust_checks = "rust.check" ∷ "rust.test" ∷ "rust.clippy" ∷ []

  abbrev pub checks : List String
  checks =
      (if js then javascript_checks else [])
      ++ (if rust then rust_checks else [])
      ++ when soroban "soroban.contract-test"

  pub includes-javascript_checks :
      (k : String)
      → ("dependency.audit" == k) ≡ false
      → ("typescript.lint" == k) ≡ false
      → ("typescript.test" == k) ≡ false
      → includes javascript_checks k
        ≡ ((types && "typescript.typecheck" == k) || (build && "typescript.build" == k))
  includes-javascript_checks k no_audit no_lint no_tests =
      let is_k : String → Bool = λ l. l == k in
      ground (
        arith,
        no_audit,
        no_lint,
        no_tests,
        some_of-append is_k
            ("dependency.audit" ∷ when types "typescript.typecheck"
              ++ when lint "typescript.lint"
              ++ when tests "typescript.test")
            (when build "typescript.build"),
        some_of-append is_k
            ("dependency.audit" ∷ when types "typescript.typecheck" ++ when lint "typescript.lint")
            (when tests "typescript.test"),
        some_of-append is_k ("dependency.audit" ∷ when types "typescript.typecheck")
            (when lint "typescript.lint"),
        some_of-when is_k types "typescript.typecheck",
        some_of-when is_k lint "typescript.lint",
        some_of-when is_k tests "typescript.test",
        some_of-when is_k build "typescript.build",
      )

  pub includes-checks :
      (k : String)
      → includes rust_checks k ≡ false
      → ("soroban.contract-test" == k) ≡ false
      → includes checks k ≡ (js && includes javascript_checks k)
  includes-checks k no_rust no_soroban =
      let is_k : String → Bool = λ l. l == k in
      ground (
        arith,
        no_rust,
        no_soroban,
        some_of-append is_k
            ((if js then javascript_checks else []) ++ (if rust then rust_checks else []))
            (when soroban "soroban.contract-test"),
        some_of-append is_k (if js then javascript_checks else [])
            (if rust then rust_checks else []),
        some_of-if is_k js javascript_checks,
        some_of-if is_k rust rust_checks,
        some_of-when is_k soroban "soroban.contract-test",
      )
