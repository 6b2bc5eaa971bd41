-- ===== src/Checks/Catalog.antt =====
-- packages/checks/src/catalog.ts. `localeCompare` is the host's collation, a parameter.
use verify_agent.Prelude.{String, Bool, List, [], ◌∷◌, Option, ◌==◌, find}
use verify_agent.Prelude.Sorting.{sort_by}
use verify_agent.Domain.Types.{CheckDefinition, Determinism, deterministic, hybrid}

abbrev definition :
    String
    → String
    → String
    → String
    → Determinism
    → List String
    → List String
    → List String
    → CheckDefinition
definition id name category description determinism languages frameworks requirements = record {
  id = id;
  name = name;
  version = "1.0.0";
  category = category;
  description = description;
  determinism = determinism;
  supported_languages = languages;
  supported_frameworks = frameworks;
  requirements = requirements;
}

abbrev scripts : List String
scripts = "typescript" ∷ "javascript" ∷ []

abbrev all_languages : List String
all_languages = "typescript" ∷ "javascript" ∷ "rust" ∷ []

unfoldable pub initial_check_definitions : List CheckDefinition
initial_check_definitions =
    definition "typescript.typecheck" "TypeScript typecheck" "correctness"
      "Checks the statically configured TypeScript project." deterministic scripts []
      ("tsconfig.json" ∷ [])
    ∷ definition "typescript.lint" "TypeScript lint" "quality"
        "Applies the repository's statically detected lint tooling." deterministic scripts []
        ("eslint-signal" ∷ [])
    ∷ definition "typescript.test" "TypeScript tests" "correctness"
        "Runs the repository's statically detected JavaScript test framework." deterministic scripts
        [] ("test-framework-signal" ∷ [])
    ∷ definition "typescript.build" "TypeScript build" "correctness"
        "Builds the statically configured JavaScript/TypeScript project." deterministic scripts []
        ("build-signal" ∷ [])
    ∷ definition "rust.check" "Cargo check" "correctness" "Checks the Rust workspace or package."
        deterministic ("rust" ∷ []) [] ("Cargo.toml" ∷ [])
    ∷ definition "rust.test" "Cargo tests" "correctness" "Tests the Rust workspace or package."
        deterministic ("rust" ∷ []) [] ("Cargo.toml" ∷ [])
    ∷ definition "rust.clippy" "Clippy analysis" "quality"
        "Analyzes Rust code with Clippy when Rust is detected." deterministic ("rust" ∷ []) []
        ("Cargo.toml" ∷ [])
    ∷ definition "soroban.contract-test" "Soroban contract tests" "correctness"
        "Tests statically detected Soroban contract capabilities." deterministic ("rust" ∷ [])
        ("soroban" ∷ []) ("soroban-signal" ∷ [])
    ∷ definition "dependency.audit" "Dependency audit" "security"
        "Audits dependencies when a supported manifest or package manager is detected."
        deterministic all_languages [] []
    ∷ definition "security.analysis" "Security analysis" "security"
        "Performs a configured security analysis." hybrid all_languages [] []
    ∷ definition "license.analysis" "License analysis" "compliance"
        "Performs a configured license analysis." deterministic all_languages [] []
    ∷ []

module _ (locale_le : String → String → Bool) where
  -- `createCheckDefinitionRegistry(definitions).find(checkId)`
  unfoldable pub find_definition : List CheckDefinition → String → Option CheckDefinition
  unfolding sort_by
  find_definition definitions id =
      find (λ d. d.id == id) (sort_by (λ a b. locale_le a.id b.id) definitions)
