-- ===== src/Detection/Service.antt =====
-- packages/adapters-lang/src/service.ts: the profile of a project from what the detectors observed.
use verify_agent.Prelude.{
  ℕ, String, Bool, true, false, not, ◌&&◌, ◌||◌, List, [], ◌∷◌, ◌++◌, map, Option, some, Result, ok,
  ◌>>◌, if◌then◌else◌, ◌==◌, includes, flat_map, filter, some_of, length, ltb,
}
use verify_agent.Prelude.Text.{starts_with, contains}
use verify_agent.Prelude.Sorting.{unique_sorted}
use verify_agent.Errors.{Error}
use verify_agent.Json.{Json, str}
use verify_agent.Domain.Types.{ProjectProfile, RepositoryStructure}
use verify_agent.Domain.Validation.{validate_project_profile}
use verify_agent.Detection.{
  Confidence, high, medium, low, Value, text, flag, Observation, Context, package_names, data_field,
  object_only,
}
use verify_agent.Detection.Detectors.{when, package_data, detect_typescript, detect_rust}

-- `String(value)`
abbrev pub value_text : Value → String
value_text (text s) = s
value_text (flag true) = "true"
value_text (flag false) = "false"

abbrev is_text : String → Value → Bool
is_text s (text t) = t == s
is_text s (flag b) = false

abbrev text_starts_with : String → Value → Bool
unfolding starts_with
text_starts_with prefix (text t) = starts_with prefix t
text_starts_with prefix (flag b) = false

abbrev pub has_signal : String → Observation → Bool
has_signal signal o = o.signal == signal

-- `item.value === true ? "typescript" : item.value`
abbrev tool_of : Observation → String
tool_of o = name o.value
  where
    name : Value → String
    name (flag true) = "typescript"
    name (flag false) = "false"
    name (text s) = s

unfoldable pub tool_of_file : String → List String
unfolding starts_with
tool_of_file file =
    if starts_with "eslint" file || starts_with ".eslint" file
    then "eslint" ∷ []
    else if starts_with "prettier" file || file == ".prettierrc"
    then "prettier" ∷ []
    else if starts_with "vitest" file
    then "vitest" ∷ []
    else if starts_with "jest" file
    then "jest" ∷ []
    else if starts_with "vite" file
    then "vite" ∷ []
    else if starts_with "next" file
    then "next" ∷ []
    else []

-- `scores`, in hundredths
abbrev score : Confidence → ℕ
score high = 100
score medium = 65
score low = 30

-- `Math.max(...)`, and 0 of nothing
unfoldable pub best_score : List Observation → ℕ
best_score [] = 0
best_score (o ∷ os) =
    let rest = best_score os in if ltb rest (score o.confidence) then score o.confidence else rest

-- What the capabilities are computed from.
pub record Signals : Type 0 where
  pub languages : List String
  pub frameworks : List String
  pub detected_tools : List String
  pub has_tsconfig : Bool
  pub build_script : Option Json

abbrev pub is_string : Option Json → Bool
is_string (some (str s)) = true
is_string _ = false

unfoldable pub capabilities_of : Signals → List String
unfolding unique_sorted
capabilities_of s = unique_sorted (
    (if includes s.languages "typescript" || includes s.languages "javascript"
      then "dependency.audit" ∷ when s.has_tsconfig "typescript.typecheck"
        ++ when (includes s.detected_tools "eslint") "typescript.lint"
        ++ when (includes s.detected_tools "vitest" || includes s.detected_tools "jest")
            "typescript.test"
        ++ when (is_string s.build_script) "typescript.build"
      else [])
    ++ (if includes s.languages "rust" then "rust.check" ∷ "rust.test" ∷ "rust.clippy" ∷ [] else [])
    ++ when (includes s.frameworks "soroban") "soroban.contract-test")

unfoldable pub languages_of : List Observation → List String
unfolding unique_sorted
languages_of os = unique_sorted (
    map (λ o. value_text o.value)
      (filter (λ o. has_signal "typescript-signal" o || has_signal "javascript-signal" o) os)
    ++ when (some_of (has_signal "cargo-manifest-present") os) "rust")

unfoldable pub frameworks_of : List String → List Observation → List String
unfolding unique_sorted text_starts_with
frameworks_of names os = unique_sorted (
    when (some_of (λ o. is_text "next" o.value || text_starts_with "next.config" o.value) os)
      "nextjs"
    ++ when (includes names "react") "react"
    ++ when (some_of (has_signal "soroban-signal") os) "soroban")

unfoldable pub detected_tools_of : List Observation → List String
unfolding unique_sorted tool_of_file
detected_tools_of os = unique_sorted (
    map tool_of
      (filter (λ o. has_signal "package-tool-present" o || has_signal "tsconfig-present" o) os)
    ++ flat_map (λ o. tool_of_file (value_text o.value))
        (filter (has_signal "configuration-present") os)
    ++ when (some_of (has_signal "cargo-manifest-present") os) "cargo")

-- The fields of `scripts`, if it is an object.
abbrev pub build_script_of : Option Json → Option Json
build_script_of data_ = data_field "build" (object_only (data_field "scripts" data_))

module _ (parse_json : String → Option Json) (context : Context) where
  unfoldable pub observations : List Observation
  unfolding detect_typescript detect_rust
  observations = detect_typescript parse_json context ++ detect_rust context

  unfoldable pub names : List String
  unfolding package_names
  names = package_names (package_data parse_json context)

  unfoldable pub signals : Signals
  unfolding observations names languages_of frameworks_of detected_tools_of
  signals = record {
    languages = languages_of observations;
    frameworks = frameworks_of names observations;
    detected_tools = detected_tools_of observations;
    has_tsconfig = some_of (has_signal "tsconfig-present") observations;
    build_script = build_script_of (package_data parse_json context);
  }

  unfoldable pub package_managers : List String
  unfolding observations unique_sorted
  package_managers = unique_sorted (
      when (context.exists "pnpm-lock.yaml") "pnpm"
      ++ when (context.exists "package-lock.json") "npm"
      ++ when (context.exists "yarn.lock") "yarn"
      ++ when (some_of (has_signal "cargo-manifest-present") observations) "cargo")

  abbrev test_frameworks : List String
  unfolding observations names unique_sorted detected_tools_of
  test_frameworks =
      let tools = detected_tools_of observations in
      unique_sorted (
        when (includes names "vitest" || includes tools "vitest") "vitest"
        ++ when (includes names "jest" || includes tools "jest") "jest")

  abbrev build_systems : List String
  unfolding observations unique_sorted
  build_systems = unique_sorted (
      when (some_of (has_signal "cargo-manifest-present") observations) "cargo"
      ++ when (context.exists "vite.config.ts" || context.exists "vite.config.js") "vite")

  abbrev repository_structure : RepositoryStructure
  unfolding observations package_managers contains
  repository_structure = record {
    has_src = context.exists "src";
    has_tests = context.exists "tests" || context.exists "test";
    has_apps = context.exists "apps";
    has_packages = context.exists "packages";
    has_contracts = context.exists "contracts";
    is_monorepo =
        context.exists "apps"
        || context.exists "packages"
        || some_of
            (λ o.
              has_signal "cargo-workspace-present" o
              || (has_signal "cargo-manifest-present" o && some_of (contains "/") o.evidence))
            observations;
    package_manager_ambiguous = ltb 1 (length (filter (λ m. not (m == "cargo")) package_managers));
  }

  unfoldable pub profile_of : String → String → ProjectProfile
  unfolding observations signals package_managers test_frameworks build_systems repository_structure
      capabilities_of best_score
  profile_of project_id snapshot_id = record {
    project_id = project_id;
    snapshot_id = snapshot_id;
    languages = signals.languages;
    frameworks = signals.frameworks;
    package_managers = package_managers;
    build_systems = build_systems;
    test_frameworks = test_frameworks;
    detected_tools = signals.detected_tools;
    repository_structure = repository_structure;
    supported_capabilities = capabilities_of signals;
    detection_confidence = best_score observations;
  }

  -- `detect`, for the identifiers of the project and the snapshot
  unfoldable pub detect : String → String → Result Error (ProjectProfile × List Observation)
  unfolding profile_of observations validate_project_profile
  detect project_id snapshot_id = do
    let profile = profile_of project_id snapshot_id
    validate_project_profile profile
    ok (profile, observations)
