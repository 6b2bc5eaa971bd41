-- ===== src/Tests/Detection.antt =====
-- Runs of packages/adapters-lang.
use verify_agent.Prelude.{
  String, Bool, true, false, not, List, [], ◌∷◌, Option, none, some, Result, ok, throw, ◌>>=◌, ◌≡◌,
  refl, ◌↔◌, In, inl, inr, includes, is_some, is_empty, if◌then◌else◌, ◌==◌,
}
use verify_agent.Json.{Json, str, object}
use verify_agent.Errors.{Error}
use verify_agent.Domain.Types.{ProjectProfile}
use verify_agent.Checks.Catalog.{initial_check_definitions}
use verify_agent.Checks.Planner.{plan}
use verify_agent.Checks.Settings.{no_config}
use verify_agent.Detection.{Context, Observation, find_files}
use verify_agent.Detection.Service.{detect, profile_of, observations}
use verify_agent.Detection.Files.{IsBelow, find_files-IsBelow}
use verify_agent.Detection.Capabilities.{detect-plan_throws}
use verify_agent.Tests.Samples.{collate, sha256_json}

-- A JavaScript project with a build script, an ESLint configuration and a Rust contract.
abbrev files : String → Option String
files path =
    if path == "package.json"
    then some "{}"
    else if path == "eslint.config.js"
    then some ""
    else if path == "contracts/Cargo.toml"
    then some "[workspace]"
    else none

abbrev entries : String → List String
entries directory =
    if directory == ""
    then "contracts" ∷ "eslint.config.js" ∷ "node_modules" ∷ "package.json" ∷ []
    else if directory == "contracts"
    then "Cargo.toml" ∷ []
    else []

abbrev project : Context
project = record {
  exists = λ path. is_some (files path);
  read_file = files;
  list_directory = entries;
}

abbrev parse_json : String → Option Json
parse_json raw = some (object (("scripts", object (("build", str "rollup") ∷ [])) ∷ []))

abbrev found : Result Error (ProjectProfile × List Observation)
unfolding detect
found = detect parse_json project "project-1" "snapshot-1"

capabilities : (profile_of parse_json project "project-1" "snapshot-1").supported_capabilities ≡ (
    "dependency.audit" ∷ "rust.check" ∷ "rust.clippy" ∷ "rust.test" ∷ "typescript.build"
    ∷ "typescript.lint" ∷ [])
unfolding found
capabilities = refl

find_files-IsBelow_example :
    In "contracts/Cargo.toml" (find_files project ("Cargo.toml" ∷ []))
    ↔ IsBelow project ("Cargo.toml" ∷ []) 8 "" "contracts/Cargo.toml"
find_files-IsBelow_example = find_files-IsBelow project ("Cargo.toml" ∷ []) "contracts/Cargo.toml"

detected :
    found
    ≡ ok (profile_of parse_json project "project-1" "snapshot-1", observations parse_json project)
unfolding found verify_agent.Prelude.Text.is_blank verify_agent.Prelude.Text.is_identifier
detected = refl

detect-plan_throws_example :
    (e : Error) × (plan sha256_json collate initial_check_definitions
        (profile_of parse_json project "project-1" "snapshot-1")
        no_config
      ≡ throw e)
unfolding detect found
detect-plan_throws_example =
    detect-plan_throws parse_json project sha256_json collate "project-1" "snapshot-1"
      (profile_of parse_json project "project-1" "snapshot-1") (observations parse_json project)
      detected refl refl refl
