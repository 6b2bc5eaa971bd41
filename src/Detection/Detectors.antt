-- ===== src/Detection/Detectors.antt =====
-- packages/adapters-lang/src/detectors.ts: the two default detectors.
use Prim.Native.Char.{code}
use Prim.Native.String.{slice, ◌++◌ as concat}
use verify_agent.Prelude.{
  ℕ, ◌-◌, String, Bool, true, false, not, ◌&&◌, ◌||◌, List, [], ◌∷◌, ◌++◌, Option, none, some,
  if◌then◌else◌, includes, is_some, flat_map, length, nat_eq, or_else,
}
use verify_agent.Prelude.Text.{codes, trim_start, after_prefix, lower, contains}
use verify_agent.Json.{Json}
use verify_agent.Detection.{
  high, medium, low, text, flag, Observation, observe, Context, find_files, package_names,
  object_only,
}

abbrev pub when {ℓ} : {A : Type ℓ} → Bool → A → List A
when true a = a ∷ []
when false a = []

abbrev pub package_file : List String
package_file = "package.json" ∷ []

abbrev pub configuration_files : List String
configuration_files =
    "next.config.js" ∷ "next.config.mjs" ∷ "next.config.ts" ∷ "vite.config.js" ∷ "vite.config.ts"
    ∷ "vitest.config.ts" ∷ "jest.config.js" ∷ "eslint.config.js" ∷ ".eslintrc.json" ∷ ".prettierrc"
    ∷ "prettier.config.js" ∷ []

abbrev pub package_tools : List String
package_tools = "next" ∷ "react" ∷ "vite" ∷ "vitest" ∷ "jest" ∷ "eslint" ∷ "prettier" ∷ []

-- What `JSON.parse` makes of `package.json`: nothing where it throws.
abbrev pub parsed : (String → Option Json) → Option String → Option Json
parsed parse_json none = none
parsed parse_json (some raw) = object_only (parse_json raw)

abbrev is_line_end : ℕ → Bool
is_line_end c = nat_eq c 10 || nat_eq c 13 || nat_eq c 0x2028 || nat_eq c 0x2029

-- `/^\s*\[workspace\]/m`, on what stands at the start of a line, then on the rest
unfoldable pub has_workspace_from : Bool → String → Bool
unfolding trim_start after_prefix
has_workspace_from at_start String.[] = false
has_workspace_from at_start (String.◌∷◌ c s) =
    (at_start && is_some (after_prefix "[workspace]" (trim_start (String.◌∷◌ c s))))
    || has_workspace_from (is_line_end (code c)) s

-- `/soroban-sdk|stellar-sdk|stellar_sdk|soroban-cli/i`
unfoldable pub names_soroban : String → Bool
unfolding contains lower
names_soroban manifest =
    let small = lower manifest in
    contains "soroban-sdk" small
    || contains "stellar-sdk" small
    || contains "stellar_sdk" small
    || contains "soroban-cli" small

-- The file `soroban.toml` beside a manifest, whose path ends in "Cargo.toml".
abbrev pub soroban_file : String → String
soroban_file path = concat (slice path 0 (length (codes path) - 10)) "soroban.toml"

module _ (parse_json : String → Option Json) (context : Context) where
  abbrev pub package_data : Option Json
  package_data = parsed parse_json (context.read_file "package.json")

  abbrev pub is_malformed : Bool
  is_malformed = is_some (context.read_file "package.json") && not (is_some package_data)

  unfoldable pub language_observation : List Observation
  unfolding package_names
  language_observation =
      if includes (package_names package_data) "typescript" || context.exists "tsconfig.json"
      then observe "typescript" "typescript-signal" (text "typescript")
          ("package.json" ∷ when (context.exists "tsconfig.json") "tsconfig.json") high
        ∷ []
      else when (context.exists "package.json")
          (observe "javascript" "javascript-signal" (text "javascript") package_file medium)

  -- `typescriptDetector.detect`
  unfoldable pub detect_typescript : List Observation
  unfolding language_observation find_files package_names
  detect_typescript =
      when (context.exists "tsconfig.json")
        (observe "typescript" "tsconfig-present" (flag true) ("tsconfig.json" ∷ []) high)
      ++ when (context.exists "jsconfig.json")
          (observe "javascript" "jsconfig-present" (flag true) ("jsconfig.json" ∷ []) high)
      ++ when (context.exists "package.json")
          (observe "javascript" "package-json-present" (flag true) package_file medium)
      ++ when is_malformed
          (observe "javascript" "package-json-malformed" (flag true) package_file low)
      ++ language_observation
      ++ flat_map
          (λ file. observe "typescript" "configuration-present" (text file) (file ∷ []) medium ∷ [])
          (find_files context configuration_files)
      ++ flat_map
          (λ name.
            when (includes (package_names package_data) name)
              (observe "typescript" "package-tool-present" (text name) package_file high))
          package_tools

module _ (context : Context) where
  unfoldable pub manifest_observations : String → List Observation
  unfolding has_workspace_from names_soroban
  manifest_observations path =
      let manifest = or_else (context.read_file path) "" in
      observe "rust" "cargo-manifest-present" (text path) (path ∷ []) high
        ∷ when (has_workspace_from true manifest)
            (observe "rust" "cargo-workspace-present" (flag true) (path ∷ []) high)
      ++ when (names_soroban manifest || context.exists (soroban_file path))
          (observe "rust" "soroban-signal" (text "soroban") (path ∷ []) high)

  -- `rustDetector.detect`
  unfoldable pub detect_rust : List Observation
  unfolding manifest_observations find_files
  detect_rust =
      flat_map manifest_observations (find_files context ("Cargo.toml" ∷ []))
      ++ flat_map (λ path. observe "rust" "cargo-lock-present" (flag true) (path ∷ []) medium ∷ [])
          (find_files context ("Cargo.lock" ∷ []))
