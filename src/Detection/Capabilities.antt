-- ===== src/Detection/Capabilities.antt =====
-- What packages/adapters-lang/src/service.ts says that a project supports, by the files of the project.
use verify_agent.Prelude.{
  String, Bool, true, false, ◌&&◌, ◌||◌, List, [], ◌∷◌, Option, ok, throw, ◌≡◌, refl, ap, ◌∙◌, inl,
  inr, includes, arith, ◌==◌, returns, ok-injective,
}
use verify_agent.Prelude.Sorting.{includes-unique_sorted}
use verify_agent.Errors.{Error}
use verify_agent.Json.{Json}
use verify_agent.Domain.Types.{ProjectProfile}
use mathlib.Core.Path.{subst}
use verify_agent.Domain.Validation.{validate_project_profile}
use verify_agent.Checks.Catalog.{initial_check_definitions}
use verify_agent.Checks.Planner.{plan}
use verify_agent.Checks.Settings.{no_config}
use verify_agent.Checks.Planner.Failure.{plan-throws}
use verify_agent.Detection.{Observation, Context}
use verify_agent.Detection.Detectors.{package_data}
use verify_agent.Detection.Service.{
  signals, capabilities_of, profile_of, detect, build_script_of, is_string,
}
use verify_agent.Detection.Javascript.{
  has_javascript, tsconfig-observations, languages-has_javascript,
}
use verify_agent.Detection.Conditions.{checks, includes-javascript_checks, includes-checks}

module _ (parse_json : String → Option Json) (context : Context) where
  -- `scripts.build` of `package.json` is a string.
  abbrev pub has_build_script : Bool
  has_build_script = is_string (build_script_of (package_data parse_json context))

  -- The capabilities of the signals, as those of seven conditions.
  includes-capabilities_of :
      (k : String)
      → includes ("rust.check" ∷ "rust.test" ∷ "rust.clippy" ∷ []) k ≡ false
      → ("soroban.contract-test" == k) ≡ false
      → ("dependency.audit" == k) ≡ false
      → ("typescript.lint" == k) ≡ false
      → ("typescript.test" == k) ≡ false
      → includes (capabilities_of (signals parse_json context)) k ≡ (
          has_javascript parse_json context
          && ((context.exists "tsconfig.json" && "typescript.typecheck" == k)
              || (has_build_script && "typescript.build" == k)))
  unfolding capabilities_of signals
  includes-capabilities_of k no_rust no_soroban no_audit no_lint no_tests =
      let s = signals parse_json context in
      let js = includes s.languages "typescript" || includes s.languages "javascript" in
      let lint = includes s.detected_tools "eslint" in
      let tests = includes s.detected_tools "vitest" || includes s.detected_tools "jest" in
      let build = is_string s.build_script in
      let rust = includes s.languages "rust" in
      let soroban = includes s.frameworks "soroban" in
      ground (
        arith,
        includes-unique_sorted k (checks js s.has_tsconfig lint tests build rust soroban),
        includes-checks js s.has_tsconfig lint tests build rust soroban k no_rust no_soroban,
        includes-javascript_checks js s.has_tsconfig lint tests build rust soroban k no_audit
            no_lint no_tests,
        languages-has_javascript parse_json context,
        tsconfig-observations parse_json context,
      )

  abbrev pub IsCapable : ProjectProfile → Type 0
  IsCapable profile =
      (includes profile.supported_capabilities "typescript.typecheck"
        ≡ context.exists "tsconfig.json")
      × (includes profile.supported_capabilities "typescript.build"
          ≡ (has_javascript parse_json context && has_build_script))

  profile_of-IsCapable :
      (project_id snapshot_id : String)
      → IsCapable (profile_of parse_json context project_id snapshot_id)
  unfolding profile_of
  profile_of-IsCapable project_id snapshot_id = (
    ground (arith, includes-capabilities_of "typescript.typecheck" refl refl refl refl refl),
    ground (arith, includes-capabilities_of "typescript.build" refl refl refl refl refl),
  )

  -- A detected project supports the type check exactly when it has a `tsconfig.json`, and the build
  -- exactly when it has JavaScript by its files and a build script in `package.json`.
  detect-IsCapable :
      (project_id snapshot_id : String) (profile : ProjectProfile) (os : List Observation)
      → detect parse_json context project_id snapshot_id ≡ ok (profile, os)
      → IsCapable profile
  unfolding detect
  detect-IsCapable project_id snapshot_id profile os h =
      returns (validate_project_profile (profile_of parse_json context project_id snapshot_id)) _ h
        λ _ _ k.
          subst IsCapable (ap (λ d. d.0) (ok-injective k))
            (profile_of-IsCapable project_id snapshot_id)

  -- A project with `package.json` and a build script but no `tsconfig.json` is detected, and its
  -- verification is not planned: planning the initial checks without configuration throws.
  pub detect-plan_throws :
      (sha256 : Json → String) (locale_le : String → String → Bool)
      (project_id snapshot_id : String) (profile : ProjectProfile) (os : List Observation)
      → detect parse_json context project_id snapshot_id ≡ ok (profile, os)
      → context.exists "package.json" ≡ true
      → context.exists "tsconfig.json" ≡ false
      → has_build_script ≡ true
      → (e : Error) × (plan sha256 locale_le initial_check_definitions profile no_config ≡ throw e)
  unfolding initial_check_definitions
  detect-plan_throws sha256 locale_le project_id snapshot_id profile os h has_package no_types
        build =
      let (types, builds) = detect-IsCapable project_id snapshot_id profile os h in
      plan-throws sha256 locale_le initial_check_definitions profile _ (inr (inr (inr (inl refl))))
        refl (ground arith) (types ∙ no_types)
