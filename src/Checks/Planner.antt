-- ===== src/Checks/Planner.antt =====
-- packages/checks/src/planner.ts. Which checks are planned for a project, whether each is required,
-- and the order; `sha256` and `localeCompare` are parameters.
pub mod Order
pub mod Items
pub mod Failure
use Prim.Native.String.{◌++◌ as concat, slice}
use verify_agent.Prelude.{
  ℕ, suc, ◌+◌, String, Bool, true, false, not, ◌&&◌, ◌||◌, List, [], ◌∷◌, ◌++◌, map, Option, none,
  some, Result, ok, throw, ◌>>=◌, ◌>>◌, ensure, reject_if, ◌==◌, if◌then◌else◌, ltb, nat_eq,
  includes, is_some, or_else, or_option,
}
use verify_agent.Prelude.Sorting.{sort_by}
use verify_agent.JsMap.{JsMap, get}
use verify_agent.Json.{Json, Number, nat, num, bool, str, strings, object, array}
use verify_agent.Errors.{Error, plain}
use verify_agent.Domain.Types.{
  CheckDefinition, CheckPlan, CheckPlanItem, Applicability, applicable, not_applicable, unsupported,
  ProjectProfile,
}
use verify_agent.Policy.{brand_id}
use verify_agent.Checks.Settings.{
  Config, listed, has_config, override_field, is_disabled, is_required,
}
use verify_agent.Checks.Dependencies.{dependencies_for, validate_plan_dependencies}

unfoldable pub priority_of : String → ℕ
priority_of id = or_else (get id priorities) 100
  where
    priorities : JsMap ℕ
    priorities =
        ("typescript.typecheck", 10)
        ∷ ("rust.check", 10)
        ∷ ("typescript.lint", 20)
        ∷ ("rust.clippy", 20)
        ∷ ("typescript.test", 30)
        ∷ ("rust.test", 30)
        ∷ ("typescript.build", 40)
        ∷ ("dependency.audit", 50)
        ∷ ("security.analysis", 60)
        ∷ ("license.analysis", 70)
        ∷ ("soroban.contract-test", 80)
        ∷ []

abbrev join_comma : List String → String
join_comma [] = ""
join_comma (s ∷ []) = s
join_comma (s ∷ t ∷ rest) = concat s (concat ", " (join_comma (t ∷ rest)))

unfoldable pub reason_for : CheckDefinition → ProjectProfile → String
reason_for definition profile = or_else (get definition.id reasons) other
  where
    other : String
    other = concat definition.name " was requested by planner configuration."

    reasons : JsMap String
    reasons =
        (
          "typescript.typecheck",
          "TypeScript configuration detected; typecheck capability is applicable.",
        )
        ∷ ("typescript.lint", "ESLint detected in static project metadata.")
        ∷ ("typescript.test", "A supported JavaScript test framework was detected.")
        ∷ ("typescript.build", "A static JavaScript/TypeScript build signal was detected.")
        ∷ ("rust.check", "Rust Cargo manifest detected.")
        ∷ (
          "rust.test",
          "Rust detected; Rust tests remain applicable unless later configuration changes this.",
        )
        ∷ ("rust.clippy", "Rust detected; Clippy is an applicable default Rust analysis.")
        ∷ ("soroban.contract-test", "Soroban-related metadata detected in the Rust project.")
        ∷ (
          "dependency.audit",
          concat "A supported dependency manager or manifest was detected: "
              (concat (join_comma profile.package_managers) "."),
        )
        ∷ []

abbrev status_of : Bool → Bool → Applicability
status_of true is_applicable = not_applicable
status_of false true = applicable
status_of false false = unsupported

-- The body of the loop: nothing where it says `continue`.
unfoldable pub plan_item :
    ProjectProfile → Config → CheckDefinition → Result Error (Option CheckPlanItem)
plan_item profile config definition =
    let id = definition.id in
    let override = get id config.overrides in
    let disabled = is_disabled config id in
    let is_applicable = includes profile.supported_capabilities id in
    if not is_applicable && not (has_config config id) then ok none else (do
      reject_if
          (not disabled
            && is_some (override_field (λ o. o.required) override)
            && is_some (override_field (λ o. o.optional) override))
          (plain (concat "Planner override cannot be both required and optional: " id))
      reject_if
          (not disabled && listed config.required_checks id && listed config.optional_checks id)
          (plain (concat "Planner configuration cannot list both required and optional: " id))
      ok (
          some (record {
            check_id = id;
            check_version = definition.version;
            applicability = status_of disabled is_applicable;
            required = not disabled && is_required config id is_applicable;
            reason = or_else (override_field (λ o. o.reason) override) (
                if disabled
                then "Disabled by planner configuration."
                else (if is_applicable
                    then reason_for definition profile
                    else "Requested by configuration but no applicable capability was detected."));
            priority = priority_of id;
            dependencies = if disabled then [] else dependencies_for id;
          })))

abbrev cons_option {ℓ} : {A : Type ℓ} → Option A → List A → List A
cons_option none xs = xs
cons_option (some x) xs = x ∷ xs

unfoldable pub plan_items :
    ProjectProfile → Config → List CheckDefinition → Result Error (List CheckPlanItem)
unfolding plan_item
plan_items profile config [] = ok []
plan_items profile config (definition ∷ definitions) = do
  item ← plan_item profile config definition
  items ← plan_items profile config definitions
  ok (cons_option item items)

abbrev applicability_text : Applicability → String
applicability_text applicable = "applicable"
applicability_text not_applicable = "not_applicable"
applicability_text unsupported = "unsupported"

abbrev pub item_json : CheckPlanItem → Json
item_json item = object (
    ("checkId", str item.check_id)
    ∷ ("checkVersion", str item.check_version)
    ∷ ("applicability", str (applicability_text item.applicability))
    ∷ ("required", bool item.required)
    ∷ ("reason", str item.reason)
    ∷ ("priority", num (nat item.priority))
    ∷ ("dependencies", strings item.dependencies)
    ∷ ("scope", str "repository")
    ∷ [])

module _ (sha256 : Json → String) (locale_le : String → String → Bool) where
  -- `a.priority - b.priority || a.checkId.localeCompare(b.checkId)`, as "not after"
  unfoldable pub not_after : CheckPlanItem → CheckPlanItem → Bool
  not_after a b =
      ltb a.priority b.priority || (nat_eq a.priority b.priority && locale_le a.check_id b.check_id)

  plan_content : ProjectProfile → List CheckPlanItem → Json
  plan_content profile items = object (
      ("plannerVersion", str "1.0.0")
      ∷ ("projectId", str profile.project_id)
      ∷ ("snapshotId", str profile.snapshot_id)
      ∷ ("items", array (map item_json items))
      ∷ [])

  unfoldable pub plan : List CheckDefinition → ProjectProfile → Config → Result Error CheckPlan
  unfolding plan_items not_after sort_by validate_plan_dependencies plan_content
  plan definitions profile config = do
    unsorted ← plan_items profile config definitions
    let items = sort_by not_after unsorted
    validate_plan_dependencies items
    let digest = sha256 (plan_content profile items)
    plan_id ← brand_id (concat "plan-" (slice digest 0 24))
    ok (record {
      plan_id = plan_id;
      planner_version = "1.0.0";
      project_id = profile.project_id;
      snapshot_id = profile.snapshot_id;
      items = items;
      created_at = "1970-01-01T00:00:00.000Z";
      content_hash = digest;
    })
