-- ===== src/Checks/Settings.antt =====
-- packages/checks/src/planner.ts: what the configuration of the planner says of a check.
use verify_agent.Prelude.{
  String, Bool, true, false, not, ◌&&◌, ◌||◌, List, [], ◌∷◌, Option, none, some, if◌then◌else◌,
  includes, is_some, or_else,
}
use verify_agent.JsMap.{JsMap, get}

pub record Override : Type 0 where
  pub required : Option Bool
  pub optional : Option Bool
  pub disabled : Option Bool
  pub reason : Option String

pub record Config : Type 0 where
  pub required_checks : Option (List String)
  pub optional_checks : Option (List String)
  pub disabled_checks : Option (List String)
  pub overrides : JsMap Override

unfoldable pub no_config : Config
no_config = record {
  required_checks = none;
  optional_checks = none;
  disabled_checks = none;
  overrides = [];
}

-- `config.requiredChecks?.some((checkId) => checkId === id) ?? false`
abbrev pub listed : Option (List String) → String → Bool
listed none id = false
listed (some ids) id = includes ids id

unfoldable pub has_config : Config → String → Bool
has_config config id =
    listed config.required_checks id
    || listed config.optional_checks id
    || listed config.disabled_checks id
    || is_some (get id config.overrides)

unfoldable pub required_by_default : List String
required_by_default =
    "typescript.typecheck" ∷ "typescript.lint" ∷ "typescript.test" ∷ "typescript.build"
    ∷ "rust.check" ∷ "rust.test" ∷ "rust.clippy" ∷ "soroban.contract-test" ∷ []

abbrev pub override_field {ℓ} : {A : Type ℓ} → (Override → Option A) → Option Override → Option A
override_field f none = none
override_field f (some o) = f o

unfoldable pub is_disabled : Config → String → Bool
is_disabled config id =
    listed config.disabled_checks id
    || or_else (override_field (λ o. o.disabled) (get id config.overrides)) false

-- Whether a check that is not disabled is required: an override, else a list, else the default.
unfoldable pub is_required : Config → String → Bool → Bool
unfolding required_by_default
is_required config id is_applicable =
    let override = get id config.overrides in
    elim (override_field (λ o. o.required) override) [
      | some required ↦ required
      | none ↦ elim (override_field (λ o. o.optional) override) [
        | some optional ↦ not optional
        | none ↦
            if listed config.required_checks id
            then true
            else (if listed config.optional_checks id
                then false
                else is_applicable && includes required_by_default id)
      ]
    ]
