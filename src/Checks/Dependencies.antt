-- ===== src/Checks/Dependencies.antt =====
-- packages/checks/src/planner.ts: the dependencies of a check and their order in a plan.
use Prim.Native.String.{◌++◌ as concat}
use verify_agent.Prelude.{
  ℕ, suc, String, Bool, false, List, [], ◌∷◌, Option, none, some, Result, ok, ◌>>◌, ensure, ◌==◌,
  if◌then◌else◌, ltb, or_option,
}
use verify_agent.Errors.{Error, plain}
use verify_agent.Domain.Types.{CheckPlanItem}

unfoldable pub dependencies_for : String → List String
dependencies_for id =
    if id == "typescript.build"
    then "typescript.typecheck" ∷ []
    else (if id == "soroban.contract-test" then "rust.test" ∷ [] else [])

-- The index of the last item with this identifier: `new Map(items.map(...)).get(id)`.
unfoldable pub last_position : String → ℕ → List CheckPlanItem → Option ℕ
last_position id index [] = none
last_position id index (item ∷ items) =
    or_option (last_position id (suc index) items)
      (if item.check_id == id then some index else none)

abbrev pub is_before : Option ℕ → ℕ → Bool
is_before none index = false
is_before (some i) index = ltb i index

unfoldable pub dependencies_before :
    List CheckPlanItem → ℕ → String → List String → Result Error (Unit {0})
dependencies_before items index id [] = ok tt
dependencies_before items index id (d ∷ ds) = do
  ensure (is_before (last_position d 0 items) index)
      (plain (concat "Plan dependency must appear earlier: " (concat d (concat " -> " id))))
  dependencies_before items index id ds

unfoldable pub validate_from : List CheckPlanItem → ℕ → List CheckPlanItem → Result Error (Unit {0})
unfolding dependencies_before last_position
validate_from items index [] = ok tt
validate_from items index (item ∷ rest) = do
  dependencies_before items index item.check_id item.dependencies
  validate_from items (suc index) rest

unfoldable pub validate_plan_dependencies : List CheckPlanItem → Result Error (Unit {0})
unfolding validate_from
validate_plan_dependencies items = validate_from items 0 items
