-- ===== src/Engine/Pipeline/Requested.antt =====
-- Which checks the input of packages/engine/src/pipeline.ts asks for.
use verify_agent.Prelude.{String, Bool, true, List, [], ◌∷◌, Option, none, some, ◌≡◌, refl, In, ◌↔◌}
use verify_agent.Domain.Types.{CheckPlanItem, applicable}
use verify_agent.Checks.Selection.{
  VerificationCheckSelection, default, all_applicable, resolve_check_selection,
}
use verify_agent.Checks.Selection.Laws.{select_applicable_executable_checks-In_iff}
use verify_agent.Engine.Preparation.{PipelineInput, default_selection}

module _ (has_spec : String → Bool) (items : List CheckPlanItem) where
  -- The planned checks that are applicable and have a trusted specification, and no other.
  abbrev IsAll : List String → Type 0
  IsAll selected =
      (id : String)
      → In id selected ↔ (
          (i : CheckPlanItem) × In i items
          × (i.check_id ≡ id)
          × (i.applicability ≡ applicable)
          × (has_spec id ≡ true))

  abbrev pub IsByIntent : Option VerificationCheckSelection → List String → Type 0
  IsByIntent (some all_applicable) selected = IsAll selected
  IsByIntent (some default) selected = selected ≡ "typescript.typecheck" ∷ []
  IsByIntent none selected = selected ≡ "typescript.typecheck" ∷ []

  -- A list in the input comes before a single check there, and that before the intent.
  abbrev pub IsRequest :
      Option (List String)
      → Option String
      → Option VerificationCheckSelection
      → List String
      → Type 0
  IsRequest (some ids) id selection selected = selected ≡ ids
  IsRequest none (some id) selection selected = selected ≡ id ∷ []
  IsRequest none none selection selected = IsByIntent selection selected

  default_selection-IsRequest :
      (ids : Option (List String)) (id : Option String)
      (selection : Option VerificationCheckSelection)
      → IsRequest ids id selection
          (default_selection (resolve_check_selection items selection ids id has_spec) id)
  unfolding resolve_check_selection
  default_selection-IsRequest (some ids) id selection = refl
  default_selection-IsRequest none (some id) selection = refl
  default_selection-IsRequest none none (some all_applicable) =
      λ id. select_applicable_executable_checks-In_iff items has_spec id
  default_selection-IsRequest none none (some default) = refl
  default_selection-IsRequest none none none = refl

  -- The selection is the one that the input asks for.
  abbrev pub IsRequested : PipelineInput → List String → Type 0
  IsRequested input selected =
      IsRequest input.selected_check_ids input.selected_check_id input.selection selected

  pub requested :
      (input : PipelineInput)
      → IsRequested input (
          default_selection
            (resolve_check_selection items input.selection input.selected_check_ids
              input.selected_check_id has_spec)
            input.selected_check_id)
  requested input =
      default_selection-IsRequest input.selected_check_ids input.selected_check_id input.selection
