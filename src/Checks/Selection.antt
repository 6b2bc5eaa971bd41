-- ===== src/Checks/Selection.antt =====
-- packages/checks/src/selection.ts. Which planned checks a verification runs.
pub mod Laws
use verify_agent.Prelude.{
  String, Bool, true, false, ◌&&◌, List, [], ◌∷◌, map, filter, Option, none, some, ◌==◌,
}
use verify_agent.Domain.Types.{
  CheckPlanItem, Applicability, applicable, not_applicable, unsupported,
}

abbrev pub is_applicable : Applicability → Bool
is_applicable applicable = true
is_applicable not_applicable = false
is_applicable unsupported = false

unfoldable pub select_applicable_executable_checks :
    List CheckPlanItem → (String → Bool) → List String
select_applicable_executable_checks items has_executable_spec =
    map (λ i. i.check_id)
      (filter (λ i. is_applicable i.applicability && has_executable_spec i.check_id) items)

pub data VerificationCheckSelection : Type 0 where
  default all_applicable : VerificationCheckSelection

abbrev by_intent :
    List CheckPlanItem → (String → Bool) → Option VerificationCheckSelection → Option (List String)
unfolding select_applicable_executable_checks
by_intent items has_executable_spec (some all_applicable) =
    some (select_applicable_executable_checks items has_executable_spec)
by_intent items has_executable_spec (some default) = none
by_intent items has_executable_spec none = none

unfoldable pub resolve_check_selection :
    List CheckPlanItem
    → Option VerificationCheckSelection
    → Option (List String)
    → Option String
    → (String → Bool)
    → Option (List String)
unfolding by_intent
resolve_check_selection items selection (some ids) id has_executable_spec = some ids
resolve_check_selection items selection none (some id) has_executable_spec = some (id ∷ [])
resolve_check_selection items selection none none has_executable_spec =
    by_intent items has_executable_spec selection
