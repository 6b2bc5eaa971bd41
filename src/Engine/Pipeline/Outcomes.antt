-- ===== src/Engine/Pipeline/Outcomes.antt =====
-- Which checks the pipeline executes.
use mathlib.Core.Path.{subst}
use verify_agent.Prelude.{
  ensure_holds, reject_if_fails, ℕ, suc, String, Bool, true, false, not, ◌&&◌, List, [], ◌∷◌,
  Option, some, Result, ok, throw, ◌≡◌, refl, ap, ◌∙◌, arith, returns, ok-injective, In, length,
  filter, includes, In-filter, some_of, is_empty, ensure, reject_if, nat_eq, traverse, find-In,
  NoDup, eq_iff, ◌==◌, is_some,
}
use verify_agent.Prelude.Sorting.{uniq, sort_by, NoDup-of_uniq}
use verify_agent.Json.{Json}
use verify_agent.Errors.{Error}
use verify_agent.Domain.Types.{CheckDefinition, CheckPlanItem, Applicability, applicable}
use verify_agent.Checks.Catalog.{initial_check_definitions, find_definition}
use verify_agent.Checks.Planner.{plan}
use verify_agent.Checks.Selection.{is_applicable, resolve_check_selection}
use verify_agent.Checks.Specs.{find_spec}
use verify_agent.Engine.Interfaces.{
  CheckExecutionRequest, CheckExecutionOutcome, ExecutionEnvironment,
}
use verify_agent.Engine.Preparation.{
  PipelineInput, PipelineOutput, select_items, or_throw, require_definition,
  create_initial_execution, default_selection,
}
use verify_agent.Engine.Pipeline.Requested.{IsRequested, requested}
use verify_agent.Engine.Pipeline.{
  Dependencies, execute_items, execute_item, with_definition, verify, make_request,
  provision_dependencies, prepare_artifacts,
}

-- The items of a selection without repetitions: those of the plan that are selected, in its order,
-- applicable, and as many as were selected.
pub record IsSelection (items : List CheckPlanItem) (selected : List String)
    (chosen : List CheckPlanItem) : Type 0 where
  pub sound :
      (i : CheckPlanItem)
      → In i chosen
      → In i items × (includes selected i.check_id ≡ true) × (i.applicability ≡ applicable)
  pub ordered : chosen ≡ filter (λ i. includes selected i.check_id) items
  pub once : NoDup selected
  pub count : length chosen ≡ length selected
  pub some_chosen : is_empty chosen ≡ false

is_applicable-eq : (a : Applicability) → not (is_applicable a) ≡ false → a ≡ applicable
is_applicable-eq a h = ground arith

not-some_of :
    (i : CheckPlanItem) (xs : List CheckPlanItem)
    → some_of (λ (x : CheckPlanItem). not (is_applicable x.applicability)) xs ≡ false
    → In i xs
    → not (is_applicable i.applicability) ≡ false
not-some_of i [] h m = absurd m
not-some_of i (x ∷ xs) h m = ground (arith, not-some_of i xs)

pub select_items-IsSelection :
    (items : List CheckPlanItem) (selected : List String) (chosen : List CheckPlanItem)
    → select_items items selected ≡ ok chosen
    → IsSelection items selected chosen
unfolding select_items
select_items-IsSelection items selected chosen h =
    let test : CheckPlanItem → Bool = λ i. includes selected i.check_id in
    let found = filter test items in
    returns (reject_if (is_empty selected) _) _ h λ u1 e1 h1.
      returns (ensure (nat_eq (length (uniq selected)) (length selected)) _) _ h1 λ u2 e2 h2.
        returns
          (ensure
            (nat_eq (length found) (length selected)
              && not (some_of (λ i. not (is_applicable i.applicability)) found))
            _)
          _ h2
          λ u3 e3 h3.
            let both = ensure_holds _ _ u3 e3 in
            let counted : length found ≡ length selected = ground arith in
            let none_out : some_of (λ i. not (is_applicable i.applicability)) found ≡ false =
              ground arith in
            let non_empty = reject_if_fails (is_empty selected) _ u1 e1 in
            subst (IsSelection items selected) (ok-injective h3) (record {
              sound = λ i m.
                  let (n, t) = In-filter test i items m in
                  (n, t, is_applicable-eq i.applicability (not-some_of i found none_out m));
              ordered = refl;
              once = NoDup-of_uniq selected (let unique = ensure_holds _ _ u2 e2 in ground arith);
              count = counted;
              some_chosen = ground (arith, counted, non_empty);
            })

or_throw-eq-ok {ℓ} :
    {A : Type ℓ} (e : Error) (r : Result Error A) (a : A) → or_throw e r ≡ ok a → r ≡ ok a
or_throw-eq-ok e (ok b) a h = h
or_throw-eq-ok e (throw c) a h = absurd (ground arith)

module _ (sha256 : Json → String) (locale_le : String → String → Bool) (deps : Dependencies) where
  -- One outcome for each item, in order: what the executor returned for a request on that item, with
  -- the definition of its check.
  abbrev pub Executed : List CheckPlanItem → List CheckExecutionOutcome → Type 0
  Executed [] [] = Unit
  Executed [] (o ∷ os) = ⊥
  Executed (i ∷ is) [] = ⊥
  Executed (i ∷ is) (o ∷ os) =
      ((request : CheckExecutionRequest) × (request.plan_item ≡ i)
        × (request.definition.id ≡ i.check_id)
        × (deps.execute request ≡ ok o))
      × Executed is os

  with_definition-id :
      (item : CheckPlanItem) (pair : CheckPlanItem × CheckDefinition)
      → with_definition sha256 locale_le deps item ≡ ok pair
      → (pair.0 ≡ item) × (pair.1.id ≡ item.check_id)
  unfolding with_definition find_definition
  with_definition-id item pair h =
      returns
        (require_definition (find_definition locale_le initial_check_definitions item.check_id)
          item.check_id)
        _ h
        λ d e h1.
          let (_, t) =
            find-In (λ x. x.id == item.check_id) d
              (sort_by (λ a b. locale_le a.id b.id) initial_check_definitions)
              (found _ item.check_id d e) in
          subst (λ q. (q.0 ≡ item) × (q.1.id ≡ item.check_id)) (ok-injective h1)
            (refl, (eq_iff d.id item.check_id).0 t)
    where
      found :
          (o : Option CheckDefinition) (id : String) (d : CheckDefinition)
          → require_definition o id ≡ ok d
          → o ≡ some d
      found o id d h = ground arith

  execute_item-request :
      (input : PipelineInput) (environment : Option ExecutionEnvironment) (n : ℕ)
      (item : CheckPlanItem) (d : CheckDefinition) (o : CheckExecutionOutcome)
      → execute_item sha256 locale_le deps input environment n item d ≡ ok o
      → (request : CheckExecutionRequest) × (request.plan_item ≡ item)
        × (request.definition ≡ d)
        × (deps.execute request ≡ ok o)
  unfolding execute_item make_request
  execute_item-request input environment n item d o h =
      returns (create_initial_execution sha256 input item environment n) _ h λ execution _ h1.
        (make_request sha256 locale_le deps input environment n item d execution, refl, refl, h1)

  execute_items-Executed :
      (items : List CheckPlanItem) (input : PipelineInput)
      (environment : Option ExecutionEnvironment) (n : ℕ)
      (pairs : List (CheckPlanItem × CheckDefinition)) (outcomes : List CheckExecutionOutcome)
      → traverse (with_definition sha256 locale_le deps) items ≡ ok pairs
      → execute_items sha256 locale_le deps input environment n pairs ≡ ok outcomes
      → Executed items outcomes
  unfolding execute_items
  execute_items-Executed [] input environment n pairs outcomes h k =
      let e : ◌≡◌ {A = Result Error (List CheckExecutionOutcome)} (ok []) (ok outcomes) =
        ap (execute_items sha256 locale_le deps input environment n) (ok-injective h) ∙ k in
      subst (Executed []) (ok-injective e) tt
  execute_items-Executed (item ∷ items) input environment n pairs outcomes h k =
      returns (with_definition sha256 locale_le deps item) _ h λ pair e1 h1.
        returns (traverse (with_definition sha256 locale_le deps) items) _ h1 λ rest e2 h2.
          let k1 =
            ap (execute_items sha256 locale_le deps input environment n) (ok-injective h2) ∙ k in
          returns
            (or_throw _ (execute_item sha256 locale_le deps input environment n pair.0 pair.1)) _ k1
            λ o e3 h3.
              returns (execute_items sha256 locale_le deps input environment (suc n) rest) _ h3
                λ os e4 h4.
                  let (same, named) = with_definition-id item pair e1 in
                  let (request, planned, defined, executed) =
                    execute_item-request input environment n pair.0 pair.1 o
                      (or_throw-eq-ok _ _ o e3) in
                  subst (Executed (item ∷ items)) (ok-injective h4) (
                    (
                      request,
                      planned ∙ same,
                      ap (λ (d : CheckDefinition). d.id) defined ∙ named,
                      executed,
                    ),
                    execute_items-Executed items input environment (suc n) rest os e2 e4,
                  )

  -- A pipeline that returns planned the project's checks, selected, without repetitions, the checks
  -- that its input asks for, chose the items of the plan for them, in the order of the plan, which
  -- are applicable, at least one and as many as were selected, and executed each of them exactly
  -- once, in that order, with the definition of its check.
  pub verify-Executed :
      (input : PipelineInput) (out : PipelineOutput)
      → verify sha256 locale_le deps input ≡ ok out
      → (deps.detect ≡ ok out.profile)
        × (plan sha256 locale_le initial_check_definitions out.profile input.planner_config
            ≡ ok out.plan)
        × (selected : List String) × IsRequested
            (λ id. is_some (find_spec locale_le deps.specs id))
            out.plan.items
            input
            selected
        × (chosen : List CheckPlanItem) × IsSelection out.plan.items selected chosen
        × Executed chosen out.outcomes
  unfolding verify
  verify-Executed input out h = returns (or_throw _ deps.detect) _ h λ profile e1 h1.
      returns (plan sha256 locale_le initial_check_definitions profile input.planner_config) _ h1
        λ p e2 h2.
          let selected =
            default_selection
              (resolve_check_selection p.items input.selection input.selected_check_ids
                input.selected_check_id (λ id. is_some (find_spec locale_le deps.specs id)))
              input.selected_check_id in
          returns (select_items p.items selected) _ h2 λ items e3 h3.
            returns (traverse (with_definition sha256 locale_le deps) items) _ h3 λ pairs e4 h4.
              returns (provision_dependencies sha256 locale_le deps input) _ h4 λ provided _ h5.
                returns (prepare_artifacts sha256 locale_le deps input provided) _ h5
                  λ environment _ h6.
                    returns (execute_items sha256 locale_le deps input environment 0 pairs) _ h6
                      λ outcomes e7 h7. rw (← ok-injective h7) (
                        or_throw-eq-ok _ deps.detect profile e1,
                        e2,
                        selected,
                        requested (λ id. is_some (find_spec locale_le deps.specs id)) p.items input,
                        items,
                        select_items-IsSelection p.items selected items e3,
                        execute_items-Executed items input environment 0 pairs outcomes e4 e7,
                      )
