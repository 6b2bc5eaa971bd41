-- ===== src/Checks/Planner/Failure.antt =====
-- When the planner throws for want of a dependency.
use mathlib.Core.Path.{subst}
use verify_agent.Prelude.{
  String, Bool, true, false, List, [], ◌∷◌, ◌++◌, ok, throw, ◌≡◌, refl, arith, In, includes, All-In,
  sym, ◌∙◌, inl, inr, Result-cases, includes-In, In-of_map, In-append_left, In-append_right,
  In-append,
}
use verify_agent.JsMap.{get}
use verify_agent.Json.{Json}
use verify_agent.Errors.{Error}
use verify_agent.Domain.Types.{CheckPlan, CheckPlanItem, CheckDefinition, ProjectProfile}
use verify_agent.Checks.Planner.{plan}
use verify_agent.Checks.Settings.{no_config, is_disabled, has_config}
use verify_agent.Checks.Dependencies.{dependencies_for}
use verify_agent.Checks.Planner.Order.{DependenciesEarlier, ids, plan_ordered}
use verify_agent.Checks.Planner.Items.{plan-IsSound}

In-regroup :
    (d x : String) (seen rest : List String)
    → In d ((seen ++ x ∷ []) ++ rest)
    → In d (seen ++ x ∷ rest)
In-regroup d x seen rest m = elim (In-append d (seen ++ x ∷ []) rest m) [
  | inl l ↦ elim (In-append d seen (x ∷ []) l) [
    | inl s ↦ In-append_left d seen (x ∷ rest) s
    | inr h ↦ In-append_right d seen (x ∷ rest) (ground arith)
  ]
  | inr r ↦ In-append_right d seen (x ∷ rest) (inr r)
]

DependenciesEarlier-In :
    (seen : List String) (items : List CheckPlanItem) (item : CheckPlanItem) (d : String)
    → DependenciesEarlier seen items
    → In item items
    → In d item.dependencies
    → In d (seen ++ ids items)
DependenciesEarlier-In seen [] item d h m n = absurd m
DependenciesEarlier-In seen (first ∷ items) item d h (inl e) n =
    let n1 : In d first.dependencies = subst (λ i. In d i.dependencies) e n in
    In-append_left d seen (ids (first ∷ items))
      (includes-In seen d (All-In (λ k. includes seen k ≡ true) d first.dependencies h.0 n1))
DependenciesEarlier-In seen (first ∷ items) item d h (inr m) n =
    In-regroup d first.check_id seen (ids items)
      (DependenciesEarlier-In (seen ++ first.check_id ∷ []) items item d h.1 m n)

is_disabled-no_config : (id : String) → is_disabled no_config id ≡ false
unfolding is_disabled no_config get
is_disabled-no_config id = refl

has_config-no_config : (id : String) → has_config no_config id ≡ false
unfolding has_config no_config get
has_config-no_config id = refl

dependencies_for-build : dependencies_for "typescript.build" ≡ "typescript.typecheck" ∷ []
unfolding dependencies_for
dependencies_for-build = refl

module _ (sha256 : Json → String) (locale_le : String → String → Bool) where
  no_plan :
      (definitions : List CheckDefinition) (profile : ProjectProfile) (d : CheckDefinition)
      (p : CheckPlan)
      → In d definitions
      → d.id ≡ "typescript.build"
      → includes profile.supported_capabilities "typescript.build" ≡ true
      → includes profile.supported_capabilities "typescript.typecheck" ≡ false
      → plan sha256 locale_le definitions profile no_config ≡ ok p
      → ⊥
  no_plan definitions profile d p m named has_build no_typecheck h =
      let (sound, complete, _) = plan-IsSound sha256 locale_le definitions profile no_config p h in
      let (_, earlier) = plan_ordered sha256 locale_le definitions profile no_config p h in
      let capable : includes profile.supported_capabilities d.id ≡ true = rw named has_build in
      let (item, i, q) = complete d m (rw capable refl) in
      let needs : item.dependencies ≡ "typescript.typecheck" ∷ [] =
        q.needs ∙ rw (is_disabled-no_config d.id, named) dependencies_for-build in
      let needed : In "typescript.typecheck" item.dependencies = rw needs (inl refl) in
      let (other, o, e) =
        In-of_map (λ i. i.check_id) "typescript.typecheck" p.items
          (DependenciesEarlier-In [] p.items item "typescript.typecheck" earlier i needed) in
      let (c, _, r) = sound other o in
      let ec : c.id ≡ "typescript.typecheck" = sym r.named ∙ sym e in
      elim r.reached [
        | inl s ↦
            let s1 : includes profile.supported_capabilities "typescript.typecheck" ≡ true =
              subst (λ k. includes profile.supported_capabilities k ≡ true) ec s in
            ground arith
        | inr s ↦ let f = has_config-no_config c.id in ground arith
      ]

  -- Whenever a project has the build capability and not the typecheck capability, planning with no
  -- configuration throws, because the build's dependency is not planned.
  pub plan-throws :
      (definitions : List CheckDefinition) (profile : ProjectProfile) (d : CheckDefinition)
      → In d definitions
      → d.id ≡ "typescript.build"
      → includes profile.supported_capabilities "typescript.build" ≡ true
      → includes profile.supported_capabilities "typescript.typecheck" ≡ false
      → (e : Error) × (plan sha256 locale_le definitions profile no_config ≡ throw e)
  plan-throws definitions profile d m named has_build no_typecheck =
      elim (Result-cases (plan sha256 locale_le definitions profile no_config)) [
        | inl (p, h) ↦ absurd (no_plan definitions profile d p m named has_build no_typecheck h)
        | inr (e, h) ↦ (e, h)
      ]
