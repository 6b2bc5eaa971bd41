-- ===== src/Checks/Planner/Items.antt =====
-- Which checks a plan holds, and what its items say.
use Prim.Native.String.{◌++◌ as concat, slice}
use mathlib.Core.Path.{subst}
use verify_agent.Prelude.{
  suc, String, Bool, true, not, filter, length, is_some, ◌&&◌, ◌||◌, List, [], ◌∷◌, Option, none,
  some, ok, ◌≡◌, refl, arith, In, includes, returns, if◌then◌else◌, ok-injective, ap, sym, ◌∙◌, inl,
  inr, ◌⊎◌,
}
use verify_agent.Prelude.Sorting.{sort_by, In-sort_by, In-of_sort_by, length-sort_by}
use verify_agent.Json.{Json}
use verify_agent.Domain.Types.{
  CheckPlan, CheckPlanItem, CheckDefinition, ProjectProfile, applicable, not_applicable,
  unsupported,
}
use verify_agent.Policy.{brand_id}
use verify_agent.Checks.Planner.{
  plan_item, plan_items, not_after, plan, plan_content, priority_of, cons_option,
}
use verify_agent.Checks.Settings.{Config, is_disabled, has_config, is_required}
use verify_agent.Checks.Dependencies.{validate_plan_dependencies, dependencies_for}

-- The project supports the check, or the configuration names it.
abbrev pub is_reached : ProjectProfile → Config → CheckDefinition → Bool
is_reached profile config d = includes profile.supported_capabilities d.id || has_config config d.id

-- An item of a plan, as the definition that it stands for, the project and the configuration
-- determine it.
pub record IsPlanned (profile : ProjectProfile) (config : Config) (d : CheckDefinition)
    (item : CheckPlanItem) : Type 0 where
  pub named : item.check_id ≡ d.id
  pub versioned : item.check_version ≡ d.version
  pub reached :
      (includes profile.supported_capabilities d.id ≡ true) ⊎ (has_config config d.id ≡ true)
  pub status : item.applicability ≡ (
      if is_disabled config d.id
      then not_applicable
      else (if includes profile.supported_capabilities d.id then applicable else unsupported))
  pub requirement : item.required ≡ (
      not (is_disabled config d.id)
      && is_required config d.id (includes profile.supported_capabilities d.id))
  pub needs : item.dependencies ≡ (if is_disabled config d.id then [] else dependencies_for d.id)
  pub ranked : item.priority ≡ priority_of d.id

plan_item-IsPlanned :
    (profile : ProjectProfile) (config : Config) (d : CheckDefinition) (item : CheckPlanItem)
    → plan_item profile config d ≡ ok (some item)
    → IsPlanned profile config d item
unfolding plan_item
plan_item-IsPlanned profile config d item h = ground arith

In-cons_option :
    (x : CheckPlanItem) (o : Option CheckPlanItem) (xs : List CheckPlanItem)
    → In x (cons_option o xs)
    → (o ≡ some x) ⊎ In x xs
In-cons_option x none xs m = inr m
In-cons_option x (some y) xs (inl e) = inl (ap (λ t. some t) (sym e))
In-cons_option x (some y) xs (inr m) = inr m

cons_option-In :
    (x : CheckPlanItem) (o : Option CheckPlanItem) (xs : List CheckPlanItem)
    → In x xs
    → In x (cons_option o xs)
cons_option-In x none xs m = m
cons_option-In x (some y) xs m = inr m

plan_item-some :
    (profile : ProjectProfile) (config : Config) (d : CheckDefinition) (o : Option CheckPlanItem)
    → plan_item profile config d ≡ ok o
    → is_reached profile config d ≡ true
    → (i : CheckPlanItem) × (o ≡ some i)
unfolding plan_item
plan_item-some profile config d none h s = absurd (ground arith)
plan_item-some profile config d (some i) h s = (i, refl)

-- Each planned item stands for a definition of the catalog.
abbrev pub IsSound : ProjectProfile → Config → List CheckDefinition → CheckPlanItem → Type 0
IsSound profile config definitions item =
    (d : CheckDefinition) × In d definitions × IsPlanned profile config d item

plan_items-IsSound :
    (profile : ProjectProfile) (config : Config) (definitions : List CheckDefinition)
    (items : List CheckPlanItem)
    → plan_items profile config definitions ≡ ok items
    → (item : CheckPlanItem) → In item items
    → IsSound profile config definitions item
unfolding plan_items
plan_items-IsSound profile config [] items h item m =
    absurd (subst (λ xs. In item xs) (sym (ok-injective h)) m)
plan_items-IsSound profile config (d ∷ definitions) items h item m =
    returns (plan_item profile config d) _ h λ first e h1.
      returns (plan_items profile config definitions) _ h1 λ rest er h2.
        let widen : IsSound profile config definitions item
            → IsSound profile config (d ∷ definitions) item =
          λ (c, i, p). (c, inr i, p) in
        let split =
          In-cons_option item first rest (subst (λ xs. In item xs) (sym (ok-injective h2)) m) in
        elim split [
          | inl s ↦ (d, inl refl, plan_item-IsPlanned profile config d item (e ∙ ap (λ o. ok o) s))
          | inr i ↦ widen (plan_items-IsSound profile config definitions rest er item i)
        ]

plan_items-has :
    (profile : ProjectProfile) (config : Config) (definitions : List CheckDefinition)
    (items : List CheckPlanItem) (d : CheckDefinition)
    → plan_items profile config definitions ≡ ok items
    → In d definitions
    → is_reached profile config d ≡ true
    → (item : CheckPlanItem) × In item items × IsPlanned profile config d item
unfolding plan_items
plan_items-has profile config [] items d h m s = absurd m
plan_items-has profile config (c ∷ definitions) items d h m s =
    returns (plan_item profile config c) _ h λ first e h1.
      returns (plan_items profile config definitions) _ h1 λ rest er h2.
        let done : (i : CheckPlanItem) × In i (cons_option first rest)
            × IsPlanned profile config d i =
          elim m [
            | inl same ↦
                let ed : plan_item profile config d ≡ ok first =
                  ap (plan_item profile config) same ∙ e in
                let (i, ei) = plan_item-some profile config d first ed s in
                (
                  i,
                  rw ei (inl refl),
                  plan_item-IsPlanned profile config d i (ed ∙ ap (λ o. ok o) ei),
                )
            | inr later ↦
                let (i, mi, p) = plan_items-has profile config definitions rest d er later s in
                (i, cons_option-In i first rest mi, p)
          ] in
        subst (λ xs. (i : CheckPlanItem) × In i xs × IsPlanned profile config d i) (ok-injective h2)
          done

plan_item-none :
    (profile : ProjectProfile) (config : Config) (d : CheckDefinition) (o : Option CheckPlanItem)
    → plan_item profile config d ≡ ok o
    → is_some o ≡ is_reached profile config d
unfolding plan_item
plan_item-none profile config d o h = ground arith

length-cons_option :
    (o : Option CheckPlanItem) (xs : List CheckPlanItem)
    → length (cons_option o xs) ≡ (if is_some o then suc (length xs) else length xs)
length-cons_option none xs = refl
length-cons_option (some x) xs = refl

length-plan_items :
    (profile : ProjectProfile) (config : Config) (definitions : List CheckDefinition)
    (items : List CheckPlanItem)
    → plan_items profile config definitions ≡ ok items
    → length items ≡ length (filter (is_reached profile config) definitions)
unfolding plan_items
length-plan_items profile config [] items h = ap length (sym (ok-injective h))
length-plan_items profile config (d ∷ definitions) items h =
    returns (plan_item profile config d) _ h λ first e h1.
      returns (plan_items profile config definitions) _ h1 λ rest er h2.
        let counted = length-plan_items profile config definitions rest er in
        let kept = plan_item-none profile config d first e in
        ap length (sym (ok-injective h2)) ∙ length-cons_option first rest ∙ ground arith

-- Of the items that the planner found, the plan holds each, in another order.
module _ (sha256 : Json → String) (locale_le : String → String → Bool) where
  plan-items :
      (definitions : List CheckDefinition) (profile : ProjectProfile) (config : Config)
      (p : CheckPlan)
      → plan sha256 locale_le definitions profile config ≡ ok p
      → (unsorted : List CheckPlanItem) × (plan_items profile config definitions ≡ ok unsorted)
        × (sort_by (not_after sha256 locale_le) unsorted ≡ p.items)
  unfolding plan
  plan-items definitions profile config p h =
      returns (plan_items profile config definitions) _ h λ unsorted e h1.
        let items = sort_by (not_after sha256 locale_le) unsorted in
        returns (validate_plan_dependencies items) _ h1 λ _ valid h2.
          returns
            (brand_id
              (concat "plan-" (slice (sha256 (plan_content sha256 locale_le profile items)) 0 24)))
            _ h2 λ id _ h3. (unsorted, e, ap (λ q. q.items) (ok-injective h3))

  -- A plan is sound and complete for the catalog: each of its items stands for a definition of the
  -- catalog that the project supports or the configuration names, and says of it what the project's
  -- capabilities and the configuration determine; each such definition is planned; and the plan has as
  -- many items as there are such definitions.
  pub plan-IsSound :
      (definitions : List CheckDefinition) (profile : ProjectProfile) (config : Config)
      (p : CheckPlan)
      → plan sha256 locale_le definitions profile config ≡ ok p
      → ((item : CheckPlanItem) → In item p.items → IsSound profile config definitions item)
        × ((d : CheckDefinition)
            → In d definitions
            → is_reached profile config d ≡ true
            → (item : CheckPlanItem) × In item p.items × IsPlanned profile config d item)
        × (length p.items ≡ length (filter (is_reached profile config) definitions))
  plan-IsSound definitions profile config p h =
      let (unsorted, e, es) = plan-items definitions profile config p h in
      let le = not_after sha256 locale_le in
      (
        λ item m.
            plan_items-IsSound profile config definitions unsorted e item
              (In-of_sort_by le item unsorted (subst (λ xs. In item xs) (sym es) m)),
        λ d m s.
            let (item, i, q) = plan_items-has profile config definitions unsorted d e m s in
            (item, subst (λ xs. In item xs) es (In-sort_by le item unsorted i), q),
        ap length (sym es)
            ∙ length-sort_by le unsorted
            ∙ length-plan_items profile config definitions unsorted e,
      )
