-- ===== src/Checks/Planner/Order.antt =====
-- The order of a plan: by priority, and every dependency before what needs it.
use verify_agent.Prelude.{
  ℕ, suc, ◌+◌, ◌≤◌, ◌<◌, String, Bool, true, false, List, [], ◌∷◌, ◌++◌, map, Option, none, some,
  ok, ◌≡◌, refl, arith, All, includes, returns, length, ok-injective, inl, inr, Bool-cases, ap, sym,
}
use Prim.Native.String.{◌++◌ as concat, slice}
use mathlib.Core.List.{append_assoc}
use mathlib.Core.Path.{subst}
use verify_agent.Prelude.Sorting.{insert, sort_by}
use verify_agent.Json.{Json}
use verify_agent.Domain.Types.{CheckPlan, CheckPlanItem, CheckDefinition, ProjectProfile}
use verify_agent.Policy.{brand_id}
use verify_agent.Checks.Planner.{plan_items, not_after, plan, plan_content}
use verify_agent.Checks.Settings.{Config}
use verify_agent.Checks.Dependencies.{
  last_position, is_before, dependencies_before, validate_from, validate_plan_dependencies,
}

abbrev pub ids : List CheckPlanItem → List String
ids items = map (λ i. i.check_id) items

last_position-ge :
    (d : String) (n i : ℕ) (items : List CheckPlanItem) → last_position d n items ≡ some i → n ≤ i
unfolding last_position
last_position-ge d n i [] h = absurd (ground arith)
last_position-ge d n i (item ∷ items) h = ground (arith, last_position-ge d (suc n) i items)

-- A last position among the first items means that they hold the identifier.
last_position-prior :
    (d : String) (n i : ℕ) (prior rest : List CheckPlanItem)
    → last_position d n (prior ++ rest) ≡ some i
    → i < n + length prior
    → includes (ids prior) d ≡ true
unfolding last_position
last_position-prior d n i [] rest h lt =
    let ge = last_position-ge d n i rest h in absurd (omega arith)
last_position-prior d n i (p ∷ prior) rest h lt =
    ground (arith, last_position-prior d (suc n) i prior rest)

-- Each item's dependencies are among the identifiers before it.
abbrev pub DependenciesEarlier : List String → List CheckPlanItem → Type 0
DependenciesEarlier seen [] = Unit
DependenciesEarlier seen (item ∷ items) =
    All (λ d. includes seen d ≡ true) item.dependencies
    × DependenciesEarlier (seen ++ item.check_id ∷ []) items

dependencies_before-All :
    (prior rest : List CheckPlanItem) (id : String) (ds : List String)
    → dependencies_before (prior ++ rest) (length prior) id ds ≡ ok tt
    → All (λ d. includes (ids prior) d ≡ true) ds
unfolding dependencies_before
dependencies_before-All prior rest id [] h = tt
dependencies_before-All prior rest id (d ∷ ds) h =
    elim (Bool-cases (is_before (last_position d 0 (prior ++ rest)) (length prior))) [
      | inl before ↦ (one before, dependencies_before-All prior rest id ds (ground arith))
      | inr late ↦ absurd (ground arith)
    ]
  where
    found :
        (o : Option ℕ)
        → last_position d 0 (prior ++ rest) ≡ o
        → is_before o (length prior) ≡ true
        → includes (ids prior) d ≡ true
    found none e b = absurd (ground arith)
    found (some i) e b = last_position-prior d 0 i prior rest e (ground arith)

    one :
        is_before (last_position d 0 (prior ++ rest)) (length prior) ≡ true
        → includes (ids prior) d ≡ true
    one before = found (last_position d 0 (prior ++ rest)) refl before

module _ {ℓ} {A : Type ℓ} where
  length-snoc : (xs : List A) (x : A) → length (xs ++ x ∷ []) ≡ suc (length xs)
  length-snoc [] x = refl
  length-snoc (y ∷ xs) x = omega (arith, length-snoc xs x)

ids-snoc :
    (xs : List CheckPlanItem) (x : CheckPlanItem) → ids (xs ++ x ∷ []) ≡ ids xs ++ x.check_id ∷ []
ids-snoc [] x = refl
ids-snoc (y ∷ xs) x = ap (λ t. y.check_id ∷ t) (ids-snoc xs x)

validate_from-DependenciesEarlier :
    (all prior rest : List CheckPlanItem) (n : ℕ)
    → all ≡ prior ++ rest
    → n ≡ length prior
    → validate_from all n rest ≡ ok tt
    → DependenciesEarlier (ids prior) rest
unfolding validate_from
validate_from-DependenciesEarlier all prior [] n e en h = tt
validate_from-DependenciesEarlier all prior (item ∷ rest) n e en h =
    returns (dependencies_before all n item.check_id item.dependencies) _ h λ _ here later. (
      dependencies_before-All prior (item ∷ rest) item.check_id item.dependencies
          (rw (e, en) at here),
      subst (λ s. DependenciesEarlier s rest) (ids-snoc prior item)
          (validate_from-DependenciesEarlier all (prior ++ item ∷ []) rest (suc n)
            (rw e (sym (append_assoc prior (item ∷ []) rest))) (rw (length-snoc prior item, en))
            later),
    )

abbrev pub ByPriority : List CheckPlanItem → Type 0
ByPriority [] = Unit
ByPriority (x ∷ xs) = All (λ y. x.priority ≤ y.priority) xs × ByPriority xs

All-weaken :
    (m n : ℕ) (xs : List CheckPlanItem)
    → m ≤ n
    → All (λ y. n ≤ y.priority) xs
    → All (λ y. m ≤ y.priority) xs
All-weaken m n [] h a = tt
All-weaken m n (x ∷ xs) h (p, a) = (omega arith, All-weaken m n xs h a)

module _ (sha256 : Json → String) (locale_le : String → String → Bool) where
  le_priority :
      (x y : CheckPlanItem) → not_after sha256 locale_le x y ≡ true → x.priority ≤ y.priority
  unfolding not_after
  le_priority x y le = ground arith

  gt_priority :
      (x y : CheckPlanItem) → not_after sha256 locale_le x y ≡ false → y.priority ≤ x.priority
  unfolding not_after
  gt_priority x y gt = ground arith

  All-insert :
      (m : ℕ) (x : CheckPlanItem) (ys : List CheckPlanItem)
      → m ≤ x.priority
      → All (λ y. m ≤ y.priority) ys
      → All (λ y. m ≤ y.priority) (insert (not_after sha256 locale_le) x ys)
  unfolding insert
  All-insert m x [] h a = (h, tt)
  All-insert m x (y ∷ ys) h a = ground (arith, All-insert m x ys h a.1)

  ByPriority-insert :
      (x : CheckPlanItem) (ys : List CheckPlanItem)
      → ByPriority ys
      → ByPriority (insert (not_after sha256 locale_le) x ys)
  unfolding insert
  ByPriority-insert x [] b = (tt, tt)
  ByPriority-insert x (y ∷ ys) b = elim (Bool-cases (not_after sha256 locale_le x y)) [
    | inl le ↦
        rw le
          ((le_priority x y le, All-weaken x.priority y.priority ys (le_priority x y le) b.0), b)
    | inr gt ↦
        rw gt (All-insert y.priority x ys (gt_priority x y gt) b.0, ByPriority-insert x ys b.1)
  ]

  ByPriority-sort_by :
      (xs : List CheckPlanItem) → ByPriority (sort_by (not_after sha256 locale_le) xs)
  unfolding sort_by
  ByPriority-sort_by [] = tt
  ByPriority-sort_by (x ∷ xs) = ByPriority-insert x _ (ByPriority-sort_by xs)

  -- A plan is ordered by priority, and each dependency of an item stands before it.
  pub plan_ordered :
      (definitions : List CheckDefinition) (profile : ProjectProfile) (config : Config)
      (p : CheckPlan)
      → plan sha256 locale_le definitions profile config ≡ ok p
      → ByPriority p.items × DependenciesEarlier [] p.items
  unfolding plan
  plan_ordered definitions profile config p h =
      returns (plan_items profile config definitions) _ h λ unsorted _ h1.
        let items = sort_by (not_after sha256 locale_le) unsorted in
        returns (validate_plan_dependencies items) _ h1 λ _ valid h2.
          returns
            (brand_id
              (concat "plan-" (slice (sha256 (plan_content sha256 locale_le profile items)) 0 24)))
            _ h2
            λ id _ h3.
              let e : items ≡ p.items = ap (λ q. q.items) (ok-injective h3) in
              subst (λ xs. ByPriority xs × DependenciesEarlier [] xs) e
                (
                  ByPriority-sort_by unsorted,
                  validate_from-DependenciesEarlier items [] items 0 refl refl valid,
                )
