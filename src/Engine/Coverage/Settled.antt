-- ===== src/Engine/Coverage/Settled.antt =====
-- What a complete coverage, and the status that rests on it, say of the plan.
use verify_agent.Prelude.{
  String, true, false, List, [], ◌∷◌, ◌++◌, Option, none, some, ◌≡◌, refl, arith, All, inl, inr,
  ◌⊎◌, is_empty, some_of, Bool-cases,
}
use verify_agent.Prelude.Sorting.{insert, sort_by, uniq, unique_sorted, str_le}
use verify_agent.Domain.Types.{
  CheckResult, CheckStatus, passed, ExecutionSource, real, CheckPlan, CheckPlanItem, Applicability,
  applicable, not_applicable, VerificationCoverage, pass, PolicyOutcome, allow,
}
use verify_agent.Engine.Coverage.{
  result_of, outcome_of, push_item, cover, coverage_for_plan, is_incomplete, is_error, status_for,
  no_coverage,
}

-- An item is out of the plan's scope, or the last result of its check passed in a real execution.
abbrev pub IsSettled : List CheckResult → CheckPlanItem → Type 0
IsSettled results item =
    (item.applicability ≡ not_applicable)
    ⊎ ((item.applicability ≡ applicable)
        × (r : CheckResult) × (result_of item.check_id results ≡ some r)
        × (r.status ≡ passed)
        × (r.execution_source ≡ real))

is_empty-append_one : (xs : List String) (k : String) → is_empty (xs ++ k ∷ []) ≡ false
is_empty-append_one [] k = refl
is_empty-append_one (x ∷ xs) k = refl

push_item-passed :
    (a : Applicability) (s : CheckStatus) (e : ExecutionSource) (k : String)
    (c : VerificationCoverage)
    → is_incomplete (push_item a (some (s, e)) k c) ≡ false
    → (a ≡ not_applicable) ⊎ ((a ≡ applicable) × (s ≡ passed) × (e ≡ real))
push_item-passed a s e k c h = ground (
  arith,
  is_empty-append_one c.partial k,
  is_empty-append_one c.unsupported k,
  is_empty-append_one c.simulated k,
  is_empty-append_one c.fixture k,
)

push_item-settled :
    (a : Applicability) (o : Option CheckResult) (k : String) (c : VerificationCoverage)
    → is_incomplete (push_item a (outcome_of o) k c) ≡ false
    → (a ≡ not_applicable)
      ⊎ ((a ≡ applicable)
          × (r : CheckResult) × (o ≡ some r)
          × (r.status ≡ passed)
          × (r.execution_source ≡ real))
push_item-settled a none k c h =
    ground (arith, is_empty-append_one c.partial k, is_empty-append_one c.unsupported k)
push_item-settled a (some r) k c h = elim (push_item-passed a r.status r.execution_source k c h) [
  | inl e ↦ inl e
  | inr (e, p, q) ↦ inr (e, r, refl, p, q)
]

push_item-incomplete :
    (a : Applicability) (o : Option (CheckStatus × ExecutionSource)) (k : String)
    (c : VerificationCoverage)
    → is_incomplete c ≡ true
    → is_incomplete (push_item a o k c) ≡ true
push_item-incomplete a o k c h = ground (
  arith,
  is_empty-append_one c.partial k,
  is_empty-append_one c.unsupported k,
  is_empty-append_one c.simulated k,
  is_empty-append_one c.fixture k,
)

cover-incomplete :
    (results : List CheckResult) (c : VerificationCoverage) (items : List CheckPlanItem)
    → is_incomplete c ≡ true
    → is_incomplete (cover results c items) ≡ true
unfolding cover
cover-incomplete results c [] h = h
cover-incomplete results c (i ∷ items) h =
    cover-incomplete results
      (push_item i.applicability (outcome_of (result_of i.check_id results)) i.check_id c) items
      (push_item-incomplete i.applicability (outcome_of (result_of i.check_id results)) i.check_id c
        h)

cover-IsSettled :
    (results : List CheckResult) (c : VerificationCoverage) (items : List CheckPlanItem)
    → is_incomplete (cover results c items) ≡ false
    → All (IsSettled results) items
unfolding cover
cover-IsSettled results c [] h = tt
cover-IsSettled results c (i ∷ items) h =
    let next = push_item i.applicability (outcome_of (result_of i.check_id results)) i.check_id c in
    elim (Bool-cases (is_incomplete next)) [
      | inl e ↦ let more = cover-incomplete results next items e in absurd (ground arith)
      | inr e ↦ (
        push_item-settled i.applicability (result_of i.check_id results) i.check_id c e,
        cover-IsSettled results next items h,
      )
    ]

is_empty-insert : (x : String) (xs : List String) → is_empty (insert str_le x xs) ≡ false
unfolding insert
is_empty-insert x [] = refl
is_empty-insert x (y ∷ ys) = ground arith

is_empty-unique_sorted : (xs : List String) → is_empty (unique_sorted xs) ≡ is_empty xs
unfolding unique_sorted uniq sort_by
is_empty-unique_sorted [] = refl
is_empty-unique_sorted (x ∷ xs) = is_empty-insert x _

pub coverage_for_plan-IsSettled :
    (plan : CheckPlan) (results : List CheckResult)
    → is_incomplete (coverage_for_plan plan results) ≡ false
    → All (IsSettled results) plan.items
unfolding coverage_for_plan
coverage_for_plan-IsSettled plan results h =
    let c = cover results no_coverage plan.items in
    cover-IsSettled results no_coverage plan.items (
      ground (
        arith,
        is_empty-unique_sorted c.partial,
        is_empty-unique_sorted c.unsupported,
        is_empty-unique_sorted c.simulated,
        is_empty-unique_sorted c.fixture,
      ))

pub status_for-pass :
    (o : PolicyOutcome) (c : VerificationCoverage) (results : List CheckResult)
    → status_for o c results ≡ pass
    → (o ≡ allow) × (is_incomplete c ≡ false) × (some_of (λ r. is_error r.status) results ≡ false)
unfolding status_for
status_for-pass o c results h = ground arith
