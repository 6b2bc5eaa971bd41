-- ===== src/Checks/Selection/Laws.antt =====
-- What a selection of all applicable checks holds.
use verify_agent.Prelude.{
  String, Bool, true, ◌&&◌, List, filter, ◌≡◌, arith, In, In-of_map, In-map, In-filter,
  In-filter_of, ◌↔◌, sym, refl,
}
use verify_agent.Domain.Types.{CheckPlanItem, Applicability, applicable}
use verify_agent.Checks.Selection.{select_applicable_executable_checks, is_applicable}

is_applicable-eq : (a : Applicability) → is_applicable a ≡ true → a ≡ applicable
is_applicable-eq a h = ground arith

-- A check is selected exactly if some planned item for it is applicable and it has a trusted
-- specification, so no disabled, undetected or unspecified check is run.
pub select_applicable_executable_checks-In_iff :
    (items : List CheckPlanItem) (has_spec : String → Bool) (id : String)
    → In id (select_applicable_executable_checks items has_spec) ↔ (
        (i : CheckPlanItem) × In i items
        × (i.check_id ≡ id)
        × (i.applicability ≡ applicable)
        × (has_spec id ≡ true))
unfolding select_applicable_executable_checks
select_applicable_executable_checks-In_iff items has_spec id =
    let test : CheckPlanItem → Bool = λ i. is_applicable i.applicability && has_spec i.check_id in
    (
      λ m.
          let (i, mi, e) = In-of_map (λ i. i.check_id) id (filter test items) m in
          let (n, t) = In-filter test i items mi in
          let s : has_spec i.check_id ≡ true = ground arith in
          (i, n, sym e, is_applicable-eq i.applicability (ground arith), rw e s),
      λ (i, m, e, a, s).
          let s1 : has_spec i.check_id ≡ true = rw e s in
          let t : test i ≡ true = rw (a, s1) refl in
          rw (← e) (In-map (λ i. i.check_id) i (filter test items) (In-filter_of test i items m t)),
    )
