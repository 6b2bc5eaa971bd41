-- ===== src/Policy/Outcome.antt =====
-- Which outcome the rules reach, against a description by conditions on the context.
use verify_agent.Prelude.{
  ℕ, ◌≤◌, Bool, not, ◌&&◌, ◌||◌, List, [], ◌∷◌, ◌++◌, ◌≡◌, refl, arith, if◌then◌else◌, is_empty,
  filter, some_of, includes, String, ◌↔◌,
}
use verify_agent.Domain.Types.{
  CheckResult, Finding, PolicyOutcome, allow, needs_review, needs_changes, block,
}
use verify_agent.Policy.{DecisionContext, is_failure, is_severe, is_medium, apply_rules}

filter-some_of {ℓ} :
    {A : Type ℓ} (p : A → Bool) (xs : List A) → not (is_empty (filter p xs)) ≡ some_of p xs
filter-some_of p [] = refl
filter-some_of p (x ∷ xs) = ground (arith, filter-some_of p xs)

some_of-append {ℓ} :
    {A : Type ℓ} (p : A → Bool) (xs ys : List A)
    → some_of p (xs ++ ys) ≡ (some_of p xs || some_of p ys)
some_of-append p [] ys = refl
some_of-append p (x ∷ xs) ys = ground (arith, some_of-append p xs ys)

-- A required check has a result that is no success.
abbrev pub has_required_failure : DecisionContext → Bool
has_required_failure c =
    some_of (λ r. includes c.required_check_ids r.check_id && is_failure r.status) c.results

abbrev pub has_severe_finding : DecisionContext → Bool
has_severe_finding c = some_of (λ f. is_severe f.severity) c.findings

abbrev pub has_medium_finding : DecisionContext → Bool
has_medium_finding c = some_of (λ f. is_medium f.severity) c.findings

-- The outcome by precedence: the worst condition that holds.
abbrev pub specified_outcome : DecisionContext → PolicyOutcome
specified_outcome c =
    if has_required_failure c || has_severe_finding c
    then block
    else (if not (is_empty c.non_real_required_check_ids)
          || not (is_empty c.unsupported_required_capabilities)
        then needs_changes
        else (if has_medium_finding c then needs_review else allow))

-- The outcome that the five tests reach is the one of the worst condition that holds: block on a
-- failed required check or a severe finding, else changes on synthetic or missing required coverage,
-- else a review on a medium finding, else allow.
pub apply_rules-specified : (c : DecisionContext) → (apply_rules c).outcome ≡ specified_outcome c
unfolding apply_rules
apply_rules-specified c =
    let failing =
      filter-some_of
        (λ (r : CheckResult). includes c.required_check_ids r.check_id && is_failure r.status)
        c.results in
    let severe = filter-some_of (λ (f : Finding). is_severe f.severity) c.findings in
    let medium = filter-some_of (λ (f : Finding). is_medium f.severity) c.findings in
    rw (failing, severe, medium) (ground arith)

abbrev pub rank : PolicyOutcome → ℕ
rank allow = 0
rank needs_review = 1
rank needs_changes = 2
rank block = 3

-- A context with more in it: results, findings and gaps are only added.
abbrev pub extended :
    DecisionContext → List CheckResult → List Finding → List String → List String → DecisionContext
extended c rs fs us ns = record c {
  results = c.results ++ rs;
  findings = c.findings ++ fs;
  unsupported_required_capabilities = c.unsupported_required_capabilities ++ us;
  non_real_required_check_ids = c.non_real_required_check_ids ++ ns;
}

is_empty-append {ℓ} :
    {A : Type ℓ} (xs ys : List A) → is_empty (xs ++ ys) ≡ (is_empty xs && is_empty ys)
is_empty-append [] ys = refl
is_empty-append (x ∷ xs) ys = refl

-- Adding results, findings or gaps in the required coverage never makes the outcome milder.
pub apply_rules_mono :
    (c : DecisionContext) (rs : List CheckResult) (fs : List Finding) (us ns : List String)
    → rank (apply_rules c).outcome ≤ rank (apply_rules (extended c rs fs us ns)).outcome
apply_rules_mono c rs fs us ns =
    rw (apply_rules-specified c, apply_rules-specified (extended c rs fs us ns))
      (ground (
        arith,
        some_of-append
            (λ (r : CheckResult). includes c.required_check_ids r.check_id && is_failure r.status)
            c.results rs,
        some_of-append (λ (f : Finding). is_severe f.severity) c.findings fs,
        some_of-append (λ (f : Finding). is_medium f.severity) c.findings fs,
        is_empty-append c.unsupported_required_capabilities us,
        is_empty-append c.non_real_required_check_ids ns,
      ))

-- The rules that are reported are those whose conditions decided the outcome.
pub apply_rules-rules :
    (c : DecisionContext) → ((apply_rules c).outcome ≡ allow) ↔ ((apply_rules c).rules ≡ [])
unfolding apply_rules
apply_rules-rules c = ground arith
