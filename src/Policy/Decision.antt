-- ===== src/Policy/Decision.antt =====
-- The decision as a whole: what `evaluateDefaultPolicy` returns is traced to its context.
use verify_agent.Prelude.{
  String, List, [], ◌∷◌, map, ok, ◌≡◌, refl, arith, includes, NoDup, returns, ok-injective,
}
use Prim.Native.String.{◌++◌ as concat, slice}
use mathlib.Core.Path.{subst}
use verify_agent.Prelude.Sorting.{unique_sorted, includes-unique_sorted, NoDup-unique_sorted}
use verify_agent.Json.{Json}
use verify_agent.Domain.Types.{PolicyDecision}
use verify_agent.Domain.Validation.{validate_policy, validate_policy_decision}
use verify_agent.Policy.{
  DecisionContext, apply_rules, brand_id, brand_all, evaluate_default_policy, decision_content,
  make_decision,
}
use verify_agent.Policy.Outcome.{specified_outcome, apply_rules-specified}

brand_all-ok : (vs bs : List String) → brand_all vs ≡ ok bs → bs ≡ vs
unfolding brand_all
brand_all-ok [] bs h = ground arith
brand_all-ok (v ∷ vs) bs h =
    returns (brand_id v) _ h
      λ b e h1. returns (brand_all vs) _ h1 λ rest e' h2. ground (arith, brand_all-ok vs rest e')

-- What a decision says of its context.
pub record IsTraced (c : DecisionContext) (d : PolicyDecision) : Type 0 where
  pub decided : d.outcome ≡ specified_outcome c
  pub dated : d.created_at ≡ c.created_at
  pub policy : d.policy_id ≡ c.policy.id
  pub version : d.policy_version ≡ c.policy.version
  pub evidence :
      (k : String) → includes d.evidence_references k ≡ includes (map (λ e. e.id) c.evidence) k
  pub findings :
      (k : String) → includes d.finding_references k ≡ includes (map (λ f. f.id) c.findings) k
  pub evidence_once : NoDup d.evidence_references
  pub findings_once : NoDup d.finding_references

module _ (sha256 : Json → String) where
  -- A decision that is returned has the outcome of the worst condition that holds, and refers to
  -- exactly the evidence and the findings of its context, each once.
  pub evaluate_default_policy-IsTraced :
      (c : DecisionContext) (d : PolicyDecision)
      → evaluate_default_policy sha256 c ≡ ok d
      → IsTraced c d
  unfolding evaluate_default_policy
  evaluate_default_policy-IsTraced c d h = returns (validate_policy c.policy) _ h λ _ _ h1.
      returns (brand_all (unique_sorted (map (λ e. e.id) c.evidence))) _ h1 λ evidence e1 h2.
        returns (brand_all (unique_sorted (map (λ f. f.id) c.findings))) _ h2 λ findings e2 h3.
          let digest = sha256 (decision_content sha256 c (apply_rules c) evidence findings) in
          returns (brand_id (concat "decision-" (slice digest 0 24))) _ h3 λ id _ h4.
            returns
              (validate_policy_decision
                (make_decision c (apply_rules c) evidence findings id digest))
              _ h4
              λ _ _ h5.
                let same_evidence = brand_all-ok _ evidence e1 in
                let same_findings = brand_all-ok _ findings e2 in
                subst (IsTraced c) (ok-injective h5) (record {
                  decided = apply_rules-specified c;
                  dated = refl;
                  policy = refl;
                  version = refl;
                  evidence = λ k. rw same_evidence (includes-unique_sorted k _);
                  findings = λ k. rw same_findings (includes-unique_sorted k _);
                  evidence_once = rw same_evidence (NoDup-unique_sorted _);
                  findings_once = rw same_findings (NoDup-unique_sorted _);
                })
