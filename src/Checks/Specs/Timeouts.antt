-- ===== src/Checks/Specs/Timeouts.antt =====
-- The outer timeout against the inner ones.
use mathlib.Core.Path.{subst}
use verify_agent.Prelude.{
  ℕ, ◌≤◌, String, List, [], ◌∷◌, none, some, ok, ◌≡◌, refl, arith, All, In, ◌⊎◌, inl, inr,
  Option-cases, Bool-cases, returns, ltb, if◌then◌else◌,
}
use verify_agent.Json.{Number, nat}
use verify_agent.Checks.Specs.{
  Spec, safe_positive, positive_or_throw, raise_maximum, max_trusted_execution_timeout,
}

-- No inner deadline of a specification is later than `limit`.
abbrev pub Within : ℕ → Spec → Type 0
Within limit s = (t : ℕ) → s.timeout_ms ≡ some (nat t) → t ≤ limit

-- A specification whose deadline is `limit`.
abbrev pub Reached : ℕ → List Spec → Type 0
Reached limit specs = (s : Spec) × In s specs × (s.timeout_ms ≡ some (nat limit))

-- `limit` is the largest of `start` and the deadlines.
pub record IsMaximum (start limit : ℕ) (specs : List Spec) : Type 0 where
  pub above_start : start ≤ limit
  pub above_all : All (Within limit) specs
  pub attained : (limit ≡ start) ⊎ Reached limit specs

positive_or_throw-ok :
    (message : String) (t : Number) (n : ℕ)
    → positive_or_throw message (safe_positive t) ≡ ok n
    → t ≡ nat n
positive_or_throw-ok message t n h = ground arith

skip_spec :
    (start limit : ℕ) (s : Spec) (specs : List Spec)
    → s.timeout_ms ≡ none
    → IsMaximum start limit specs
    → IsMaximum start limit (s ∷ specs)
skip_spec start limit s specs e m = record {
  above_start = m.above_start;
  above_all = (λ t et. absurd (ground arith), m.above_all);
  attained = elim m.attained [ inl h ↦ inl h | inr (r, i, h) ↦ inr (r, inr i, h) ];
}

add_spec :
    (start n limit : ℕ) (s : Spec) (specs : List Spec)
    → s.timeout_ms ≡ some (nat n)
    → IsMaximum (if ltb start n then n else start) limit specs
    → IsMaximum start limit (s ∷ specs)
add_spec start n limit s specs e m = record {
  above_start = ground (arith, m.above_start);
  above_all = (λ t et. ground (arith, m.above_start), m.above_all);
  attained = elim m.attained [ inr (r, i, h) ↦ inr (r, inr i, h) | inl h ↦ here h ];
}
  where
    here : limit ≡ (if ltb start n then n else start) → (limit ≡ start) ⊎ Reached limit (s ∷ specs)
    here h = elim (Bool-cases (ltb start n)) [
      | inl more ↦ inr (s, inl refl, ground arith)
      | inr less ↦ inl (ground arith)
    ]

raise_maximum-IsMaximum :
    (start : ℕ) (specs : List Spec) (limit : ℕ)
    → raise_maximum start specs ≡ ok limit
    → IsMaximum start limit specs
unfolding raise_maximum
raise_maximum-IsMaximum start [] limit h = record {
  above_start = ground arith;
  above_all = tt;
  attained = inl (ground arith);
}
raise_maximum-IsMaximum start (s ∷ specs) limit h = elim (Option-cases s.timeout_ms) [
  | inl e ↦
      skip_spec start limit s specs e
        (raise_maximum-IsMaximum start specs limit (rw (e, raise_maximum) at h))
  | inr (t, e) ↦
      returns
        (positive_or_throw "trusted spec timeout must be a positive integer" (safe_positive t)) _
        (rw (e, raise_maximum) at h)
        λ n en rest.
          add_spec start n limit s specs (ground (arith, positive_or_throw-ok _ t n en))
            (raise_maximum-IsMaximum (if ltb start n then n else start) specs limit rest)
]

-- The outer timeout that is returned is the largest of the fallback and the deadlines of the
-- specifications: none is later, and it is one of them.
pub max_trusted_execution_timeout-IsMaximum :
    (fallback limit : ℕ) (specs : List Spec)
    → max_trusted_execution_timeout (nat fallback) specs ≡ ok limit
    → IsMaximum fallback limit specs
unfolding max_trusted_execution_timeout
max_trusted_execution_timeout-IsMaximum fallback limit specs h =
    returns
      (positive_or_throw "fallback timeout must be a positive integer"
        (safe_positive (nat fallback)))
      _ h
      λ n en rest.
        let same : n ≡ fallback = ground (arith, positive_or_throw-ok _ (nat fallback) n en) in
        subst (λ m. IsMaximum m limit specs) same (raise_maximum-IsMaximum n specs limit rest)

-- Every deadline is a positive safe integer.
abbrev pub IsTimed : Spec → Type 0
IsTimed s = (t : Number) → s.timeout_ms ≡ some t → (n : ℕ) × (safe_positive t ≡ some n)

raise_maximum-total :
    (start : ℕ) (specs : List Spec)
    → All IsTimed specs
    → (n : ℕ) × (raise_maximum start specs ≡ ok n)
unfolding raise_maximum
raise_maximum-total start [] h = (start, refl)
raise_maximum-total start (s ∷ specs) h = elim (Option-cases s.timeout_ms) [
  | inl e ↦ rw (e, raise_maximum) (raise_maximum-total start specs h.1)
  | inr (t, e) ↦
      let (n, en) = h.0 t e in
      rw (e, raise_maximum, en) (raise_maximum-total (if ltb start n then n else start) specs h.1)
]

-- With a positive fallback and well-formed deadlines the outer timeout is computed.
pub max_trusted_execution_timeout-total :
    (fallback n : ℕ) (specs : List Spec)
    → safe_positive (nat fallback) ≡ some n
    → All IsTimed specs
    → (limit : ℕ) × (max_trusted_execution_timeout (nat fallback) specs ≡ ok limit)
unfolding max_trusted_execution_timeout
max_trusted_execution_timeout-total fallback n specs e h = rw e (raise_maximum-total n specs h)
