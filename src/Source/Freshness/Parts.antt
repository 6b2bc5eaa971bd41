-- ===== src/Source/Freshness/Parts.antt =====
-- The parts a freshness marker is split into.
use Prim.Native.Char.{code}
use Prim.Native.String.{◌++◌ as concat}
use verify_agent.Prelude.{
  ℕ, ◌+◌, String, Bool, true, false, not, List, [], ◌∷◌, ◌++◌, leb, nat_eq, every, length, ◌≡◌,
  refl, ap, ◌∙◌, arith,
}
use verify_agent.Prelude.Text.{codes, between, units}
use verify_agent.Source.Freshness.{is_hash_char, split_colons}
use verify_agent.Source.Freshness.Digits.{concat-nil, concat-cons, codes-concat}

-- A text without a colon.
abbrev pub IsPlain : String → Type 0
IsPlain s = every (λ c. not (nat_eq c b':')) (codes s) ≡ true

pub split_colons-plain : (s : String) → IsPlain s → split_colons s ≡ s ∷ []
unfolding split_colons
split_colons-plain String.[] h = refl
split_colons-plain (String.◌∷◌ c s) h =
    let head : nat_eq (code c) b':' ≡ false = ground arith in
    rw (head, split_colons-plain s (ground arith))
      (ap (λ t. t ∷ []) (concat-cons c String.[] s ∙ ap (λ t. String.◌∷◌ c t) (concat-nil s)))

pub split_colons-concat :
    (s t : String) → IsPlain s → split_colons (concat s (concat ":" t)) ≡ s ∷ split_colons t
unfolding split_colons
split_colons-concat String.[] t h = ap split_colons (
    concat-nil (concat ":" t)
    ∙ concat-cons ":" String.[] t
    ∙ ap (λ u. String.◌∷◌ ":" u) (concat-nil t))
split_colons-concat (String.◌∷◌ c s) t h =
    let head : nat_eq (code c) b':' ≡ false = ground arith in
    ap split_colons (concat-cons c s (concat ":" t))
    ∙ rw (head, split_colons-concat s t (ground arith))
        (ap (λ u. u ∷ split_colons t)
          (concat-cons c String.[] s ∙ ap (λ u. String.◌∷◌ c u) (concat-nil s)))

pub plain_of :
    (p : ℕ → Bool) (cs : List ℕ)
    → ((c : ℕ) → p c ≡ true → not (nat_eq c b':') ≡ true)
    → every p cs ≡ true
    → every (λ c. not (nat_eq c b':')) cs ≡ true
plain_of p [] f h = refl
plain_of p (c ∷ cs) f h = ground (arith, f c, plain_of p cs f)

units-append : (xs ys : List ℕ) → units (xs ++ ys) ≡ units xs + units ys
units-append [] ys = omega arith
units-append (x ∷ xs) ys = omega (arith, units-append xs ys)

pub units_of :
    (p : ℕ → Bool) (cs : List ℕ)
    → ((c : ℕ) → p c ≡ true → leb c 0xffff ≡ true)
    → every p cs ≡ true
    → units cs ≡ length cs
units_of p [] f h = refl
units_of p (c ∷ cs) f h = ground (arith, f c, units_of p cs f)

pub hash_is_plain :
    (c : ℕ) → is_hash_char c ≡ true → (not (nat_eq c b':') ≡ true) × (leb c 0xffff ≡ true)
hash_is_plain c h = ground arith

pub digit_is_plain :
    (c : ℕ) → between b'0' b'9' c ≡ true → (not (nat_eq c b':') ≡ true) × (leb c 0xffff ≡ true)
digit_is_plain c h = ground arith

pub units-concat : (s t : String) → units (codes (concat s t)) ≡ units (codes s) + units (codes t)
units-concat s t = ap units (codes-concat s t) ∙ units-append (codes s) (codes t)
