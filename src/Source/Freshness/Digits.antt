-- ===== src/Source/Freshness/Digits.antt =====
-- The digits of the instant in a freshness marker.
use Prim.Native.Char.{code}
use Prim.Native.String.{◌++◌ as concat}
use Prim.Native.String.append as Append
use mathlib.Core.Path.{subst}
use verify_agent.Prelude.{
  ℕ, zero, suc, ◌+◌, ◌*◌, ◌-◌, ◌/◌, ◌%◌, ◌≤◌, ◌<◌, String, Bool, true, ◌&&◌, List, [], ◌∷◌, ◌++◌,
  ltb, every, length, length-append, ◌≡◌, refl, sym, ap, ◌∙◌, arith, Bool-cases, inl, inr,
}
use verify_agent.Prelude.Text.{codes, between, decimal_within, digit}
use verify_agent.Source.Freshness.{value_of}

pub concat-nil : (t : String) → concat String.[] t ≡ t
concat-nil t = λ i. Append.nil t i

pub concat-cons :
    (c : Prim.Native.Char.Char) (s t : String)
    → concat (String.◌∷◌ c s) t ≡ String.◌∷◌ c (concat s t)
concat-cons c s t = λ i. Append.cons c s t i

pub codes-concat : (s t : String) → codes (concat s t) ≡ codes s ++ codes t
codes-concat String.[] t = ap codes (concat-nil t)
codes-concat (String.◌∷◌ c s) t =
    ap codes (concat-cons c s t) ∙ ap (λ cs. code c ∷ cs) (codes-concat s t)

codes-digit : (d : ℕ) → d < 10 → codes (digit d) ≡ (b'0' + d) ∷ []
codes-digit zero h = refl
codes-digit (suc zero) h = refl
codes-digit (suc (suc zero)) h = refl
codes-digit (suc (suc (suc zero))) h = refl
codes-digit (suc (suc (suc (suc zero)))) h = refl
codes-digit (suc (suc (suc (suc (suc zero))))) h = refl
codes-digit (suc (suc (suc (suc (suc (suc zero)))))) h = refl
codes-digit (suc (suc (suc (suc (suc (suc (suc zero))))))) h = refl
codes-digit (suc (suc (suc (suc (suc (suc (suc (suc zero)))))))) h = refl
codes-digit (suc (suc (suc (suc (suc (suc (suc (suc (suc zero))))))))) h = refl
codes-digit (suc (suc (suc (suc (suc (suc (suc (suc (suc (suc d)))))))))) h = absurd (omega arith)

value_of-append :
    (n c : ℕ) (cs : List ℕ) → value_of n (cs ++ c ∷ []) ≡ value_of n cs * 10 + (c - b'0')
unfolding value_of
value_of-append n c [] = refl
value_of-append n c (d ∷ cs) = value_of-append (n * 10 + (d - b'0')) c cs

every-append : (p : ℕ → Bool) (xs ys : List ℕ) → every p (xs ++ ys) ≡ (every p xs && every p ys)
every-append p [] ys = refl
every-append p (x ∷ xs) ys = ground (arith, every-append p xs ys)

abbrev pow10 : ℕ → ℕ
pow10 zero = 1
pow10 (suc k) = 10 * pow10 k

-- The digits of a number: their value, that they are digits, and how many they are.
abbrev IsDecimal : ℕ → ℕ → List ℕ → Type 0
IsDecimal k n cs =
    (value_of 0 cs ≡ n)
    × (every (between b'0' b'9') cs ≡ true)
    × (1 ≤ length cs)
    × (n < pow10 (suc k) → length cs ≤ suc k)

one_digit : (k d : ℕ) → d < 10 → IsDecimal k d ((b'0' + d) ∷ [])
unfolding value_of
one_digit k d h = (ground arith, ground arith, omega arith, λ _. omega arith)

longer :
    (k n d : ℕ) (cs : List ℕ)
    → 1 ≤ n
    → ((j : ℕ) → n < pow10 (suc j) → length cs ≤ suc j)
    → n * 10 + d < pow10 (suc k)
    → suc (length cs) ≤ suc k
longer zero n d cs one all h = absurd (omega arith)
longer (suc j) n d cs one all h = let s = all j (omega arith) in omega arith

more_digits :
    (k n d : ℕ) (cs : List ℕ)
    → d < 10
    → 1 ≤ n
    → ((j : ℕ) → IsDecimal j n cs)
    → IsDecimal k (n * 10 + d) (cs ++ (b'0' + d) ∷ [])
more_digits k n d cs h one all =
    let (value, digits, some_digit, few) = all 0 in
    let grown = length-append cs ((b'0' + d) ∷ []) in
    (
      value_of-append 0 (b'0' + d) cs ∙ omega arith,
      every-append (between b'0' b'9') cs ((b'0' + d) ∷ []) ∙ ground arith,
      omega arith,
      λ small. let l = longer k n d cs one (λ j. (all j).3) small in omega arith,
    )

pub IsDecimal-within : (fuel k n : ℕ) → n ≤ fuel → IsDecimal k n (codes (decimal_within fuel n))
unfolding decimal_within
IsDecimal-within zero k n h =
    let e : n ≡ 0 = omega arith in
    rw e (rw (codes-digit 0 (omega arith)) (one_digit k 0 (omega arith)))
IsDecimal-within (suc fuel) k n h = elim (Bool-cases (ltb n 10)) [
  | inl e ↦
      let small : n < 10 = ground arith in
      rw e (subst (IsDecimal k n) (sym (codes-digit n small)) (one_digit k n small))
  | inr e ↦
      let large : 10 ≤ n = ground arith in
      let split : n ≡ n / 10 * 10 + n % 10 = omega arith in
      let last = codes-digit (n % 10) (omega arith) in
      let joined : codes (concat (decimal_within fuel (n / 10)) (digit (n % 10)))
          ≡ codes (decimal_within fuel (n / 10)) ++ (b'0' + n % 10) ∷ [] =
        codes-concat (decimal_within fuel (n / 10)) (digit (n % 10))
        ∙ ap (λ cs. codes (decimal_within fuel (n / 10)) ++ cs) last in
      let all =
        more_digits k (n / 10) (n % 10) (codes (decimal_within fuel (n / 10))) (omega arith)
          (omega arith) (λ j. IsDecimal-within fuel j (n / 10) (omega arith)) in
      rw e (
        subst (λ cs. IsDecimal k n cs) (sym joined)
          (subst (λ m. IsDecimal k m (codes (decimal_within fuel (n / 10)) ++ (b'0' + n % 10) ∷ []))
            (sym split) all))
]
