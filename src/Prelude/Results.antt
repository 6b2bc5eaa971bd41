-- ===== src/Prelude/Results.antt =====
-- A call that may throw: `throw` carries what was thrown.
use mathlib.Core.Path.{◌≡◌, refl}
use mathlib.Core.Logic.{◌⊎◌, inl, inr}
use mathlib.Core.Bool.{Bool, true, false}
use mathlib.Core.List.{List, [], ◌∷◌}
use native.Mathlib.Omega.{arith}
use verify_agent.Prelude.Lists.{All, In}

pub data Result {ℓ κ} (E : Type ℓ) (A : Type κ) : Type (ℓ ⊔ κ) where
  ok : A → Result E A
  throw : E → Result E A

module _ {ℓ κ} {E : Type ℓ} {A : Type κ} where
  infixl 5 ◌>>=◌ ◌>>◌
  abbrev pub ◌>>=◌ {μ} : {B : Type μ} → Result E A → (A → Result E B) → Result E B
  ok a >>= f = f a
  throw e >>= f = throw e

  abbrev pub ◌>>◌ {μ} : {B : Type μ} → Result E A → Result E B → Result E B
  m >> k = m >>= λ _. k

  abbrev pub is_ok : Result E A → Bool
  is_ok (ok a) = true
  is_ok (throw e) = false

  pub Result-cases : (r : Result E A) → ((a : A) × (r ≡ ok a)) ⊎ ((e : E) × (r ≡ throw e))
  Result-cases (ok a) = inl (a, refl)
  Result-cases (throw e) = inr (e, refl)

  pub ok-injective : {a b : A} → ◌≡◌ {A = Result E A} (ok a) (ok b) → a ≡ b
  ok-injective e = cc

  -- Inversion of a chain that returned.
  pub >>=-eq-ok {μ} :
      {B : Type μ} (call : Result E A) (rest : A → Result E B) {out : B}
      → (call >>= rest) ≡ ok out
      → (value : A) × (call ≡ ok value) × (rest value ≡ ok out)
  >>=-eq-ok (ok value) rest eq = (value, refl, eq)
  >>=-eq-ok (throw e) rest eq = ground arith

module _ {ℓ κ} {E : Type ℓ} {A : Type κ} where
  -- The same, handing what was returned to the rest of a proof.
  pub returns {μ ν} :
      {B : Type μ} {P : Type ν} (m : Result E A) (f : A → Result E B) {b : B}
      → (m >>= f) ≡ ok b
      → ((a : A) → m ≡ ok a → f a ≡ ok b → P)
      → P
  returns (ok a) f h k = k a refl h
  returns (throw e) f h k = absurd (ground arith)

-- `if (!test) throw error`
abbrev pub ensure {ℓ} : {E : Type ℓ} → Bool → E → Result E (Unit {0})
ensure true e = ok tt
ensure false e = throw e

-- The guards of a chain that returned held.
pub ensured {ℓ κ} :
    {E : Type ℓ} {B : Type κ} (e : E) (b : Bool) (rest : Result E B) {out : B}
    → (ensure b e >> rest) ≡ ok out
    → (b ≡ true) × (rest ≡ ok out)
ensured e true rest h = (refl, h)
ensured e false rest h = absurd (ground arith)

-- `if (test) throw error`
abbrev pub reject_if {ℓ} : {E : Type ℓ} → Bool → E → Result E (Unit {0})
reject_if false e = ok tt
reject_if true e = throw e

-- A guard alone that returned.
pub ensure_holds {ℓ} : {E : Type ℓ} (b : Bool) (e : E) (u : Unit {0}) → ensure b e ≡ ok u → b ≡ true
ensure_holds true e u h = refl
ensure_holds false e u h = absurd (ground arith)

pub reject_if_fails {ℓ} :
    {E : Type ℓ} (b : Bool) (e : E) (u : Unit {0}) → reject_if b e ≡ ok u → b ≡ false
reject_if_fails false e u h = refl
reject_if_fails true e u h = absurd (ground arith)

module _ {ℓ κ μ} {E : Type ℓ} {A : Type κ} {B : Type μ} where
  -- `for (const x of xs) f(x)`, or `xs.map(f)`, where `f` may throw
  abbrev pub traverse : (A → Result E B) → List A → Result E (List B)
  traverse f [] = ok []
  traverse f (x ∷ xs) = f x >>= λ y. traverse f xs >>= λ ys. ok (y ∷ ys)

module _ {E A B : Type 0} where
  pub traverse-All :
      (f : A → Result E B) (xs : List A) (ys : List B)
      → traverse f xs ≡ ok ys
      → All (λ x. (y : B) × (f x ≡ ok y) × In y ys) xs
  traverse-All f [] ys h = tt
  traverse-All f (x ∷ xs) ys h =
      let (y, ey, h1) = >>=-eq-ok (f x) _ h in
      let (zs, ez, h2) = >>=-eq-ok (traverse f xs) _ h1 in
      ((y, ey, ground arith), widen y zs xs (ground arith) (traverse-All f xs zs ez))
    where
      widen :
          (y : B) (zs : List B) (ws : List A)
          → ys ≡ y ∷ zs
          → All (λ w. (v : B) × (f w ≡ ok v) × In v zs) ws
          → All (λ w. (v : B) × (f w ≡ ok v) × In v ys) ws
      widen y zs [] e a = tt
      widen y zs (w ∷ ws) e ((v, ev, m), a) = ((v, ev, rw e (inr m)), widen y zs ws e a)
