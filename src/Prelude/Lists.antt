-- ===== src/Prelude/Lists.antt =====
-- Arrays: the JavaScript methods that the program calls, over lists with native lengths.
use Prim.Native.Nat.{ℕ, suc, ◌+◌, ◌≤◌}
use Prim.Native.String.{String}
use mathlib.Core.Path.{◌≡◌, refl}
use mathlib.Core.Bool.{Bool, true, false, ◌&&◌, ◌||◌}
use mathlib.Core.Option.{Option, none, some}
use mathlib.Core.Logic.{◌⊎◌, inl, inr}
use mathlib.Core.List.{List, [], ◌∷◌, ◌++◌, map}
use native.Mathlib.Omega.{arith}
use text.Mathlib.TextEquality.{eq_iff}
use verify_agent.Prelude.Tests.{if◌then◌else◌, ◌==◌}

module _ {ℓ} {A : Type ℓ} where
  abbrev pub length : List A → ℕ
  length [] = 0
  length (x ∷ xs) = suc (length xs)

  abbrev pub is_empty : List A → Bool
  is_empty [] = true
  is_empty (x ∷ xs) = false

  -- `Array.prototype.filter`, with a Boolean test
  abbrev pub filter : (A → Bool) → List A → List A
  filter p [] = []
  filter p (x ∷ xs) = if p x then x ∷ filter p xs else filter p xs

  abbrev pub some_of : (A → Bool) → List A → Bool
  some_of p [] = false
  some_of p (x ∷ xs) = p x || some_of p xs

  abbrev pub every : (A → Bool) → List A → Bool
  every p [] = true
  every p (x ∷ xs) = p x && every p xs

  abbrev pub find : (A → Bool) → List A → Option A
  find p [] = none
  find p (x ∷ xs) = if p x then some x else find p xs

  abbrev pub All {κ} : (A → Type κ) → List A → Type κ
  All P [] = Unit
  All P (x ∷ xs) = P x × All P xs

  pub length-append : (xs ys : List A) → length (xs ++ ys) ≡ length xs + length ys
  length-append [] ys = omega arith
  length-append (x ∷ xs) ys = omega (arith, length-append xs ys)

  pub length-filter-le : (p : A → Bool) (xs : List A) → length (filter p xs) ≤ length xs
  length-filter-le p [] = omega arith
  length-filter-le p (x ∷ xs) = ground (arith, length-filter-le p xs)

  pub filter-append :
      (p : A → Bool) (xs ys : List A) → filter p (xs ++ ys) ≡ filter p xs ++ filter p ys
  filter-append p [] ys = refl
  filter-append p (x ∷ xs) ys = ground (arith, filter-append p xs ys)

  pub All-append {κ} : (P : A → Type κ) (xs ys : List A) → All P xs → All P ys → All P (xs ++ ys)
  All-append P [] ys hx hy = hy
  All-append P (x ∷ xs) ys hx hy = (hx.0, All-append P xs ys hx.1 hy)

  pub is_empty-filter :
      (p : A → Bool) (xs : List A) → is_empty (filter p xs) ≡ true → some_of p xs ≡ false
  is_empty-filter p [] h = refl
  is_empty-filter p (x ∷ xs) h = ground (arith, is_empty-filter p xs)

module _ {A : Type 0} where
  -- Membership by recursion: the position is part of it.
  abbrev pub In : A → List A → Type 0
  In a [] = ⊥
  In a (x ∷ xs) = (a ≡ x) ⊎ In a xs

  pub All-In {κ} : (P : A → Type κ) (a : A) (xs : List A) → All P xs → In a xs → P a
  All-In P a [] h m = absurd m
  All-In P a (x ∷ xs) h (inl e) = rw e h.0
  All-In P a (x ∷ xs) h (inr m) = All-In P a xs h.1 m

  pub All-of_In {κ} : (P : A → Type κ) (xs : List A) → ((a : A) → In a xs → P a) → All P xs
  All-of_In P [] h = tt
  All-of_In P (x ∷ xs) h = (h x (inl refl), All-of_In P xs (λ a m. h a (inr m)))

  pub In-append_left : (a : A) (xs ys : List A) → In a xs → In a (xs ++ ys)
  In-append_left a [] ys m = absurd m
  In-append_left a (x ∷ xs) ys (inl e) = inl e
  In-append_left a (x ∷ xs) ys (inr m) = inr (In-append_left a xs ys m)

  pub In-append_right : (a : A) (xs ys : List A) → In a ys → In a (xs ++ ys)
  In-append_right a [] ys m = m
  In-append_right a (x ∷ xs) ys m = inr (In-append_right a xs ys m)

  pub In-append : (a : A) (xs ys : List A) → In a (xs ++ ys) → In a xs ⊎ In a ys
  In-append a [] ys m = inr m
  In-append a (x ∷ xs) ys (inl e) = inl (inl e)
  In-append a (x ∷ xs) ys (inr m) = elim (In-append a xs ys m) [
    | inl h ↦ inl (inr h)
    | inr h ↦ inr h
  ]

  pub In-filter : (p : A → Bool) (a : A) (xs : List A) → In a (filter p xs) → In a xs × (p a ≡ true)
  In-filter p a [] m = absurd m
  In-filter p a (x ∷ xs) m = ground (arith, In-filter p a xs)

  pub In-filter_of :
      (p : A → Bool) (a : A) (xs : List A) → In a xs → p a ≡ true → In a (filter p xs)
  In-filter_of p a [] m h = absurd m
  In-filter_of p a (x ∷ xs) m h = ground (arith, In-filter_of p a xs)

  pub every-In : (p : A → Bool) (a : A) (xs : List A) → every p xs ≡ true → In a xs → p a ≡ true
  every-In p a [] h m = absurd m
  every-In p a (x ∷ xs) h m = ground (arith, every-In p a xs)

  pub every_of_In :
      (p : A → Bool) (xs : List A) → ((a : A) → In a xs → p a ≡ true) → every p xs ≡ true
  every_of_In p [] h = refl
  every_of_In p (x ∷ xs) h = rw (h x (inl refl)) (every_of_In p xs (λ a m. h a (inr m)))

  pub some_of-In : (p : A → Bool) (a : A) (xs : List A) → In a xs → p a ≡ true → some_of p xs ≡ true
  some_of-In p a [] m h = absurd m
  some_of-In p a (x ∷ xs) m h = ground (arith, some_of-In p a xs)

  pub In-of_some_of :
      (p : A → Bool) (xs : List A) → some_of p xs ≡ true → (a : A) × In a xs × (p a ≡ true)
  In-of_some_of p [] h = absurd (ground arith)
  In-of_some_of p (x ∷ xs) h = elim (Bool-split (p x)) [
    | inl e ↦ (x, inl refl, e)
    | inr e ↦ let (a, m, q) = In-of_some_of p xs (ground arith) in (a, inr m, q)
  ]
    where
      Bool-split : (b : Bool) → (b ≡ true) ⊎ (b ≡ false)
      Bool-split true = inl refl
      Bool-split false = inr refl

  pub find-In : (p : A → Bool) (a : A) (xs : List A) → find p xs ≡ some a → In a xs × (p a ≡ true)
  find-In p a [] h = absurd (ground arith)
  find-In p a (x ∷ xs) h = ground (arith, find-In p a xs)

  pub find-none : (p : A → Bool) (a : A) (xs : List A) → find p xs ≡ none → In a xs → p a ≡ false
  find-none p a [] h m = absurd m
  find-none p a (x ∷ xs) h m = ground (arith, find-none p a xs)

module _ {ℓ κ} {A : Type ℓ} {B : Type κ} where
  -- `Array.prototype.flatMap`
  abbrev pub flat_map : (A → List B) → List A → List B
  flat_map f [] = []
  flat_map f (x ∷ xs) = f x ++ flat_map f xs

  pub length-map : (f : A → B) (xs : List A) → length (map f xs) ≡ length xs
  length-map f [] = refl
  length-map f (x ∷ xs) = omega (arith, length-map f xs)

module _ {A B : Type 0} where
  pub In-map : (f : A → B) (a : A) (xs : List A) → In a xs → In (f a) (map f xs)
  In-map f a [] m = absurd m
  In-map f a (x ∷ xs) (inl e) = inl (rw e refl)
  In-map f a (x ∷ xs) (inr m) = inr (In-map f a xs m)

  pub In-of_map :
      (f : A → B) (b : B) (xs : List A) → In b (map f xs) → (a : A) × In a xs × (b ≡ f a)
  In-of_map f b [] m = absurd m
  In-of_map f b (x ∷ xs) (inl e) = (x, inl refl, e)
  In-of_map f b (x ∷ xs) (inr m) = let (a, i, e) = In-of_map f b xs m in (a, inr i, e)

  pub In-of_flat_map :
      (f : A → List B) (b : B) (xs : List A) → In b (flat_map f xs) → (a : A) × In a xs × In b (f a)
  In-of_flat_map f b [] m = absurd m
  In-of_flat_map f b (x ∷ xs) m = elim (In-append b (f x) (flat_map f xs) m) [
    | inl h ↦ (x, inl refl, h)
    | inr h ↦ let (a, i, q) = In-of_flat_map f b xs h in (a, inr i, q)
  ]

  pub In-flat_map :
      (f : A → List B) (a : A) (b : B) (xs : List A) → In a xs → In b (f a) → In b (flat_map f xs)
  In-flat_map f a b [] i m = absurd i
  In-flat_map f a b (x ∷ xs) (inl e) m = In-append_left b (f x) (flat_map f xs) (rw (← e) m)
  In-flat_map f a b (x ∷ xs) (inr i) m =
      In-append_right b (f x) (flat_map f xs) (In-flat_map f a b xs i m)

-- `Array.prototype.includes` on strings, and `Set.prototype.has`
abbrev pub includes : List String → String → Bool
includes xs k = some_of (λ x. x == k) xs

pub includes-In : (xs : List String) (k : String) → includes xs k ≡ true → In k xs
includes-In [] k h = absurd (ground arith)
includes-In (x ∷ xs) k h = ground (arith, eq_iff x k, includes-In xs k)

pub In-includes : (xs : List String) (k : String) → In k xs → includes xs k ≡ true
In-includes [] k m = absurd m
In-includes (x ∷ xs) k m = ground (arith, eq_iff x k, In-includes xs k)

-- Each string once.
abbrev pub NoDup : List String → Type 0
NoDup [] = Unit
NoDup (x ∷ xs) = (includes xs x ≡ false) × NoDup xs
