-- ===== src/Prelude/Sorting.antt =====
-- `Array.prototype.sort`, which is stable, as insertion; and `[...new Set(values)].sort()`. The
-- order of a plain `sort()` is UTF-16's: code points give the same order on texts without
-- surrogate pairs.
use Prim.Native.Nat.{ℕ, suc, ◌≤◌}
use Prim.Native.String.{String}
use mathlib.Core.Path.{◌≡◌, refl, sym, ◌∙◌}
use mathlib.Core.Bool.{Bool, true, false, ◌&&◌, ◌||◌, not}
use mathlib.Core.List.{List, [], ◌∷◌}
use mathlib.Core.Logic.{◌⊎◌, inl, inr}
use native.Mathlib.Omega.{arith}
use text.Mathlib.TextEquality.{eq_iff}
use verify_agent.Prelude.Tests.{ltb, nat_eq, if◌then◌else◌, ◌==◌}
use verify_agent.Prelude.Lists.{filter, includes, NoDup, In, length, length-filter-le}
use verify_agent.Prelude.Text.{codes}

abbrev pub codes_le : List ℕ → List ℕ → Bool
codes_le [] ys = true
codes_le (x ∷ xs) [] = false
codes_le (x ∷ xs) (y ∷ ys) = ltb x y || (nat_eq x y && codes_le xs ys)

-- `a <= b` on strings
unfoldable pub str_le : String → String → Bool
str_le a b = codes_le (codes a) (codes b)

module _ {ℓ} {A : Type ℓ} (le : A → A → Bool) where
  unfoldable pub insert : A → List A → List A
  insert x [] = x ∷ []
  insert x (y ∷ ys) = if le x y then x ∷ y ∷ ys else y ∷ insert x ys

  unfoldable pub sort_by : List A → List A
  unfolding insert
  sort_by [] = []
  sort_by (x ∷ xs) = insert x (sort_by xs)

module _ {A : Type 0} (le : A → A → Bool) where
  In-insert_head : (x : A) (ys : List A) → In x (insert le x ys)
  unfolding insert
  In-insert_head x [] = inl refl
  In-insert_head x (y ∷ ys) = ground (arith, In-insert_head x ys)

  In-insert_tail : (x a : A) (ys : List A) → In a ys → In a (insert le x ys)
  unfolding insert
  In-insert_tail x a [] m = absurd m
  In-insert_tail x a (y ∷ ys) m = ground (arith, In-insert_tail x a ys)

  In-of_insert : (x a : A) (ys : List A) → In a (insert le x ys) → (a ≡ x) ⊎ In a ys
  unfolding insert
  In-of_insert x a [] m = m
  In-of_insert x a (y ∷ ys) m = ground (arith, In-of_insert x a ys)

  pub In-sort_by : (a : A) (xs : List A) → In a xs → In a (sort_by le xs)
  unfolding sort_by
  In-sort_by a [] m = m
  In-sort_by a (x ∷ xs) (inl e) = rw e (In-insert_head x (sort_by le xs))
  In-sort_by a (x ∷ xs) (inr m) = In-insert_tail x a (sort_by le xs) (In-sort_by a xs m)

  pub In-of_sort_by : (a : A) (xs : List A) → In a (sort_by le xs) → In a xs
  unfolding sort_by
  In-of_sort_by a [] m = m
  In-of_sort_by a (x ∷ xs) m = elim (In-of_insert x a (sort_by le xs) m) [
    | inl e ↦ inl e
    | inr i ↦ inr (In-of_sort_by a xs i)
  ]

module _ {ℓ} {A : Type ℓ} (le : A → A → Bool) where
  length-insert : (x : A) (ys : List A) → length (insert le x ys) ≡ suc (length ys)
  unfolding insert
  length-insert x [] = refl
  length-insert x (y ∷ ys) = ground (arith, length-insert x ys)

  pub length-sort_by : (xs : List A) → length (sort_by le xs) ≡ length xs
  unfolding sort_by
  length-sort_by [] = refl
  length-sort_by (x ∷ xs) = omega (arith, length-insert x (sort_by le xs), length-sort_by xs)

-- `[...new Set(values)]`: the first of each
unfoldable pub uniq : List String → List String
uniq [] = []
uniq (x ∷ xs) = x ∷ filter (λ y. not (y == x)) (uniq xs)

unfoldable pub unique_sorted : List String → List String
unfolding uniq sort_by str_le
unique_sorted xs = sort_by str_le (uniq xs)

includes-drop :
    (x k : String) (xs : List String)
    → includes (filter (λ y. not (y == x)) xs) k ≡ (includes xs k && not (x == k))
includes-drop x k [] = refl
includes-drop x k (y ∷ ys) =
    ground (arith, eq_iff y x, eq_iff y k, eq_iff x k, includes-drop x k ys)

includes-uniq : (k : String) (xs : List String) → includes (uniq xs) k ≡ includes xs k
unfolding uniq
includes-uniq k [] = refl
includes-uniq k (x ∷ xs) =
    ground (arith, eq_iff x k, includes-drop x k (uniq xs), includes-uniq k xs)

NoDup-filter : (p : String → Bool) (xs : List String) → NoDup xs → NoDup (filter p xs)
NoDup-filter p [] h = tt
NoDup-filter p (x ∷ xs) h = ground (arith, NoDup-filter p xs h.1, absent x xs h.0)
  where
    absent :
        (k : String) (ys : List String) → includes ys k ≡ false → includes (filter p ys) k ≡ false
    absent k [] e = refl
    absent k (y ∷ ys) e = ground (arith, absent k ys)

NoDup-uniq : (xs : List String) → NoDup (uniq xs)
unfolding uniq
NoDup-uniq [] = tt
NoDup-uniq (x ∷ xs) = (
  ground (arith, includes-drop x x (uniq xs), eq_iff x x),
  NoDup-filter _ (uniq xs) (NoDup-uniq xs),
)

includes-insert :
    (le : String → String → Bool) (x k : String) (ys : List String)
    → includes (insert le x ys) k ≡ ((x == k) || includes ys k)
unfolding insert
includes-insert le x k [] = refl
includes-insert le x k (y ∷ ys) = ground (arith, includes-insert le x k ys)

pub includes-sort_by :
    (le : String → String → Bool) (k : String) (xs : List String)
    → includes (sort_by le xs) k ≡ includes xs k
unfolding sort_by
includes-sort_by le k [] = refl
includes-sort_by le k (x ∷ xs) =
    ground (arith, includes-insert le x k (sort_by le xs), includes-sort_by le k xs)

NoDup-insert :
    (le : String → String → Bool) (x : String) (ys : List String)
    → includes ys x ≡ false
    → NoDup ys
    → NoDup (insert le x ys)
unfolding insert
NoDup-insert le x [] e h = (refl, tt)
NoDup-insert le x (y ∷ ys) e h =
    ground (arith, NoDup-insert le x ys, includes-insert le x y ys, eq_iff x y, eq_iff y x)

pub NoDup-sort_by :
    (le : String → String → Bool) (xs : List String) → NoDup xs → NoDup (sort_by le xs)
unfolding sort_by
NoDup-sort_by le [] h = tt
NoDup-sort_by le (x ∷ xs) h =
    NoDup-insert le x (sort_by le xs) (includes-sort_by le x xs ∙ h.0) (NoDup-sort_by le xs h.1)

-- The result has the same members, each once.
pub includes-unique_sorted :
    (k : String) (xs : List String) → includes (unique_sorted xs) k ≡ includes xs k
unfolding unique_sorted
includes-unique_sorted k xs = includes-sort_by str_le k (uniq xs) ∙ includes-uniq k xs

pub NoDup-unique_sorted : (xs : List String) → NoDup (unique_sorted xs)
unfolding unique_sorted
NoDup-unique_sorted xs = NoDup-sort_by str_le (uniq xs) (NoDup-uniq xs)

-- A list that loses nothing by removing repetitions has none.
length-uniq-le : (xs : List String) → length (uniq xs) ≤ length xs
unfolding uniq
length-uniq-le [] = omega arith
length-uniq-le (x ∷ xs) =
    omega (arith, length-uniq-le xs, length-filter-le (λ y. not (y == x)) (uniq xs))

filter-full :
    (x : String) (ys : List String)
    → length (filter (λ y. not (y == x)) ys) ≡ length ys
    → includes ys x ≡ false
filter-full x [] h = refl
filter-full x (y ∷ ys) h =
    let less = length-filter-le (λ z. not (z == x)) ys in ground (arith, filter-full x ys)

pub NoDup-of_uniq : (xs : List String) → length (uniq xs) ≡ length xs → NoDup xs
unfolding uniq
NoDup-of_uniq [] h = tt
NoDup-of_uniq (x ∷ xs) h =
    let less = length-uniq-le xs in
    let fewer = length-filter-le (λ y. not (y == x)) (uniq xs) in
    (
      sym (includes-uniq x xs) ∙ filter-full x (uniq xs) (omega arith),
      NoDup-of_uniq xs (omega arith),
    )

sorted_once : unique_sorted ("b" ∷ "a" ∷ "b" ∷ "ab" ∷ []) ≡ "a" ∷ "ab" ∷ "b" ∷ []
unfolding unique_sorted
sorted_once = refl
