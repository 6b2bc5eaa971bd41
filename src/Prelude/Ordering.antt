-- ===== src/Prelude/Ordering.antt =====
-- The order of texts by code points is total and transitive.
use verify_agent.Prelude.Text.{codes}
use verify_agent.Prelude.Sorting.{codes_le, str_le}
use Prim.Native.Nat.{ℕ}
use Prim.Native.String.{String}
use mathlib.Core.Path.{◌≡◌, refl}
use mathlib.Core.Bool.{true, false}
use mathlib.Core.List.{List, [], ◌∷◌}
use native.Mathlib.Omega.{arith}

codes_le-total : (xs ys : List ℕ) → codes_le xs ys ≡ false → codes_le ys xs ≡ true
codes_le-total [] ys h = absurd (ground arith)
codes_le-total (x ∷ xs) [] h = refl
codes_le-total (x ∷ xs) (y ∷ ys) h = ground (arith, codes_le-total xs ys)

codes_le_trans :
    (xs ys zs : List ℕ) → codes_le xs ys ≡ true → codes_le ys zs ≡ true → codes_le xs zs ≡ true
codes_le_trans [] ys zs h k = refl
codes_le_trans (x ∷ xs) [] zs h k = absurd (ground arith)
codes_le_trans (x ∷ xs) (y ∷ ys) [] h k = absurd (ground arith)
codes_le_trans (x ∷ xs) (y ∷ ys) (z ∷ zs) h k = ground (arith, codes_le_trans xs ys zs)

pub str_le-total : (s t : String) → str_le s t ≡ false → str_le t s ≡ true
unfolding str_le
str_le-total s t h = codes_le-total (codes s) (codes t) h

pub str_le_trans : (s t u : String) → str_le s t ≡ true → str_le t u ≡ true → str_le s u ≡ true
unfolding str_le
str_le_trans s t u h k = codes_le_trans (codes s) (codes t) (codes u) h k
