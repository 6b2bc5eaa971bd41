-- ===== src/Source/Freshness/Order.antt =====
-- The order of results by freshness is total.
use verify_agent.Prelude.{ℕ, String, true, List, [], ◌∷◌, ◌≡◌, refl, ◌↔◌, eq_iff, arith}
use verify_agent.Prelude.Text.{codes}
use verify_agent.Prelude.Sorting.{codes_le, str_le}
use verify_agent.Prelude.Ordering.{str_le-total, str_le_trans}
use verify_agent.Source.Freshness.{Freshness, older, same, newer, compare_freshness}
use Prim.Native.Char.{code}
use mathlib.Core.Path.{subst}
use text.Mathlib.TextEquality.{Char-path}

codes_le_antisym : (xs ys : List ℕ) → codes_le xs ys ≡ true → codes_le ys xs ≡ true → xs ≡ ys
codes_le_antisym [] [] h k = refl
codes_le_antisym [] (y ∷ ys) h k = absurd (ground arith)
codes_le_antisym (x ∷ xs) [] h k = absurd (ground arith)
codes_le_antisym (x ∷ xs) (y ∷ ys) h k = ground (arith, codes_le_antisym xs ys)

codes_inj : (s t : String) → codes s ≡ codes t → s ≡ t
codes_inj String.[] String.[] h = refl
codes_inj String.[] (String.◌∷◌ c t) h = absurd (ground arith)
codes_inj (String.◌∷◌ c s) String.[] h = absurd (ground arith)
codes_inj (String.◌∷◌ c s) (String.◌∷◌ d t) h =
    let same_char : code c ≡ code d = cc in
    let same_rest : codes s ≡ codes t = cc in
    rw (Char-path c d same_char, codes_inj s t same_rest) refl

str_le_antisym : (s t : String) → str_le s t ≡ true → str_le t s ≡ true → s ≡ t
unfolding str_le
str_le_antisym s t h k = codes_inj s t (codes_le_antisym (codes s) (codes t) h k)

same_freshness :
    (a b : Freshness) → a.created_at_ms ≡ b.created_at_ms → a.content_hash ≡ b.content_hash → a ≡ b
same_freshness a b m h i = record { created_at_ms = m i; content_hash = h i }

compare-eq-same : (a b : Freshness) → compare_freshness a b ≡ same → a ≡ b
unfolding compare_freshness
compare-eq-same a b h =
    same_freshness a b (ground (arith, eq_iff a.content_hash b.content_hash))
      (ground (arith, eq_iff a.content_hash b.content_hash))

same-compare : (a : Freshness) → compare_freshness a a ≡ same
unfolding compare_freshness
same-compare a = ground (arith, eq_iff a.content_hash a.content_hash)

module _ (a b : Freshness) where
  older-flipped : compare_freshness a b ≡ older → compare_freshness b a ≡ newer
  unfolding compare_freshness
  older-flipped h = ground (
    arith,
    eq_iff a.content_hash b.content_hash,
    eq_iff b.content_hash a.content_hash,
    str_le-total a.content_hash b.content_hash,
    str_le-total b.content_hash a.content_hash,
  )

  newer-flipped : compare_freshness b a ≡ newer → compare_freshness a b ≡ older
  unfolding compare_freshness
  newer-flipped h = ground (
    arith,
    eq_iff a.content_hash b.content_hash,
    eq_iff b.content_hash a.content_hash,
    str_le_antisym a.content_hash b.content_hash,
    str_le-total b.content_hash a.content_hash,
  )

older_trans :
    (a b c : Freshness)
    → compare_freshness a b ≡ older
    → compare_freshness b c ≡ older
    → compare_freshness a c ≡ older
unfolding compare_freshness
older_trans a b c h k = ground (
  arith,
  eq_iff a.content_hash b.content_hash,
  eq_iff b.content_hash c.content_hash,
  eq_iff a.content_hash c.content_hash,
  str_le-total b.content_hash a.content_hash,
  str_le_trans c.content_hash a.content_hash b.content_hash,
)

-- Two freshness values compare as `same` only when they are equal, and one is older than the other
-- exactly when the other is newer than it.
compare_freshness_total :
    (a b : Freshness)
    → ((compare_freshness a b ≡ same) ↔ (a ≡ b))
      × ((compare_freshness a b ≡ older) ↔ (compare_freshness b a ≡ newer))
compare_freshness_total a b = (
  (compare-eq-same a b, λ e. subst (λ z. compare_freshness a z ≡ same) e (same-compare a)),
  (older-flipped a b, newer-flipped a b),
)
