-- ===== src/JsMap.antt =====
-- JavaScript's `Map` with string keys: the entries in insertion order. `set` on a present key keeps
-- its place, as the language says.
pub mod Laws
use verify_agent.Prelude.{
  ℕ, String, Bool, List, [], ◌∷◌, map, Option, none, some, not, ◌==◌, if◌then◌else◌, length, filter,
}

abbrev pub JsMap {ℓ} : Type ℓ → Type ℓ
JsMap V = List (String × V)

module _ {ℓ} {V : Type ℓ} where
  unfoldable pub get : String → JsMap V → Option V
  get k [] = none
  get k ((j, v) ∷ m) = if j == k then some v else get k m

  unfoldable pub put : String → V → JsMap V → JsMap V
  put k v [] = (k, v) ∷ []
  put k v ((j, w) ∷ m) = if j == k then (j, v) ∷ m else (j, w) ∷ put k v m

  unfoldable pub delete : String → JsMap V → JsMap V
  delete k [] = []
  delete k ((j, w) ∷ m) = if j == k then delete k m else (j, w) ∷ delete k m

  -- The loop `for ([k, v] of map) if (test(v)) map.delete(k)`.
  unfoldable pub delete_where : (V → Bool) → JsMap V → JsMap V
  delete_where p [] = []
  delete_where p ((j, w) ∷ m) = if p w then delete_where p m else (j, w) ∷ delete_where p m

  abbrev pub keys : JsMap V → List String
  keys m = map (λ e. e.0) m

  abbrev pub size : JsMap V → ℕ
  size m = length m

  -- `map.keys().next().value`
  abbrev pub first_key : JsMap V → Option String
  first_key [] = none
  first_key ((j, w) ∷ m) = some j
