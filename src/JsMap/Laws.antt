-- ===== src/JsMap/Laws.antt =====
-- The laws of `Map`.
use verify_agent.Prelude.{
  suc, ◌≤◌, ◌<◌, String, Bool, false, [], ◌∷◌, Option, none, some, not, ◌≡◌, refl, ◌==◌,
  if◌then◌else◌, eq_iff, arith, includes, NoDup, is_some, ◌&&◌, ◌||◌,
}
use verify_agent.JsMap.{JsMap, get, put, delete, delete_where, keys, size, first_key}

module _ {ℓ} {V : Type ℓ} where
  pub get-put :
      (k j : String) (v : V) (m : JsMap V)
      → get j (put k v m) ≡ (if k == j then some v else get j m)
  unfolding get put
  get-put k j v [] = refl
  get-put k j v ((i, w) ∷ m) = ground (arith, eq_iff k j, eq_iff i k, eq_iff i j, get-put k j v m)

  pub get-delete :
      (k j : String) (m : JsMap V) → get j (delete k m) ≡ (if k == j then none else get j m)
  unfolding get delete
  get-delete k j [] = ground arith
  get-delete k j ((i, w) ∷ m) = ground (arith, eq_iff k j, eq_iff i k, eq_iff i j, get-delete k j m)

  -- A key is present exactly if it is looked up with success.
  pub includes-keys : (k : String) (m : JsMap V) → includes (keys m) k ≡ is_some (get k m)
  unfolding get
  includes-keys k [] = refl
  includes-keys k ((i, w) ∷ m) = ground (arith, includes-keys k m)

  pub includes-keys-put :
      (k j : String) (v : V) (m : JsMap V)
      → includes (keys (put k v m)) j ≡ ((k == j) || includes (keys m) j)
  unfolding put
  includes-keys-put k j v [] = refl
  includes-keys-put k j v ((i, w) ∷ m) =
      ground (arith, eq_iff k j, eq_iff i k, eq_iff i j, includes-keys-put k j v m)

  pub includes-keys-delete :
      (k j : String) (m : JsMap V)
      → includes (keys (delete k m)) j ≡ (includes (keys m) j && not (k == j))
  unfolding delete
  includes-keys-delete k j [] = refl
  includes-keys-delete k j ((i, w) ∷ m) =
      ground (arith, eq_iff k j, eq_iff i k, eq_iff i j, includes-keys-delete k j m)

  pub NoDup-put : (k : String) (v : V) (m : JsMap V) → NoDup (keys m) → NoDup (keys (put k v m))
  unfolding put
  NoDup-put k v [] h = (refl, tt)
  NoDup-put k v ((i, w) ∷ m) h =
      ground (arith, eq_iff i k, eq_iff k i, includes-keys-put k i v m, NoDup-put k v m h.1)

  pub NoDup-delete : (k : String) (m : JsMap V) → NoDup (keys m) → NoDup (keys (delete k m))
  unfolding delete
  NoDup-delete k [] h = tt
  NoDup-delete k ((i, w) ∷ m) h = ground (arith, includes-keys-delete k i m, NoDup-delete k m h.1)

  includes-keys-delete_where :
      (p : V → Bool) (j : String) (m : JsMap V)
      → includes (keys m) j ≡ false
      → includes (keys (delete_where p m)) j ≡ false
  unfolding delete_where
  includes-keys-delete_where p j [] h = refl
  includes-keys-delete_where p j ((i, w) ∷ m) h = ground (arith, includes-keys-delete_where p j m)

  pub NoDup-delete_where :
      (p : V → Bool) (m : JsMap V) → NoDup (keys m) → NoDup (keys (delete_where p m))
  unfolding delete_where
  NoDup-delete_where p [] h = tt
  NoDup-delete_where p ((i, w) ∷ m) h =
      ground (arith, includes-keys-delete_where p i m, NoDup-delete_where p m h.1)

  -- What `delete_where` leaves of a value.
  abbrev pub keep : (V → Bool) → Option V → Option V
  keep p none = none
  keep p (some v) = if p v then none else some v

  get-absent :
      (p : V → Bool) (k : String) (m : JsMap V)
      → includes (keys m) k ≡ false
      → get k (delete_where p m) ≡ none
  unfolding get delete_where
  get-absent p k [] h = refl
  get-absent p k ((i, w) ∷ m) h = ground (arith, get-absent p k m)

  pub get-delete_where :
      (p : V → Bool) (k : String) (m : JsMap V)
      → NoDup (keys m)
      → get k (delete_where p m) ≡ keep p (get k m)
  unfolding get delete_where
  get-delete_where p k [] h = refl
  get-delete_where p k ((i, w) ∷ m) h =
      ground (arith, eq_iff i k, get-absent p k m, get-delete_where p k m h.1)

  pub size-put :
      (k : String) (v : V) (m : JsMap V)
      → size (put k v m) ≡ (if is_some (get k m) then size m else suc (size m))
  unfolding get put
  size-put k v [] = refl
  size-put k v ((i, w) ∷ m) = ground (arith, eq_iff i k, size-put k v m)

  pub size-delete-le : (k : String) (m : JsMap V) → size (delete k m) ≤ size m
  unfolding delete
  size-delete-le k [] = omega arith
  size-delete-le k ((i, w) ∷ m) = ground (arith, size-delete-le k m)

  -- The first key of a map that was not empty is not the key that is new.
  pub first_key-put :
      (k j : String) (v : V) (m : JsMap V)
      → 1 ≤ size m
      → is_some (get k m) ≡ false
      → first_key (put k v m) ≡ some j
      → (j == k) ≡ false
  unfolding get put
  first_key-put k j v [] h absent e = absurd (omega arith)
  first_key-put k j v ((i, w) ∷ m) h absent e = ground arith

  pub size-delete-lt :
      (k : String) (m : JsMap V) → first_key m ≡ some k → size (delete k m) < size m
  unfolding delete
  size-delete-lt k [] e = absurd (ground arith)
  size-delete-lt k ((i, w) ∷ m) e = ground (arith, eq_iff i k, size-delete-le k m)
