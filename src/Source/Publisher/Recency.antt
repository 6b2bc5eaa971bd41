-- ===== src/Source/Publisher/Recency.antt =====
-- `latestByKey` of packages/adapters-source/src/github-checks.ts: its bound, and that what is
-- remembered of a key is never replaced by an older result.
use mathlib.Core.Path.{subst}
use verify_agent.Prelude.{
  ℕ, zero, suc, ◌≤◌, ◌<◌, String, Bool, true, false, [], ◌∷◌, Option, none, some, Result, ok, throw,
  ◌≡◌, refl, ap, ◌⊎◌, inl, inr, is_some, Bool-cases, if◌then◌else◌, ◌==◌, ==_refl, eq_iff, arith,
}
use verify_agent.JsMap.{JsMap, get, delete, size}
use verify_agent.JsMap.Laws.{get-put, get-delete, size-put, size-delete-le, size-delete-lt}
use verify_agent.Json.{Number}
use verify_agent.Errors.{Error}
use verify_agent.Source.Freshness.{Freshness}
use verify_agent.Source.Publisher.{Config, Input, Prepared, prepare}
use verify_agent.Source.Publisher.Remote.{Client, World, Action, fail_if, ◌>>=◌, ◌>>◌}
use verify_agent.Source.Publisher.Publishing.{
  Publication, make_room, remember, remember_published, run_prepared, publish, is_stale, stale,
  publish_prepared,
}

size-delete-present :
    (k : String) (m : JsMap Freshness) → is_some (get k m) ≡ true → size (delete k m) < size m
unfolding get delete
size-delete-present k [] h = absurd (ground arith)
size-delete-present k ((j, f) ∷ m) h = ground (arith, size-delete-le k m, size-delete-present k m)

size-make_room :
    (fuel most : ℕ) (m : JsMap Freshness)
    → 1 ≤ most
    → size m ≤ fuel
    → size (make_room fuel most m) < most
unfolding make_room
size-make_room zero most [] one few = one
size-make_room zero most (e ∷ m) one few = absurd (omega arith)
size-make_room (suc fuel) most [] one few = ground arith
size-make_room (suc fuel) most ((j, f) ∷ m) one few =
    ground
      (arith, size-delete-lt j ((j, f) ∷ m) refl, size-make_room fuel most (delete j ((j, f) ∷ m)))

-- An eviction keeps an entry or drops it.
get-make_room :
    (fuel most : ℕ) (m : JsMap Freshness) (k : String)
    → (get k (make_room fuel most m) ≡ none) ⊎ (get k (make_room fuel most m) ≡ get k m)
unfolding make_room
get-make_room zero most m k = inr refl
get-make_room (suc fuel) most [] k = ground (arith, get-make_room fuel most [] k)
get-make_room (suc fuel) most ((j, f) ∷ m) k = ground (
  arith,
  get-make_room fuel most (delete j ((j, f) ∷ m)) k,
  get-delete j k ((j, f) ∷ m),
  eq_iff j k,
)

-- An entry of the later map was there before, or is not older than the one that was.
abbrev pub IsKept : JsMap Freshness → JsMap Freshness → String → Type 0
IsKept before after k =
    (get k after ≡ none)
    ⊎ (get k after ≡ get k before)
    ⊎ ((f : Freshness) × (get k after ≡ some f) × (is_stale f (get k before) ≡ false))

remember_bounded :
    (most : ℕ) (key : String) (f : Freshness) (m : JsMap Freshness)
    → 1 ≤ most
    → size m ≤ most
    → size (remember most key f m) ≤ most
unfolding remember
remember_bounded most key f m one few = elim (Bool-cases (is_some (get key m))) [
  | inl old ↦ ground (
    arith,
    size-put key f (delete key m),
    get-delete key key m,
    ==_refl key,
    size-delete-present key m old,
  )
  | inr new ↦ ground (
    arith,
    size-put key f (make_room (size m) most m),
    size-make_room (size m) most m one (omega arith),
  )
]

remember-IsKept :
    (most : ℕ) (key : String) (f : Freshness) (m : JsMap Freshness) (k : String)
    → is_stale f (get key m) ≡ false
    → IsKept m (remember most key f m) k
unfolding remember
remember-IsKept most key f m k fresh =
    let room = if is_some (get key m) then delete key m else make_room (size m) most m in
    elim (Bool-cases (key == k)) [
      | inl mine ↦ inr (
          inr (
            f,
            ground (arith, get-put key k f room),
            subst (λ z. is_stale f (get z m) ≡ false) ((eq_iff key k).0 mine) fresh,
          ))
      | inr other ↦
          ground (arith, get-put key k f room, get-delete key k m, get-make_room (size m) most m k)
    ]

-- A guard that let a call return held.
guarded :
    {W A B : Type 0} (c : Bool) (e : Error) (m : Action W A) (f : A → Action W B) (w : W) {b : B}
    → ((fail_if c e >> m >>= f) w).0 ≡ ok b
    → c ≡ false
unfolding ◌>>=◌
guarded true e m f w h = absurd (ground arith)
guarded false e m f w h = refl

module _ {R : Type 0} (client : Client R) (above : Number → Number → Bool) (config : Config)
    (date_parse : String → Option Number) where
  publish_prepared_fresh :
      (input : Input) (p : Prepared) (known : Option Freshness) (w : World R) {done : Publication}
      → (publish_prepared client above config input.repository p known w).0 ≡ ok done
      → is_stale p.freshness known ≡ false
  unfolding publish_prepared
  publish_prepared_fresh input p known w h = guarded (is_stale p.freshness known) stale _ _ w h

  -- A publication, failed or not, leaves at most the configured number of entries of freshness, and
  -- what it leaves of any key is what was there or is not older than that.
  pub publish-IsKept :
      (input : Input) (latest : JsMap Freshness) (w : World R) (k : String)
      → 1 ≤ config.max_freshness_entries
      → size latest ≤ config.max_freshness_entries
      → (size (publish client above config date_parse input latest w).1
          ≤ config.max_freshness_entries)
        × IsKept latest (publish client above config date_parse input latest w).1 k
  unfolding publish run_prepared remember_published
  publish-IsKept input latest w k one few = split (prepare date_parse config input)
    where
      Good : JsMap Freshness → Type 0
      Good after = (size after ≤ config.max_freshness_entries) × IsKept latest after k

      after :
          (p : Prepared) (out : Result Error Publication × World R)
          → publish_prepared client above config input.repository p (get p.key latest) w ≡ out
          → Good (remember_published config p latest out).1
      after p (ok done, next) e = (
        remember_bounded config.max_freshness_entries p.key p.freshness latest one few,
        remember-IsKept config.max_freshness_entries p.key p.freshness latest k
            (publish_prepared_fresh input p (get p.key latest) w (ap (λ o. o.0) e)),
      )
      after p (throw error, next) e = (few, inr (inl refl))

      split :
          (prepared : Result Error Prepared)
          → Good (run_prepared client above config input latest w prepared).1
      split (throw error) = (few, inr (inl refl))
      split (ok p) = after p _ refl
