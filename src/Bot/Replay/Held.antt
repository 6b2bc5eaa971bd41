-- ===== src/Bot/Replay/Held.antt =====
-- What keeps a delivery reserved in the replay guard.
use verify_agent.Prelude.{
  ℕ, zero, suc, ◌+◌, ◌≤◌, String, Bool, true, false, List, [], ◌∷◌, some, ◌≡◌, refl, ap, ◌∙◌, arith,
  eq_iff, ◌==◌, is_some, if◌then◌else◌, Bool-cases, inl, inr, NoDup, length, includes, some_of,
}
use verify_agent.JsMap.{get, put, delete_where, keys, size}
use verify_agent.JsMap.Laws.{
  get-put, get-delete, get-delete_where, keep, NoDup-put, NoDup-delete, NoDup-delete_where,
  size-put, size-delete-le,
}
use verify_agent.Bot.Replay.{
  Entry, reserved, until, Guard, is_expired, prune, trim, reserve, commit, rollback, is_reserved,
}

size-delete_where-le : (p : Entry → Bool) (m : Guard) → size (delete_where p m) ≤ size m
unfolding delete_where
size-delete_where-le p [] = omega arith
size-delete_where-le p ((k, v) ∷ m) = ground (arith, size-delete_where-le p m)

trim-stop : (fuel max_entries : ℕ) (m : Guard) → size m ≤ max_entries → trim fuel max_entries m ≡ m
unfolding trim
trim-stop zero max_entries m h = refl
trim-stop (suc fuel) max_entries m h = ground arith

-- Within the bound, pruning only drops what has expired.
pub prune-eq :
    (max_entries now : ℕ) (m : Guard)
    → size m ≤ max_entries
    → prune max_entries now m ≡ delete_where (is_expired now) m
unfolding prune
prune-eq max_entries now m h =
    let live = delete_where (is_expired now) m in
    trim-stop (size live) max_entries live (omega (arith, size-delete_where-le (is_expired now) m))

-- The operations of the guard, with the time of the call.
pub data Call : Type 0 where
  reserving : ℕ → String → Call
  committing : ℕ → String → Call
  rolling_back : String → Call

-- Whether the call reserved a delivery, and the guard after it.
unfoldable pub answer : ℕ → ℕ → Call → Guard → Bool × Guard
unfolding reserve commit rollback
answer max_entries ttl (reserving now id) m = reserve max_entries ttl now id m
answer max_entries ttl (committing now id) m = (false, commit max_entries ttl now id m)
answer max_entries ttl (rolling_back id) m = (false, rollback id m)

-- How often a delivery is reserved in a history, as the identifiers of the calls that reserved.
unfoldable pub run : ℕ → ℕ → List Call → Guard → List String
unfolding answer
run max_entries ttl [] m = []
run max_entries ttl (call ∷ calls) m =
    let first = answer max_entries ttl call m in
    let rest = run max_entries ttl calls first.1 in if first.0 then subject call ∷ rest else rest
  where
    subject : Call → String
    subject (reserving now id) = id
    subject (committing now id) = id
    subject (rolling_back id) = id

-- A call that gives up the reservation, or turns it into one that expires.
abbrev pub ends : String → Call → Bool
ends id (reserving now other) = false
ends id (committing now other) = other == id
ends id (rolling_back other) = other == id

-- What an entry is, as long as no call touches it: the value of its key, each key once.
pub record IsHeld (id : String) (kept : Entry) (m : Guard) : Type 0 where
  pub held : get id m ≡ some kept
  pub once : NoDup (keys m)

abbrev pub IsReserved : String → Guard → Type 0
IsReserved id m = IsHeld id reserved m

kept-live :
    (now : ℕ) (kept : Entry)
    → is_expired now kept ≡ false
    → keep (is_expired now) (some kept) ≡ some kept
kept-live now kept h = rw h refl

module _ (max_entries ttl : ℕ) where
  prune-IsHeld :
      (now : ℕ) (id : String) (kept : Entry) (m : Guard)
      → size m ≤ max_entries
      → is_expired now kept ≡ false
      → IsHeld id kept m
      → IsHeld id kept (prune max_entries now m)
  prune-IsHeld now id kept m h live r = rw (prune-eq max_entries now m h) (record {
    held =
        get-delete_where (is_expired now) id m r.once
        ∙ ap (keep (is_expired now)) r.held
        ∙ kept-live now kept live;
    once = NoDup-delete_where (is_expired now) m r.once;
  })

  put-IsHeld :
      (id other : String) (kept e : Entry) (m : Guard)
      → (other == id) ≡ false
      → IsHeld id kept m
      → IsHeld id kept (put other e m)
  put-IsHeld id other kept e m apart r = record {
    held = get-put other id e m ∙ rw apart r.held;
    once = NoDup-put other e m r.once;
  }

  pub reserve-IsHeld :
      (now : ℕ) (id other : String) (kept : Entry) (m : Guard)
      → size m ≤ max_entries
      → is_expired now kept ≡ false
      → IsHeld id kept m
      → IsHeld id kept (reserve max_entries ttl now other m).1
        × (size (reserve max_entries ttl now other m).1 ≤ suc (size m))
        × ((other == id) ≡ true → (reserve max_entries ttl now other m).0 ≡ false)
  unfolding reserve
  reserve-IsHeld now id other kept m h live r =
      let pruned = prune max_entries now m in
      let p = prune-IsHeld now id kept m h live r in
      let smaller : size pruned ≤ size m =
        rw (prune-eq max_entries now m h) (size-delete_where-le (is_expired now) m) in
      elim (Bool-cases (is_some (get other pruned))) [
        | inl e ↦ rw e (p, omega arith, λ _. refl)
        | inr e ↦
            let apart : (other == id) ≡ false = ground (arith, eq_iff other id, p.held) in
            let grown = size-put other reserved pruned in
            rw e (
              put-IsHeld id other kept reserved pruned apart p,
              ground arith,
              λ same. absurd (ground arith),
            )
      ]

  pub commit-IsHeld :
      (now : ℕ) (id other : String) (kept : Entry) (m : Guard)
      → (other == id) ≡ false
      → IsHeld id kept m
      → IsHeld id kept (commit max_entries ttl now other m)
        × (size (commit max_entries ttl now other m) ≤ size m)
  unfolding commit
  commit-IsHeld now id other kept m apart r = elim (Bool-cases (is_reserved (get other m))) [
    | inl e ↦
        let grown = size-put other (until (now + ttl)) m in
        let present : is_some (get other m) ≡ true = ground arith in
        rw e (put-IsHeld id other kept (until (now + ttl)) m apart r, ground arith)
    | inr e ↦ rw e (r, omega arith)
  ]

  pub rollback-IsHeld :
      (id other : String) (kept : Entry) (m : Guard)
      → (other == id) ≡ false
      → IsHeld id kept m
      → IsHeld id kept (rollback other m) × (size (rollback other m) ≤ size m)
  unfolding rollback
  rollback-IsHeld id other kept m apart r = elim (Bool-cases (is_reserved (get other m))) [
    | inl e ↦ rw e (
      record { held = get-delete other id m ∙ rw apart r.held; once = NoDup-delete other m r.once },
      size-delete-le other m,
    )
    | inr e ↦ rw e (r, omega arith)
  ]

  pub run-held :
      (calls : List Call) (id : String) (m : Guard)
      → IsReserved id m
      → size m + length calls ≤ suc max_entries
      → some_of (ends id) calls ≡ false
      → includes (run max_entries ttl calls m) id ≡ false
  unfolding run answer
  run-held [] id m r h free = refl
  run-held (reserving now other ∷ calls) id m r h free =
      let (next, small, refused) = reserve-IsHeld now id other reserved m (omega arith) refl r in
      let rest =
        run-held calls id (reserve max_entries ttl now other m).1 next (omega arith)
          (ground arith) in
      ground (arith, refused)
  run-held (committing now other ∷ calls) id m r h free =
      let (next, small) = commit-IsHeld now id other reserved m (ground arith) r in
      run-held calls id (commit max_entries ttl now other m) next (omega arith) (ground arith)
  run-held (rolling_back other ∷ calls) id m r h free =
      let (next, small) = rollback-IsHeld id other reserved m (ground arith) r in
      run-held calls id (rollback other m) next (omega arith) (ground arith)
