-- ===== src/Bot/Replay/Exclusion.antt =====
-- When the replay guard lets a delivery be reserved.
use mathlib.Core.Path.{subst}
use verify_agent.Prelude.{
  ℕ, zero, suc, ◌+◌, ◌≤◌, String, true, false, List, Option, none, some, ◌≡◌, ap, ◌∙◌, arith,
  eq_iff, is_some, Bool-cases, inl, inr, NoDup, ltb, leb, length, includes, some_of,
}
use verify_agent.JsMap.{get, put, delete, keys, size, first_key}
use verify_agent.JsMap.Laws.{
  get-put, get-delete, get-delete_where, NoDup-put, NoDup-delete, NoDup-delete_where, size-put,
  size-delete-le,
}
use verify_agent.Bot.Replay.{
  reserved, until, Guard, is_expired, prune, trim, drop_oldest, reserve, commit, rollback,
}
use verify_agent.Bot.Replay.Held.{run-held, prune-eq, Call, run, ends, IsReserved}

NoDup-drop_oldest :
    (o : Option String) (m : Guard) → NoDup (keys m) → NoDup (keys (drop_oldest o m))
unfolding drop_oldest
NoDup-drop_oldest none m h = h
NoDup-drop_oldest (some k) m h = NoDup-delete k m h

NoDup-trim :
    (fuel max_entries : ℕ) (m : Guard) → NoDup (keys m) → NoDup (keys (trim fuel max_entries m))
unfolding trim
NoDup-trim zero max_entries m h = h
NoDup-trim (suc fuel) max_entries m h = elim (Bool-cases (ltb max_entries (size m))) [
  | inl e ↦ rw e (
      NoDup-trim fuel max_entries (drop_oldest (first_key m) m)
        (NoDup-drop_oldest (first_key m) m h))
  | inr e ↦ rw e h
]

NoDup-prune :
    (max_entries now : ℕ) (m : Guard) → NoDup (keys m) → NoDup (keys (prune max_entries now m))
unfolding prune
NoDup-prune max_entries now m h =
    NoDup-trim _ max_entries _ (NoDup-delete_where (is_expired now) m h)

pub reserve-IsReserved :
    (max_entries ttl now : ℕ) (id : String) (m next : Guard)
    → NoDup (keys m)
    → reserve max_entries ttl now id m ≡ (true, next)
    → IsReserved id next
unfolding reserve
reserve-IsReserved max_entries ttl now id m next h e =
    let pruned = prune max_entries now m in
    elim (Bool-cases (is_some (get id pruned))) [
      | inl taken ↦ let f = ap (λ p. p.0) e in absurd (ground arith)
      | inr free ↦
          let after : put id reserved pruned ≡ next = ap (λ p. p.1) (rw free at e) in
          subst (IsReserved id) after (record {
            held = get-put id id reserved pruned ∙ ground (arith, eq_iff id id);
            once = NoDup-put id reserved pruned (NoDup-prune max_entries now m h);
          })
    ]

-- After a delivery is reserved in a guard without double entries, no call reserves it again until
-- it is committed or rolled back, as long as the guard has room for the calls in between: then
-- nothing that is reserved is evicted.
pub reserve-once :
    (max_entries ttl now : ℕ) (id : String) (m next : Guard) (calls : List Call)
    → NoDup (keys m)
    → reserve max_entries ttl now id m ≡ (true, next)
    → size next + length calls ≤ suc max_entries
    → some_of (ends id) calls ≡ false
    → includes (run max_entries ttl calls next) id ≡ false
reserve-once max_entries ttl now id m next calls h e room free =
    run-held max_entries ttl calls id next (reserve-IsReserved max_entries ttl now id m next h e)
      room free

-- A reserved delivery, once committed, can be reserved again exactly from the end of its time on,
-- and one that is rolled back at once, while the guard is within its bound.
pub reserve-after :
    (max_entries ttl now later : ℕ) (id : String) (m : Guard)
    → IsReserved id m
    → size m ≤ max_entries
    → ((reserve max_entries ttl later id (commit max_entries ttl now id m)).0
        ≡ leb (now + ttl) later)
      × ((reserve max_entries ttl later id (rollback id m)).0 ≡ true)
unfolding reserve commit rollback
reserve-after max_entries ttl now later id m r h =
    let entry = until (now + ttl) in
    let committed = put id entry m in
    let same = size-put id entry m in
    let room : size committed ≤ max_entries = ground (arith, r.held) in
    let one = get-delete_where (is_expired later) id committed (NoDup-put id entry m r.once) in
    let less : size (delete id m) ≤ max_entries = omega (arith, size-delete-le id m) in
    let two = get-delete_where (is_expired later) id (delete id m) (NoDup-delete id m r.once) in
    let e1 = get-put id id entry m in
    let e2 = get-delete id id m in
    rw
      (
        r.held,
        prune-eq max_entries later committed room,
        prune-eq max_entries later (delete id m) less,
        one,
        two,
      )
      (ground (arith, eq_iff id id))
