-- ===== src/Bot/Replay.antt =====
-- apps/github-bot/src/webhook.ts: the replay guard in memory. `now` is what `Date.now()` returns at the
-- call.
pub mod Held
pub mod Exclusion
use verify_agent.Prelude.{
  ℕ, zero, suc, ◌+◌, String, Bool, true, false, not, List, [], ◌∷◌, Option, none, some,
  if◌then◌else◌, ltb, leb, is_some,
}
use verify_agent.JsMap.{JsMap, get, put, delete, delete_where, size, first_key}

pub data Entry : Type 0 where
  reserved : Entry
  until : ℕ → Entry

abbrev pub Guard : Type 0
Guard = JsMap Entry

-- `value !== "RESERVED" && value <= now`
abbrev pub is_expired : ℕ → Entry → Bool
is_expired now reserved = false
is_expired now (until e) = leb e now

unfoldable pub drop_oldest : Option String → Guard → Guard
unfolding delete
drop_oldest none m = m
drop_oldest (some first) m = delete first m

-- `while (map.size > maxEntries) ...`, on fuel.
unfoldable pub trim : ℕ → ℕ → Guard → Guard
unfolding drop_oldest
trim zero max_entries m = m
trim (suc fuel) max_entries m =
    let rest = trim fuel max_entries (drop_oldest (first_key m) m) in
    if ltb max_entries (size m) then rest else m

unfoldable pub prune : ℕ → ℕ → Guard → Guard
unfolding delete_where trim
prune max_entries now m =
    let live = delete_where (is_expired now) m in trim (size live) max_entries live

abbrev pub is_reserved : Option Entry → Bool
is_reserved (some reserved) = true
is_reserved (some (until e)) = false
is_reserved none = false

-- `value === "RESERVED" || value > now`, of a value that is present
abbrev pub is_live : ℕ → Option Entry → Bool
is_live now none = false
is_live now (some reserved) = true
is_live now (some (until e)) = ltb now e

module _ (max_entries ttl : ℕ) where
  unfoldable pub check_and_remember : ℕ → String → Guard → Bool × Guard
  unfolding prune get put delete
  check_and_remember now id m =
      let pruned = prune max_entries now m in
      if is_live now (get id pruned) then (true, pruned) else (
        false,
        put id (until (now + ttl)) (if is_some (get id pruned) then delete id pruned else pruned),
      )

  unfoldable pub is_replay : ℕ → String → Guard → Bool × Guard
  unfolding prune get
  is_replay now id m = let pruned = prune max_entries now m in (is_live now (get id pruned), pruned)

  unfoldable pub count : ℕ → Guard → ℕ × Guard
  unfolding prune
  count now m = let pruned = prune max_entries now m in (size pruned, pruned)

  unfoldable pub reserve : ℕ → String → Guard → Bool × Guard
  unfolding prune get put
  reserve now id m =
      let pruned = prune max_entries now m in
      if is_some (get id pruned) then (false, pruned) else (true, put id reserved pruned)

  unfoldable pub commit : ℕ → String → Guard → Guard
  unfolding get put
  commit now id m = if is_reserved (get id m) then put id (until (now + ttl)) m else m

unfoldable pub rollback : String → Guard → Guard
unfolding get delete
rollback id m = if is_reserved (get id m) then delete id m else m
