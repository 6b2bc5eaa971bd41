-- ===== src/Worker/Runtime/Waiting.antt =====
-- apps/worker/src/runtime.ts: the outcomes that the runtime remembers, the listeners that hear them and
-- the promises of `waitForQueueJob`. A listener or a waiter is the number of its registration; what
-- they are told is kept, in order. Listeners that throw are isolated, so they only hear.
mod Memory
pub mod Calls
pub mod Telling
pub mod Waking
use verify_agent.Prelude.{
  ℕ, zero, suc, String, Bool, true, false, not, List, [], ◌∷◌, ◌++◌, map, Option, none, some,
  Result, ok, throw, ltb, nat_eq, is_some, is_empty, filter, length, if◌then◌else◌, ◌==◌, or_else,
}
use verify_agent.JsMap.{JsMap, get, put, delete, size, first_key}
use verify_agent.Worker.Runtime.{Outcome}

pub record Waits : Type 0 where
  pub recent : JsMap Outcome
  pub waiters : JsMap (List ℕ)
  pub listeners : List ℕ
  pub heard : List (ℕ × Outcome)
  pub resolved : List (ℕ × Outcome)

abbrev pub max_recent_settled : ℕ
max_recent_settled = 200

unfoldable pub drop_first : Option String → JsMap Outcome → JsMap Outcome
unfolding delete
drop_first none m = m
drop_first (some k) m = delete k m

-- `while (recentSettled.size > MAX_RECENT_SETTLED) ...`, on fuel: the size of the map is enough.
unfoldable pub trim_recent : ℕ → JsMap Outcome → JsMap Outcome
unfolding drop_first
trim_recent zero m = m
trim_recent (suc fuel) m =
    let rest = trim_recent fuel (drop_first (first_key m) m) in
    if ltb max_recent_settled (size m) then rest else m

abbrev pub tell : Outcome → List ℕ → List (ℕ × Outcome)
tell o ids = map (λ id. (id, o)) ids

-- `rememberSettled`, for an outcome of the queue's job
unfoldable pub remember_settled : String → Outcome → Waits → Waits
unfolding get put delete trim_recent
remember_settled job o s =
    let grown = put job o s.recent in
    record s {
      recent = trim_recent (size grown) grown;
      waiters = delete job s.waiters;
      heard = s.heard ++ tell o s.listeners;
      resolved = s.resolved ++ tell o (or_else (get job s.waiters) []);
    }

abbrev settled_at_once : ℕ → Option Outcome → Waits → Option Waits
settled_at_once id none s = none
settled_at_once id (some o) s = some (record s { resolved = s.resolved ++ (id, o) ∷ [] })

-- `waitForQueueJob` with a valid key and timeout: the promise `id` is resolved at once, or waits.
unfoldable pub wait_for_queue_job : String → ℕ → Waits → Waits
unfolding get put
wait_for_queue_job job id s =
    or_else (settled_at_once id (get job s.recent) s)
      (record s { waiters = put job (or_else (get job s.waiters) [] ++ id ∷ []) s.waiters })

abbrev pub without : String → List ℕ → JsMap (List ℕ) → JsMap (List ℕ)
unfolding put delete
without job left m = if is_empty left then delete job m else put job left m

-- The timer of a waiter fires.
unfoldable pub time_out : String → ℕ → Waits → Waits
unfolding get put delete
time_out job id s = by_pending (get job s.waiters)
  where
    by_pending : Option (List ℕ) → Waits
    by_pending none = s
    by_pending (some ids) = record s {
      waiters = without job (filter (λ w. not (nat_eq w id)) ids) s.waiters;
    }

-- `onSettled` and what it returns
unfoldable pub on_settled : ℕ → Waits → Waits
on_settled id s = record s { listeners = s.listeners ++ id ∷ [] }

unfoldable pub off_settled : ℕ → Waits → Waits
off_settled id s = record s { listeners = filter (λ w. not (nat_eq w id)) s.listeners }
