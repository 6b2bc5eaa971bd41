-- ===== src/Worker/Runtime/Auto/Sleeping.antt =====
-- When a loop of the runtime sleeps.
use mathlib.Core.Logic.{◌≢◌}
use verify_agent.Prelude.{
  ℕ, ◌≤◌, Bool, true, false, ◌||◌, Option, none, some, nat_eq, ◌≡◌, ◌⊎◌, arith, inl, inr,
}
use verify_agent.Worker.Runtime.{idle, completed, failed}
use verify_agent.Worker.Runtime.Auto.{
  Phase, exited, queued, processing, returned, answered, waiting, delayed, woken, threw,
  invalidated, outcome, set_phase,
}
use verify_agent.Worker.Runtime.Auto.Slot.{rests}

-- The loop found the queue empty, and has not yet gone to sleep.
abbrev pub found_none : Phase → Bool
found_none (returned (outcome idle)) = true
found_none (answered (outcome idle)) = true
found_none (returned (outcome (completed job result))) = false
found_none (answered (outcome (completed job result))) = false
found_none (returned (outcome (failed job e))) = false
found_none (answered (outcome (failed job e))) = false
found_none (returned threw) = false
found_none (answered threw) = false
found_none (returned invalidated) = false
found_none (answered invalidated) = false
found_none exited = false
found_none queued = false
found_none (processing job) = false
found_none waiting = false
found_none delayed = false
found_none woken = false

abbrev pub works : Phase → Bool
works (processing job) = true
works exited = false
works queued = false
works (returned a) = false
works (answered a) = false
works waiting = false
works delayed = false
works woken = false

-- Only the loop of the active generation sleeps, and it is the one that the resolver wakes. It
-- sleeps without a timer only where it is told of an enqueue and the queue has nothing. `empty` says
-- that the queue has nothing to deliver.
pub record IsAwake (loops : ℕ → Phase) (active counter : ℕ) (running : Bool) (resolver : Option ℕ)
    (subscribed notified : Bool) (empty : Type 0) : Type 0 where
  pub live : nat_eq active 0 ≡ false → running ≡ true
  pub bound : active ≤ counter
  pub no_zero : loops 0 ≡ exited
  pub waits : (g : ℕ) → rests (loops g) ≡ true → (g ≡ active) × (resolver ≡ some g)
  pub told : (g : ℕ) → loops g ≡ waiting → (subscribed ≡ true) × empty
  pub near : found_none (loops active) ≡ true → empty ⊎ (notified ≡ true) ⊎ (subscribed ≡ false)
  pub alone :
      (h : ℕ)
      → works (loops h) ≡ true
      → (h ≡ active) ⊎ ((found_none (loops active) || rests (loops active)) ≡ false)

-- No loop sleeps, and no generation is active.
pub stopped-IsAwake :
    (loops : ℕ → Phase) (counter : ℕ) (running subscribed notified : Bool) (resolver : Option ℕ)
    (empty : Type 0)
    → loops 0 ≡ exited
    → ((g : ℕ) → rests (loops g) ≡ false)
    → IsAwake loops 0 counter running resolver subscribed notified empty
stopped-IsAwake loops counter running subscribed notified resolver empty zero_exited r = record {
  live = λ e. absurd (ground arith);
  bound = omega arith;
  no_zero = zero_exited;
  waits = λ h k. absurd (ground (arith, r h));
  told = λ h e. absurd (ground (arith, r h));
  near = λ f. absurd (ground arith);
  alone = λ h k. inr (ground arith);
}

module _ (loops : ℕ → Phase) (active counter : ℕ) (running : Bool) (resolver : Option ℕ)
    (subscribed notified : Bool) (empty : Type 0)
    (w : IsAwake loops active counter running resolver subscribed notified empty) where
  -- A loop that does not sleep moves on, and neither works nor has found the queue empty.
  pub moved-IsAwake :
      (g : ℕ) (p : Phase) (bell : Bool)
      → loops g ≢ exited
      → rests (loops g) ≡ false
      → rests p ≡ false
      → found_none p ≡ false
      → works p ≡ false
      → (bell ≡ notified) ⊎ (g ≡ active)
      → IsAwake (set_phase g p loops) active counter running resolver subscribed bell empty
  moved-IsAwake g p bell there r rp fp wp b = record {
    live = w.live;
    bound = w.bound;
    no_zero = ground (arith, w.no_zero, there);
    waits = λ h k. ground (arith, w.waits h);
    told = λ h e. ground (arith, w.told h);
    near = λ f. ground (arith, w.near);
    alone = λ h k. ground (arith, w.alone h);
  }

  -- The loop that sleeps is woken.
  pub woken-IsAwake :
      (g : ℕ) (bell : Bool) (none_left : Type 0)
      → rests (loops g) ≡ true
      → IsAwake (set_phase g woken loops) active counter running none subscribed bell none_left
  woken-IsAwake g bell none_left r =
      let (at, mine) = w.waits g r in
      record {
        live = w.live;
        bound = w.bound;
        no_zero = ground (arith, w.no_zero);
        waits = λ h k. ground (arith, w.waits h);
        told = λ h e. absurd (ground (arith, w.waits h));
        near = λ f. absurd (ground arith);
        alone = λ h k. ground (arith, w.alone h);
      }

  -- The active loop goes to sleep: it found the queue empty, and nothing was enqueued since.
  pub rested-IsAwake :
      (p : Phase)
      → loops active ≡ answered (outcome idle)
      → ((p ≡ waiting) × (subscribed ≡ true) × (notified ≡ false)) ⊎ (p ≡ delayed)
      → IsAwake
          (set_phase active p loops)
          active
          counter
          running
          (some active)
          subscribed
          notified
          empty
  rested-IsAwake p at (inl (e, s, n)) = rw e (record {
    live = w.live;
    bound = w.bound;
    no_zero = ground (arith, w.no_zero);
    waits = λ h k. ground (arith, w.waits h);
    told = λ h k. ground (arith, w.waits h, w.near);
    near = λ f. absurd (ground arith);
    alone = λ h k. absurd (ground (arith, w.alone h));
  })
  rested-IsAwake p at (inr e) = rw e (record {
    live = w.live;
    bound = w.bound;
    no_zero = ground (arith, w.no_zero);
    waits = λ h k. ground (arith, w.waits h);
    told = λ h k. ground (arith, w.waits h);
    near = λ f. absurd (ground arith);
    alone = λ h k. absurd (ground (arith, w.alone h));
  })
