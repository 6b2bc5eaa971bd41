-- ===== src/Worker/Runtime/Auto/Alert.antt =====
-- The calls of the runtime let no loop sleep while its queue has a job.
use mathlib.Core.Logic.{◌≢◌}
use verify_agent.Prelude.{
  ℕ, suc, Bool, true, false, ◌&&◌, Option, none, some, nat_eq, if◌then◌else◌, ◌≡◌, refl, arith,
  Bool-cases, inl, inr,
}
use verify_agent.Worker.Runtime.{JobQueue, idle, completed, failed, State}
use verify_agent.Worker.Runtime.Auto.{
  Auto, Phase, exited, queued, returned, answered, Answer, threw, invalidated, outcome, set_phase,
  is_valid, iterate, signal_wakeup, start, stop, start_auto, finish_stop, stop_auto, enqueue,
}
use verify_agent.Worker.Runtime.Auto.Slot.{holds, rests}
use verify_agent.Worker.Runtime.Auto.Chaining.{IsOrderly}
use verify_agent.Worker.Runtime.Auto.Sleeping.{
  found_none, works, IsAwake, stopped-IsAwake, moved-IsAwake, woken-IsAwake,
}

pub works-holds : (p : Phase) → works p ≡ true → holds p ≡ true
works-holds p h = ground arith

pub found_none-release : (a : Answer) → found_none (answered a) ≡ found_none (returned a)
found_none-release threw = refl
found_none-release invalidated = refl
found_none-release (outcome idle) = refl
found_none-release (outcome (completed job result)) = refl
found_none-release (outcome (failed job e)) = refl

module _ {Q : Type 0} (jobs : JobQueue Q) where
  abbrev pub IsEmpty : Q → Type 0
  IsEmpty q = (jobs.dequeue q).0 ≡ none

  abbrev pub IsAlert : Auto Q → Type 0
  IsAlert s =
      IsAwake s.loops s.active s.counter s.core.running s.resolver s.subscribed s.notified
        (IsEmpty s.core.queue)

  -- After a signal for no active generation, no loop sleeps.
  signal_silent :
      (s : Auto Q) (core : State Q)
      → IsOrderly s
      → IsAlert s
      → (let t = signal_wakeup (record s { core = core; active = 0 }) in
          (t.loops 0 ≡ exited) × ((g : ℕ) → rests (t.loops g) ≡ false))
  unfolding signal_wakeup
  signal_silent s core o w = by_resolver s.resolver refl
    where
      by_resolver :
          (r : Option ℕ)
          → s.resolver ≡ r
          → (let t = signal_wakeup (record s { core = core; active = 0; resolver = r }) in
              (t.loops 0 ≡ exited) × ((g : ℕ) → rests (t.loops g) ≡ false))
      by_resolver none e = (w.no_zero, λ g. ground (arith, w.waits g))
      by_resolver (some h) e =
          (ground (arith, w.no_zero, o.owner h e), λ g. ground (arith, w.waits g))

  pub stop-IsAlert : (s : Auto Q) → IsOrderly s → IsAlert s → IsAlert (stop s)
  unfolding stop
  stop-IsAlert s o w =
      let core = record s.core { running = false } in
      let t = signal_wakeup (record s { core = core; active = 0 }) in
      let (zero_exited, silent) = signal_silent s core o w in
      stopped-IsAwake t.loops t.counter false false false none (IsEmpty t.core.queue) zero_exited
        silent

  pub stop_auto-IsAlert : (s : Auto Q) → IsOrderly s → IsAlert s → IsAlert (stop_auto s)
  unfolding stop_auto finish_stop
  stop_auto-IsAlert s o w =
      let t = signal_wakeup (record s { active = 0 }) in
      let (zero_exited, silent) = signal_silent s s.core o w in
      elim (Bool-cases (nat_eq s.active_loop 0)) [
        | inl e ↦ rw e (
            stopped-IsAwake t.loops t.counter t.core.running false false none (IsEmpty t.core.queue)
              zero_exited silent)
        | inr e ↦ rw e (
            stopped-IsAwake t.loops t.counter t.core.running t.subscribed t.notified t.resolver
              (IsEmpty t.core.queue) zero_exited silent)
      ]

  pub finish_stop-IsAlert : (s : Auto Q) → IsAlert s → IsAlert (finish_stop s)
  unfolding finish_stop
  finish_stop-IsAlert s w = elim (Bool-cases (nat_eq s.active 0)) [
    | inl e ↦
        let at : s.active ≡ 0 = ground arith in
        rw (e, at)
          (stopped-IsAwake s.loops s.counter s.core.running false false none (IsEmpty s.core.queue)
            w.no_zero (λ g. ground (arith, w.waits g, w.no_zero)))
    | inr e ↦ rw e w
  ]

  pub iterate-IsAlert :
      (g : ℕ) (s : Auto Q)
      → IsAlert s
      → s.loops g ≢ exited
      → rests (s.loops g) ≡ false
      → IsAlert (iterate g s)
  unfolding iterate
  iterate-IsAlert g s w there r =
      let moved =
        λ (p : Phase) (b : rests p ≡ false) (c : found_none p ≡ false) (d : works p ≡ false).
          moved-IsAwake s.loops s.active s.counter s.core.running s.resolver s.subscribed s.notified
            (IsEmpty s.core.queue) w g p s.notified there r b c d (inl refl) in
      elim (Bool-cases (is_valid g s)) [
        | inl e ↦ rw e (moved queued refl refl refl)
        | inr e ↦ rw e (moved exited refl refl refl)
      ]

  pub start-IsAlert : (s : Auto Q) → IsAlert s → IsAlert (start s)
  unfolding start
  start-IsAlert s w = record {
    live = λ e. refl;
    bound = w.bound;
    no_zero = w.no_zero;
    waits = w.waits;
    told = w.told;
    near = w.near;
    alone = w.alone;
  }

  -- A new generation starts where no loop sleeps.
  begun-IsAwake :
      (s : Auto Q) (subscribed : Bool)
      → IsOrderly s
      → IsAlert s
      → s.active ≡ 0
      → IsAwake
          (set_phase (suc s.counter) queued s.loops)
          (suc s.counter)
          (suc s.counter)
          true
          s.resolver
          subscribed
          false
          (IsEmpty s.core.queue)
  begun-IsAwake s subscribed o w off =
      let silent = λ (g : ℕ). λ (r : rests (s.loops g) ≡ true).
        let e : g ≡ 0 = ground (arith, w.waits g) in
        let false_true : false ≡ true = ground (arith, w.no_zero) in false_true in
      record {
        live = λ e. refl;
        bound = omega arith;
        no_zero = ground (arith, w.no_zero);
        waits = λ h k. ground (arith, silent h);
        told = λ h k. ground (arith, silent h);
        near = λ f. absurd (ground arith);
        alone = λ h k. inr (ground arith);
      }

  pub start_auto-IsAlert :
      (notifies : Bool) (s : Auto Q) → IsOrderly s → IsAlert s → IsAlert (start_auto notifies s)
  unfolding start_auto iterate start
  start_auto-IsAlert notifies s o w = elim (Bool-cases (nat_eq s.active 0)) [
    | inl e ↦
        let same : (nat_eq (suc s.counter) (suc s.counter) && true) ≡ true = ground arith in
        rw (e, same) (begun-IsAwake s (if s.subscribed then true else notifies) o w (ground arith))
    | inr e ↦ rw e (start-IsAlert s w)
  ]

  pub either-IsAlert :
      (b : Bool) (s t : Auto Q)
      → (b ≡ true → IsAlert s)
      → (b ≡ false → IsAlert t)
      → IsAlert (if b then s else t)
  either-IsAlert true s t h k = h refl
  either-IsAlert false s t h k = k refl

  -- An enqueue that is told wakes the loop that sleeps; one that is not told finds none asleep
  -- without a timer.
  pub enqueue-IsAlert : (q : Q) (s : Auto Q) → IsOrderly s → IsAlert s → IsAlert (enqueue q s)
  unfolding enqueue signal_wakeup
  enqueue-IsAlert q s o w =
      let changed = record s { core = record s.core { queue = q } } in
      either-IsAlert s.subscribed (signal_wakeup changed) changed (λ e. by_resolver s.resolver refl)
        (λ e. record {
          live = w.live;
          bound = w.bound;
          no_zero = w.no_zero;
          waits = w.waits;
          told = λ h k. absurd (ground (arith, w.told h));
          near = λ f. inr (inr e);
          alone = w.alone;
        })
    where
      by_resolver :
          (r : Option ℕ)
          → s.resolver ≡ r
          → IsAlert (signal_wakeup (record s { core = record s.core { queue = q }; resolver = r }))
      by_resolver none e = record {
        live = w.live;
        bound = w.bound;
        no_zero = w.no_zero;
        waits = λ h k. absurd (ground (arith, w.waits h));
        told = λ h k. absurd (ground (arith, w.waits h));
        near = λ f. inr (inl refl);
        alone = w.alone;
      }
      by_resolver (some g) e =
          woken-IsAwake s.loops s.active s.counter s.core.running s.resolver s.subscribed s.notified
            (IsEmpty s.core.queue) w g false (IsEmpty q) (o.owner g e)
