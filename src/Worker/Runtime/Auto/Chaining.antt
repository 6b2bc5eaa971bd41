-- ===== src/Worker/Runtime/Auto/Chaining.antt =====
-- The calls of the runtime keep the chain of the processing slot in order.
use mathlib.Core.Logic.{◌≢◌}
use verify_agent.Prelude.{
  ltb, ℕ, suc, ◌≤◌, Bool, true, false, [], ◌∷◌, ◌++◌, nat_eq, if◌then◌else◌, ◌≡◌, refl, sym, arith,
  Bool-cases, Option-cases, inl, inr,
}
use verify_agent.Worker.Runtime.{idle, completed, failed}
use verify_agent.Worker.Runtime.Auto.{
  Auto, exited, waiting, delayed, woken, Answer, threw, invalidated, outcome, is_valid, exit_loop,
  iterate, signal_wakeup, wait, resume_idle, resume, fire_timer, stop, start_auto, finish_stop,
  stop_auto, enqueue,
}
use verify_agent.Worker.Runtime.Auto.Slot.{
  in_chain, rests, IsOrdered, moved-IsOrdered, joined-IsOrdered, cleared-IsOrdered,
  rested-IsOrdered, woken-IsOrdered, grown-IsOrdered,
}

module _ {Q : Type 0} where
  -- What the steps keep.
  abbrev pub IsOrderly : Auto Q → Type 0
  IsOrderly s = IsOrdered s.loops s.chain s.resolver s.counter

  -- A generation that has a loop is not a generation to come.
  pub seen : (s : Auto Q) → IsOrderly s → (g : ℕ) → s.loops g ≢ exited → g ≤ s.counter
  seen s o g h = elim (Bool-cases (ltb s.counter g)) [
    | inl e ↦ absurd (h (o.known g (ground arith)))
    | inr e ↦ ground arith
  ]

  exit_loop-IsOrderly :
      (g : ℕ) (s : Auto Q)
      → IsOrderly s
      → rests (s.loops g) ≡ false
      → in_chain (s.loops g) ≡ false
      → g ≤ s.counter
      → IsOrderly (exit_loop g s)
  exit_loop-IsOrderly g s o r c seen =
      moved-IsOrdered s.loops s.chain s.resolver s.counter o g exited seen r (sym c)
        (λ h. absurd (ground arith))

  pub iterate-IsOrderly :
      (g : ℕ) (s : Auto Q)
      → IsOrderly s
      → rests (s.loops g) ≡ false
      → in_chain (s.loops g) ≡ false
      → g ≤ s.counter
      → IsOrderly (iterate g s)
  unfolding iterate
  iterate-IsOrderly g s o r c seen = elim (Bool-cases (is_valid g s)) [
    | inl e ↦ rw e (joined-IsOrdered s.loops s.chain s.resolver s.counter o g seen r c)
    | inr e ↦ rw e (exit_loop-IsOrderly g s o r c seen)
  ]

  signal_wakeup-IsOrderly : (s : Auto Q) → IsOrderly s → IsOrderly (signal_wakeup s)
  unfolding signal_wakeup
  signal_wakeup-IsOrderly s o = elim (Option-cases s.resolver) [
    | inl e ↦ rw e (cleared-IsOrdered s.loops s.chain s.resolver s.counter o)
    | inr (g, e) ↦ rw e (woken-IsOrdered s.loops s.chain s.resolver s.counter o g (o.owner g e))
  ]

  wait-IsOrderly :
      (g : ℕ) (s : Auto Q)
      → IsOrderly s
      → rests (s.loops g) ≡ false
      → in_chain (s.loops g) ≡ false
      → g ≤ s.counter
      → IsOrderly (wait g s)
  unfolding wait
  wait-IsOrderly g s o r c seen = elim (Bool-cases s.subscribed) [
    | inl e ↦ rw e (elim (Bool-cases s.notified) [
      | inl n ↦ rw n (
          moved-IsOrdered s.loops s.chain s.resolver s.counter o g woken seen r (sym c)
            (λ h. absurd (ground arith)))
      | inr n ↦
          rw n (
            rested-IsOrdered s.loops s.chain s.resolver s.counter o g waiting seen c refl refl refl)
    ])
    | inr e ↦
        rw e
          (rested-IsOrdered s.loops s.chain s.resolver s.counter o g delayed seen c refl refl refl)
  ]

  resume_idle-IsOrderly :
      (g : ℕ) (s : Auto Q)
      → IsOrderly s
      → rests (s.loops g) ≡ false
      → in_chain (s.loops g) ≡ false
      → g ≤ s.counter
      → IsOrderly (resume_idle g s)
  unfolding resume_idle
  resume_idle-IsOrderly g s o r c seen = elim (Bool-cases (is_valid g s)) [
    | inl e ↦ rw e (wait-IsOrderly g s o r c seen)
    | inr e ↦ rw e (exit_loop-IsOrderly g s o r c seen)
  ]

  pub resume-IsOrderly :
      (g : ℕ) (a : Answer) (s : Auto Q)
      → IsOrderly s
      → rests (s.loops g) ≡ false
      → in_chain (s.loops g) ≡ false
      → g ≤ s.counter
      → IsOrderly (resume g a s)
  unfolding resume
  resume-IsOrderly g invalidated s o r c seen = exit_loop-IsOrderly g s o r c seen
  resume-IsOrderly g threw s o r c seen = iterate-IsOrderly g s o r c seen
  resume-IsOrderly g (outcome idle) s o r c seen = resume_idle-IsOrderly g s o r c seen
  resume-IsOrderly g (outcome (completed job result)) s o r c seen =
      iterate-IsOrderly g (record s { settled = s.settled ++ completed job result ∷ [] }) o r c seen
  resume-IsOrderly g (outcome (failed job e)) s o r c seen =
      iterate-IsOrderly g (record s { settled = s.settled ++ failed job e ∷ [] }) o r c seen

  pub fire_timer-IsOrderly :
      (g : ℕ) (s : Auto Q) → IsOrderly s → s.loops g ≡ delayed → IsOrderly (fire_timer g s)
  unfolding fire_timer
  fire_timer-IsOrderly g s o d =
      woken-IsOrdered s.loops s.chain s.resolver s.counter o g (rw d refl)

  pub stop-IsOrderly : (s : Auto Q) → IsOrderly s → IsOrderly (stop s)
  unfolding stop
  stop-IsOrderly s o =
      let quiet = record s { core = record s.core { running = false }; active = 0 } in
      let t = signal_wakeup quiet in
      cleared-IsOrdered t.loops t.chain t.resolver t.counter (signal_wakeup-IsOrderly quiet o)

  pub finish_stop-IsOrderly : (s : Auto Q) → IsOrderly s → IsOrderly (finish_stop s)
  unfolding finish_stop
  finish_stop-IsOrderly s o = elim (Bool-cases (nat_eq s.active 0)) [
    | inl e ↦ rw e (cleared-IsOrdered s.loops s.chain s.resolver s.counter o)
    | inr e ↦ rw e o
  ]

  pub stop_auto-IsOrderly : (s : Auto Q) → IsOrderly s → IsOrderly (stop_auto s)
  unfolding stop_auto
  stop_auto-IsOrderly s o =
      let quiet = record s { active = 0 } in
      let all = signal_wakeup-IsOrderly quiet o in
      elim (Bool-cases (nat_eq s.active_loop 0)) [
        | inl e ↦ rw e (finish_stop-IsOrderly (signal_wakeup quiet) all)
        | inr e ↦ rw e all
      ]

  pub start_auto-IsOrderly :
      (notifies : Bool) (s : Auto Q) → IsOrderly s → IsOrderly (start_auto notifies s)
  unfolding start_auto
  start_auto-IsOrderly notifies s o = elim (Bool-cases (nat_eq s.active 0)) [
    | inl e ↦
        let new = o.known (suc s.counter) (omega arith) in
        rw e (
          iterate-IsOrderly (suc s.counter) _
            (grown-IsOrdered s.loops s.chain s.resolver s.counter o) (rw new refl) (rw new refl)
            (omega arith))
    | inr e ↦ rw e o
  ]

  either-IsOrderly :
      (b : Bool) (s t : Auto Q) → IsOrderly s → IsOrderly t → IsOrderly (if b then s else t)
  either-IsOrderly true s t h k = h
  either-IsOrderly false s t h k = k

  pub enqueue-IsOrderly : (q : Q) (s : Auto Q) → IsOrderly s → IsOrderly (enqueue q s)
  unfolding enqueue
  enqueue-IsOrderly q s o =
      let changed = record s { core = record s.core { queue = q } } in
      either-IsOrderly s.subscribed (signal_wakeup changed) changed
        (signal_wakeup-IsOrderly changed o) o
