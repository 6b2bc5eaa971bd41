-- ===== src/Worker/Runtime/Auto/Resuming.antt =====
-- The steps of a loop after its answer let it sleep only while its queue has no job.
use mathlib.Core.Path.{subst}
use verify_agent.Prelude.{
  ℕ, Bool, true, false, [], ◌∷◌, ◌++◌, some, ◌≡◌, refl, sym, ◌⊎◌, arith, Bool-cases, inl, inr,
}
use verify_agent.Worker.Runtime.{JobQueue, idle, completed, failed}
use verify_agent.Worker.Runtime.Auto.{
  Auto, Phase, exited, returned, answered, waiting, delayed, woken, Answer, threw, invalidated,
  outcome, set_phase, release_slot, is_valid, wait, resume_idle, resume, fire_timer,
}
use verify_agent.Worker.Runtime.Auto.Slot.{rests}
use verify_agent.Worker.Runtime.Auto.Sleeping.{
  found_none, works, IsAwake, moved-IsAwake, woken-IsAwake, rested-IsAwake,
}
use verify_agent.Worker.Runtime.Auto.Alert.{
  found_none-release, IsEmpty, IsAlert, iterate-IsAlert, either-IsAlert,
}

module _ {Q : Type 0} (jobs : JobQueue Q) where
  resume_idle-IsAlert :
      (g : ℕ) (s : Auto Q)
      → IsAlert jobs s
      → s.loops g ≡ answered (outcome idle)
      → IsAlert jobs (resume_idle g s)
  unfolding resume_idle wait
  resume_idle-IsAlert g s w at = elim (Bool-cases (is_valid g s)) [
    | inr e ↦ rw e (moved exited s.notified refl refl refl (inl refl))
    | inl e ↦
        let mine : g ≡ s.active = ground arith in
        rw e (
          either-IsAlert jobs s.subscribed _ _
            (λ told.
              either-IsAlert jobs s.notified _ _
                (λ bell. moved woken false refl refl refl (inr mine))
                (λ bell. sleep waiting mine (inl (refl, told, bell))))
            (λ told. sleep delayed mine (inr refl)))
  ]
    where
      moved :
          (p : Phase) (bell : Bool)
          → rests p ≡ false
          → found_none p ≡ false
          → works p ≡ false
          → (bell ≡ s.notified) ⊎ (g ≡ s.active)
          → IsAwake
              (set_phase g p s.loops)
              s.active
              s.counter
              s.core.running
              s.resolver
              s.subscribed
              bell
              (IsEmpty jobs s.core.queue)
      moved p bell a b c d =
          moved-IsAwake s.loops s.active s.counter s.core.running s.resolver s.subscribed s.notified
            (IsEmpty jobs s.core.queue) w g p bell (λ h. ground (arith, h)) (rw at refl) a b c d

      sleep :
          (p : Phase)
          → g ≡ s.active
          → ((p ≡ waiting) × (s.subscribed ≡ true) × (s.notified ≡ false)) ⊎ (p ≡ delayed)
          → IsAwake
              (set_phase g p s.loops)
              s.active
              s.counter
              s.core.running
              (some g)
              s.subscribed
              s.notified
              (IsEmpty jobs s.core.queue)
      sleep p mine how =
          subst
            (λ h.
              IsAwake (set_phase h p s.loops) s.active s.counter s.core.running (some h)
                s.subscribed s.notified (IsEmpty jobs s.core.queue))
            (sym mine)
            (rested-IsAwake s.loops s.active s.counter s.core.running s.resolver s.subscribed
              s.notified (IsEmpty jobs s.core.queue) w p (ground (arith, at)) how)

  pub resume-IsAlert :
      (g : ℕ) (a : Answer) (s : Auto Q)
      → IsAlert jobs s
      → s.loops g ≡ answered a
      → IsAlert jobs (resume g a s)
  unfolding resume
  resume-IsAlert g invalidated s w at =
      moved-IsAwake s.loops s.active s.counter s.core.running s.resolver s.subscribed s.notified
        (IsEmpty jobs s.core.queue) w g exited s.notified (λ h. ground (arith, h)) (rw at refl) refl
        refl refl (inl refl)
  resume-IsAlert g threw s w at = iterate-IsAlert jobs g s w (λ h. ground (arith, h)) (rw at refl)
  resume-IsAlert g (outcome idle) s w at = resume_idle-IsAlert g s w at
  resume-IsAlert g (outcome (completed job result)) s w at =
      iterate-IsAlert jobs g (record s { settled = s.settled ++ completed job result ∷ [] }) w
        (λ h. ground (arith, h)) (rw at refl)
  resume-IsAlert g (outcome (failed job e)) s w at =
      iterate-IsAlert jobs g (record s { settled = s.settled ++ failed job e ∷ [] }) w
        (λ h. ground (arith, h)) (rw at refl)

  pub fire_timer-IsAlert :
      (g : ℕ) (s : Auto Q) → IsAlert jobs s → s.loops g ≡ delayed → IsAlert jobs (fire_timer g s)
  unfolding fire_timer
  fire_timer-IsAlert g s w at =
      woken-IsAwake s.loops s.active s.counter s.core.running s.resolver s.subscribed s.notified
        (IsEmpty jobs s.core.queue) w g _ (IsEmpty jobs s.core.queue) (rw at refl)

  pub release-IsAlert :
      (g : ℕ) (a : Answer) (s : Auto Q)
      → IsAlert jobs s
      → s.loops g ≡ returned a
      → IsAlert jobs
          (record s { loops = set_phase g (answered a) s.loops; chain = release_slot s.chain })
  release-IsAlert g a s w at = record {
    live = w.live;
    bound = w.bound;
    no_zero = ground (arith, w.no_zero);
    waits = λ h k. ground (arith, w.waits h);
    told = λ h k. ground (arith, w.told h);
    near = λ f. ground (arith, w.near, found_none-release a);
    alone = λ h k. ground (arith, w.alone h, found_none-release a);
  }
