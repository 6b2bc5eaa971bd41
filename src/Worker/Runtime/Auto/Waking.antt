-- ===== src/Worker/Runtime/Auto/Waking.antt =====
-- No step of the runtime lets a loop sleep while its queue has a job.
use mathlib.Core.Path.{subst}
use mathlib.Core.Logic.{◌≢◌}
use verify_agent.Prelude.{
  ℕ, String, Bool, true, false, List, ◌∷◌, Option, none, some, Result, ok, throw, ◌≡◌, refl, ap,
  ◌∙◌, arith, Bool-cases, inl, inr,
}
use verify_agent.Errors.{Error}
use verify_agent.Domain.Types.{VerificationResult}
use verify_agent.Domain.Validation.{Url}
use verify_agent.Domain.Queue.{QueueJob}
use verify_agent.Worker.Runtime.{JobQueue, idle, State, settle, settle_store}
use verify_agent.Worker.Registry.{Registry, store}
use verify_agent.Worker.Runtime.Auto.{
  Auto, Phase, exited, queued, processing, returned, waiting, woken, invalidated, outcome,
  set_phase, is_valid, signal_wakeup, enqueue, take_slot, fetch, finish, release, Step, Reach, here,
  next, starts, stops, auto_starts, auto_stops, stop_ends, enqueues, takes_slot, finishes, releases,
  resumes, times_out, wakes, idle_runtime, answer_of,
}
use verify_agent.Worker.Runtime.Auto.Slot.{rests}
use verify_agent.Worker.Runtime.Auto.Chaining.{IsOrderly}
use verify_agent.Worker.Runtime.Auto.Exclusion.{idle_runtime-IsOrderly, Reach-IsOrderly}
use verify_agent.Worker.Runtime.Auto.Sleeping.{
  found_none, works, IsAwake, stopped-IsAwake, moved-IsAwake,
}
use verify_agent.Worker.Runtime.Auto.Alert.{
  works-holds, IsEmpty, IsAlert, stop-IsAlert, stop_auto-IsAlert, finish_stop-IsAlert,
  iterate-IsAlert, start-IsAlert, start_auto-IsAlert, enqueue-IsAlert,
}
use verify_agent.Worker.Runtime.Auto.Resuming.{resume-IsAlert, fire_timer-IsAlert, release-IsAlert}

module _ {Q : Type 0} (jobs : JobQueue Q) (parse_url : String → Option Url) (max_results : ℕ)
    (notifies : Bool) (put : QueueJob → Q → Q)
    (stays_empty : (q : Q) → IsEmpty jobs q → IsEmpty jobs (jobs.dequeue q).1) where
  -- A loop that has the slot works, or finds the queue empty; the queue is what its dequeue left.
  taken-IsAlert :
      (g : ℕ) (s : Auto Q) (p : Phase) (q : Q)
      → IsAlert jobs s
      → g ≡ s.active
      → s.loops g ≡ queued
      → ((h : ℕ) → works (s.loops h) ≡ true → h ≡ g)
      → rests p ≡ false
      → p ≢ exited
      → (found_none p ≡ true → IsEmpty jobs q)
      → IsAwake
          (set_phase g p s.loops)
          s.active
          s.counter
          s.core.running
          s.resolver
          s.subscribed
          s.notified
          (IsEmpty jobs q)
  taken-IsAlert g s p q w mine at sole r there f = record {
    live = w.live;
    bound = w.bound;
    no_zero = ground (arith, w.no_zero);
    waits = λ h k. ground (arith, w.waits h);
    told = λ h k. absurd (ground (arith, w.waits h));
    near = λ k. inl (f (ground arith));
    alone = λ h k. inl (ground (arith, sole h));
  }

  take_slot-IsAlert :
      (g : ℕ) (rest : List ℕ) (s : Auto Q)
      → IsOrderly s
      → IsAlert jobs s
      → s.chain ≡ g ∷ rest
      → s.loops g ≡ queued
      → IsAlert jobs (take_slot jobs parse_url max_results notifies put g s)
  unfolding take_slot
  take_slot-IsAlert g rest s o w c at = elim (Bool-cases (is_valid g s)) [
    | inl e ↦ rw e (by_job (ground arith) (jobs.dequeue s.core.queue) refl)
    | inr e ↦ rw e (
        moved-IsAwake s.loops s.active s.counter s.core.running s.resolver s.subscribed s.notified
          (IsEmpty jobs s.core.queue) w g (returned invalidated) s.notified (λ h. ground (arith, h))
          (rw at refl) refl refl refl (inl refl))
  ]
    where
      sole : (h : ℕ) → works (s.loops h) ≡ true → h ≡ g
      sole h k = let f = o.front h (works-holds (s.loops h) k) in ground (arith)

      by_job :
          g ≡ s.active
          → (d : Option QueueJob × Q) → jobs.dequeue s.core.queue ≡ d
          → IsAlert jobs (fetch jobs parse_url max_results notifies put g d s)
      by_job mine (none, q) e =
          taken-IsAlert g s (returned (outcome idle)) q w mine at sole refl (λ h. ground (arith, h))
            (λ _.
              subst (IsEmpty jobs) (ap (λ d. d.1) e) (stays_empty s.core.queue (ap (λ d. d.0) e)))
      by_job mine (some job, q) e =
          taken-IsAlert g s (processing job) q w mine at sole refl (λ h. ground (arith, h))
            (λ f. absurd (ground arith))

  found_none-settle :
      (job : QueueJob) (processed : Result Error VerificationResult) (c : State Q)
      → found_none (
          returned
            (answer_of (settle jobs parse_url max_results (λ j. processed) job processed c).0))
        ≡ false
  unfolding settle settle_store
  found_none-settle job (ok result) c =
      by_store (store parse_url max_results job.job_id result c.registry)
    where
      by_store :
          (r : Result Error Registry)
          → found_none (
              returned (
                answer_of
                  (settle_store jobs parse_url max_results (λ j. ok result) job result r c).0))
            ≡ false
      by_store (ok r) = refl
      by_store (throw e) = refl
  found_none-settle job (throw e) c = refl

  running-settle :
      (job : QueueJob) (processed : Result Error VerificationResult) (c : State Q)
      → (settle jobs parse_url max_results (λ j. processed) job processed c).1.running ≡ c.running
  unfolding settle settle_store
  running-settle job (ok result) c =
      by_store (store parse_url max_results job.job_id result c.registry)
    where
      by_store :
          (r : Result Error Registry)
          → (settle_store jobs parse_url max_results (λ j. ok result) job result r c).1.running
            ≡ c.running
      by_store (ok r) = refl
      by_store (throw e) = refl
  running-settle job (throw e) c = refl

  -- What a loop does to the queue at its end concerns no loop that sleeps.
  finish-IsAlert :
      (g : ℕ) (job : QueueJob) (processed : Result Error VerificationResult) (s : Auto Q)
      → IsAlert jobs s
      → s.loops g ≡ processing job
      → IsAlert jobs (finish jobs parse_url max_results notifies put g job processed s)
  unfolding finish
  finish-IsAlert g job processed s w at =
      let after = settle jobs parse_url max_results (λ j. processed) job processed s.core in
      let quiet = found_none-settle job processed s.core in
      let apart = w.alone g (rw at refl) in
      let ran = running-settle job processed s.core in
      record {
        live = λ e. ran ∙ w.live e;
        bound = w.bound;
        no_zero = ground (arith, w.no_zero);
        waits = λ h k. ground (arith, w.waits h);
        told = λ h k. absurd (ground (arith, w.waits h));
        near = λ f. absurd (ground arith);
        alone = λ h k. ground (arith, w.alone h);
      }

  Step-IsAlert :
      {s t : Auto Q}
      → Step jobs parse_url max_results notifies put s t
      → IsOrderly s
      → IsAlert jobs s
      → IsAlert jobs t
  unfolding release
  Step-IsAlert {s} starts o w = start-IsAlert jobs s w
  Step-IsAlert {s} stops o w = stop-IsAlert jobs s o w
  Step-IsAlert {s} auto_starts o w = start_auto-IsAlert jobs notifies s o w
  Step-IsAlert {s} auto_stops o w = stop_auto-IsAlert jobs s o w
  Step-IsAlert {s} (stop_ends g asked e) o w = finish_stop-IsAlert jobs _ w
  Step-IsAlert {s} (enqueues job) o w = enqueue-IsAlert jobs (put job s.core.queue) s o w
  Step-IsAlert {s} (takes_slot g rest e p) o w = take_slot-IsAlert g rest s o w e p
  Step-IsAlert {s} (finishes g job processed p) o w = finish-IsAlert g job processed s w p
  Step-IsAlert {s} (releases g a p) o w = release-IsAlert jobs g a s w p
  Step-IsAlert {s} (resumes g a p) o w = resume-IsAlert jobs g a s w p
  Step-IsAlert {s} (times_out g p) o w = fire_timer-IsAlert jobs g s w p
  Step-IsAlert {s} (wakes g p) o w = iterate-IsAlert jobs g s w (λ h. ground (arith, h)) (rw p refl)

  Reach-IsAlert :
      {s t : Auto Q}
      → Reach jobs parse_url max_results notifies put s t
      → IsOrderly s
      → IsAlert jobs s
      → IsAlert jobs t
  Reach-IsAlert here o w = w
  Reach-IsAlert (next r step) o w =
      Step-IsAlert step (Reach-IsOrderly jobs parse_url max_results notifies put r o)
        (Reach-IsAlert r o w)

  -- No wakeup is lost: whatever is started, stopped, enqueued and settled, in whatever order, a loop
  -- sleeps without a timer only in the active generation, while the queue has nothing to deliver,
  -- and the next enqueue wakes it. The queue stays empty where a dequeue found it empty.
  pub waiting-IsEmpty :
      (core : State Q) (t : Auto Q) (g : ℕ)
      → Reach jobs parse_url max_results notifies put (idle_runtime core) t
      → t.loops g ≡ waiting
      → (g ≡ t.active)
        × IsEmpty jobs t.core.queue
        × ((job : QueueJob) → (enqueue (put job t.core.queue) t).loops g ≡ woken)
  unfolding enqueue signal_wakeup
  waiting-IsEmpty core t g r e =
      let w = Reach-IsAlert r (idle_runtime-IsOrderly core) (
        stopped-IsAwake (λ h. exited) 0 core.running false false none (IsEmpty jobs core.queue) refl
          (λ h. refl)) in
      let (mine, owns) = w.waits g (rw e refl) in
      let (told, empty) = w.told g e in (mine, empty, λ job. rw (told, owns) (ground arith))
