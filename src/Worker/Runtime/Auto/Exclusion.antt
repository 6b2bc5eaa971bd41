-- ===== src/Worker/Runtime/Auto/Exclusion.antt =====
-- Which loops hold the processing slot.
use verify_agent.Prelude.{
  ℕ, String, Bool, true, false, List, ◌∷◌, Option, none, some, nat_eq, ◌≡◌, refl, arith, Bool-cases,
  inl, inr,
}
use verify_agent.Domain.Validation.{Url}
use verify_agent.Domain.Queue.{QueueJob}
use verify_agent.Worker.Runtime.{JobQueue, idle, State}
use verify_agent.Worker.Runtime.Auto.{
  Auto, Phase, queued, processing, returned, invalidated, outcome, set_phase, is_valid, start,
  take_slot, fetch, finish, release, Step, Reach, here, next, starts, stops, auto_starts,
  auto_stops, stop_ends, enqueues, takes_slot, finishes, releases, resumes, times_out, wakes,
  idle_runtime,
}
use verify_agent.Worker.Runtime.Auto.Slot.{
  holds, in_chain, first, IsOrdered, released-IsOrdered, moved-IsOrdered,
}
use verify_agent.Worker.Runtime.Auto.Chaining.{
  IsOrderly, seen, iterate-IsOrderly, resume-IsOrderly, fire_timer-IsOrderly, stop-IsOrderly,
  finish_stop-IsOrderly, stop_auto-IsOrderly, start_auto-IsOrderly, enqueue-IsOrderly,
}

module _ {Q : Type 0} where
  pub idle_runtime-IsOrderly : (core : State Q) → IsOrderly (idle_runtime core)
  idle_runtime-IsOrderly core = record {
    listed = λ k. refl;
    once = tt;
    front = λ k e. absurd (ground arith);
    owner = λ k e. absurd (ground arith);
    known = λ k e. refl;
  }

module _ {Q : Type 0} (jobs : JobQueue Q) (parse_url : String → Option Url) (max_results : ℕ)
    (notifies : Bool) (put : QueueJob → Q → Q) where
  take_slot-IsOrderly :
      (g : ℕ) (rest : List ℕ) (s : Auto Q)
      → IsOrderly s
      → s.chain ≡ g ∷ rest
      → s.loops g ≡ queued
      → IsOrderly (take_slot jobs parse_url max_results notifies put g s)
  unfolding take_slot
  take_slot-IsOrderly g rest s o e p =
      let there = seen s o g (λ h. ground (arith, h)) in
      let front : first s.chain ≡ some g = rw e refl in
      let moved = λ (phase : Phase) (c : in_chain phase ≡ true).
        moved-IsOrdered s.loops s.chain s.resolver s.counter o g phase there (rw p refl) (rw p c)
          (λ _. front) in
      elim (Bool-cases (is_valid g s)) [
        | inl v ↦ rw v (by_job moved (jobs.dequeue s.core.queue))
        | inr v ↦ rw v (moved (returned invalidated) refl)
      ]
    where
      by_job :
          ((phase : Phase)
            → in_chain phase ≡ true
            → IsOrdered (set_phase g phase s.loops) s.chain s.resolver s.counter)
          → (d : Option QueueJob × Q)
          → IsOrderly (fetch jobs parse_url max_results notifies put g d s)
      by_job moved (none, q) = moved (returned (outcome idle)) refl
      by_job moved (some job, q) = moved (processing job) refl

  Step-IsOrderly :
      {s t : Auto Q} → Step jobs parse_url max_results notifies put s t → IsOrderly s → IsOrderly t
  unfolding start release finish
  Step-IsOrderly starts o = o
  Step-IsOrderly {s} stops o = stop-IsOrderly s o
  Step-IsOrderly {s} auto_starts o = start_auto-IsOrderly notifies s o
  Step-IsOrderly {s} auto_stops o = stop_auto-IsOrderly s o
  Step-IsOrderly {s} (stop_ends g asked e) o = finish_stop-IsOrderly _ o
  Step-IsOrderly {s} (enqueues job) o = enqueue-IsOrderly (put job s.core.queue) s o
  Step-IsOrderly {s} (takes_slot g rest e p) o = take_slot-IsOrderly g rest s o e p
  Step-IsOrderly {s} (finishes g job processed p) o =
      moved-IsOrdered s.loops s.chain s.resolver s.counter o g _
        (seen s o g (λ h. ground (arith, h))) (rw p refl) (rw p refl) (λ _. o.front g (rw p refl))
  Step-IsOrderly {s} (releases g a p) o =
      released-IsOrdered s.loops s.chain s.resolver s.counter g a o (rw p refl) (rw p refl)
  Step-IsOrderly {s} (resumes g a p) o =
      resume-IsOrderly g a s o (rw p refl) (rw p refl) (seen s o g (λ h. ground (arith, h)))
  Step-IsOrderly {s} (times_out g p) o = fire_timer-IsOrderly g s o p
  Step-IsOrderly {s} (wakes g p) o =
      iterate-IsOrderly g s o (rw p refl) (rw p refl) (seen s o g (λ h. ground (arith, h)))

  pub Reach-IsOrderly :
      {s t : Auto Q} → Reach jobs parse_url max_results notifies put s t → IsOrderly s → IsOrderly t
  Reach-IsOrderly here o = o
  Reach-IsOrderly (next r step) o = Step-IsOrderly step (Reach-IsOrderly r o)

  -- Whatever is started, stopped, enqueued and settled, in whatever order: no two generations hold
  -- the processing slot at a time, so that at most one verification is processed.
  pub exclusive :
      (core : State Q) (t : Auto Q) (g h : ℕ)
      → Reach jobs parse_url max_results notifies put (idle_runtime core) t
      → nat_eq g h ≡ false
      → holds (t.loops g) ≡ true
      → holds (t.loops h) ≡ false
  exclusive core t g h r apart a =
      let o = Reach-IsOrderly r (idle_runtime-IsOrderly core) in
      ground (arith, o.front g a, o.front h)
