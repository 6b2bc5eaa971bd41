-- ===== src/Worker/Runtime/Auto/Stopping.antt =====
-- What a stopped generation still does.
use verify_agent.Prelude.{
  ℕ, suc, ◌≤◌, String, Bool, false, Option, none, some, nat_eq, ◌≡◌, arith, Bool-cases, inl, inr,
}
use verify_agent.Domain.Validation.{Url}
use verify_agent.Domain.Queue.{QueueJob}
use verify_agent.Worker.Runtime.{JobQueue, idle, completed, failed}
use verify_agent.Worker.Runtime.Auto.{
  Auto, Answer, threw, invalidated, outcome, is_valid, iterate, signal_wakeup, wait, resume_idle,
  resume, fire_timer, start, stop, start_auto, finish_stop, stop_auto, enqueue, take_slot, fetch,
  finish, release, Step, Reach, here, next, starts, stops, auto_starts, auto_stops, stop_ends,
  enqueues, takes_slot, finishes, releases, resumes, times_out, wakes,
}
use verify_agent.Worker.Runtime.Auto.Sleeping.{works}

module _ {Q : Type 0} where
  -- A generation that was started, is not the active one and processes nothing.
  abbrev pub IsOver : ℕ → Auto Q → Type 0
  IsOver g s = (1 ≤ g) × (g ≤ s.counter) × (nat_eq s.active g ≡ false) × (works (s.loops g) ≡ false)

  IsOver-iterate : (g h : ℕ) (s : Auto Q) → IsOver g s → IsOver g (iterate h s)
  unfolding iterate
  IsOver-iterate g h s (one, low, off, quiet) = (one, ground arith, ground arith, ground arith)

  IsOver-signal_wakeup : (g : ℕ) (s : Auto Q) → IsOver g s → IsOver g (signal_wakeup s)
  unfolding signal_wakeup
  IsOver-signal_wakeup g s (one, low, off, quiet) = (one, low, off, ground arith)

  IsOver-resume : (g h : ℕ) (a : Answer) (s : Auto Q) → IsOver g s → IsOver g (resume h a s)
  unfolding resume resume_idle wait
  IsOver-resume g h invalidated s (one, low, off, quiet) = (one, low, off, ground arith)
  IsOver-resume g h threw s o = IsOver-iterate g h s o
  IsOver-resume g h (outcome idle) s (one, low, off, quiet) =
      (one, ground arith, ground arith, ground arith)
  IsOver-resume g h (outcome (completed job result)) s o = IsOver-iterate g h _ o
  IsOver-resume g h (outcome (failed job e)) s o = IsOver-iterate g h _ o

  IsOver-stop_auto : (g : ℕ) (s : Auto Q) → IsOver g s → IsOver g (stop_auto s)
  unfolding stop_auto finish_stop
  IsOver-stop_auto g s (one, low, off, quiet) =
      let (_, _, _, still) =
        IsOver-signal_wakeup g (record s { active = 0 }) (one, low, ground arith, quiet) in
      elim (Bool-cases (nat_eq s.active_loop 0)) [
        | inl e ↦ rw e (one, low, ground arith, still)
        | inr e ↦ rw e (one, low, ground arith, still)
      ]

  IsOver-start_auto :
      (g : ℕ) (notifies : Bool) (s : Auto Q) → IsOver g s → IsOver g (start_auto notifies s)
  unfolding start_auto
  IsOver-start_auto g notifies s (one, low, off, quiet) = elim (Bool-cases (nat_eq s.active 0)) [
    | inl e ↦ rw e (IsOver-iterate g (suc s.counter) _ (one, omega arith, ground arith, quiet))
    | inr e ↦ rw e (one, low, off, quiet)
  ]

module _ {Q : Type 0} (jobs : JobQueue Q) (parse_url : String → Option Url) (max_results : ℕ)
    (notifies : Bool) (put : QueueJob → Q → Q) where
  IsOver-take_slot :
      (g h : ℕ) (s : Auto Q)
      → IsOver g s
      → IsOver g (take_slot jobs parse_url max_results notifies put h s)
  unfolding take_slot
  IsOver-take_slot g h s (one, low, off, quiet) = elim (Bool-cases (is_valid h s)) [
    | inl e ↦ rw e (by_job (ground arith) (jobs.dequeue s.core.queue))
    | inr e ↦ rw e (one, low, off, ground arith)
  ]
    where
      by_job :
          nat_eq g h ≡ false
          → (d : Option QueueJob × Q)
          → IsOver g (fetch jobs parse_url max_results notifies put h d s)
      by_job apart (none, q) = (one, low, off, ground arith)
      by_job apart (some job, q) = (one, low, off, ground arith)

  Step-IsOver :
      (g : ℕ) {s t : Auto Q}
      → Step jobs parse_url max_results notifies put s t
      → IsOver g s
      → IsOver g t
  unfolding start stop stop_auto finish_stop enqueue take_slot finish release fire_timer
  Step-IsOver g starts o = o
  Step-IsOver g {s} stops (one, low, off, quiet) =
      IsOver-signal_wakeup g (record s { core = record s.core { running = false }; active = 0 })
        (one, low, ground arith, quiet)
  Step-IsOver g {s} auto_starts o = IsOver-start_auto g notifies s o
  Step-IsOver g {s} auto_stops (one, low, off, quiet) = IsOver-stop_auto g s (one, low, off, quiet)
  Step-IsOver g {s} (stop_ends h asked e) (one, low, off, quiet) =
      (one, ground arith, ground arith, ground arith)
  Step-IsOver g {s} (enqueues job) (one, low, off, quiet) =
      (one, ground arith, ground arith, ground arith)
  Step-IsOver g {s} (takes_slot h rest e p) o = IsOver-take_slot g h s o
  Step-IsOver g {s} (finishes h job processed p) (one, low, off, quiet) =
      (one, low, off, ground arith)
  Step-IsOver g {s} (releases h a p) (one, low, off, quiet) = (one, low, off, ground arith)
  Step-IsOver g {s} (resumes h a p) o = IsOver-resume g h a s o
  Step-IsOver g {s} (times_out h p) (one, low, off, quiet) = (one, low, off, ground arith)
  Step-IsOver g {s} (wakes h p) o = IsOver-iterate g h s o

  -- A generation that was stopped and processes nothing never processes anything again, whatever is
  -- started, stopped, enqueued and settled later; no new generation is the same one.
  pub stopped_for_good :
      (g : ℕ) {s t : Auto Q}
      → Reach jobs parse_url max_results notifies put s t
      → IsOver g s
      → IsOver g t
  stopped_for_good g here o = o
  stopped_for_good g (next r step) o = Step-IsOver g step (stopped_for_good g r o)
