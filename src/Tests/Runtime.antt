-- ===== src/Tests/Runtime.antt =====
-- Runs of apps/worker/src/runtime.ts: automatic processing and the promises for settled jobs.
use verify_agent.Prelude.{true, false, List, [], ◌∷◌, ◌++◌, none, some, ◌≡◌, refl, ◌⊎◌, arith}
use verify_agent.Domain.Queue.{QueueJob}
use verify_agent.JsMap.{get}
use verify_agent.Worker.Registry.{empty_registry}
use verify_agent.Worker.Queue as Memory
use verify_agent.Worker.Runtime.{State, Outcome, idle, completed, memory_queue}
use verify_agent.Worker.Runtime.Auto.{
  Auto, woken, outcome, here, next, auto_starts, takes_slot, releases, resumes, idle_runtime,
  start_auto, take_slot, release, resume, stop_auto, enqueue,
}
use verify_agent.Worker.Runtime.Auto.Exclusion.{exclusive}
use verify_agent.Worker.Runtime.Auto.Slot.{holds}
use verify_agent.Worker.Runtime.Auto.Waking.{waiting-IsEmpty}
use verify_agent.Worker.Runtime.Auto.Alert.{IsEmpty}
use verify_agent.Worker.Runtime.Auto.Stopping.{IsOver, stopped_for_good}
use verify_agent.Worker.Runtime.Waiting.{Waits, wait_for_queue_job, remember_settled}
use verify_agent.Worker.Runtime.Waiting.Calls.{Call, settling, waiting, expiring, run}
use verify_agent.Worker.Runtime.Waiting.Telling.{told}
use verify_agent.Worker.Runtime.Waiting.Waking.{wait-resolved}
use verify_agent.Tests.Samples.{job_with, verification_with, no_url, today}

abbrev job : QueueJob
job = job_with "job-a" today

abbrev append : QueueJob → Memory.Queue → Memory.Queue
append j q = record q { entries = q.entries ++ j ∷ [] }

abbrev core_of : List QueueJob → State Memory.Queue
core_of entries = record {
  running = false;
  queue = record { entries = entries; listeners = [] };
  registry = empty_registry;
}

abbrev started : List QueueJob → Auto Memory.Queue
started entries = start_auto true (idle_runtime (core_of entries))

abbrev busy : Auto Memory.Queue
busy = take_slot memory_queue no_url 100 true append 1 (started (job ∷ []))

exclusive_example : holds (busy.loops 2) ≡ false
unfolding memory_queue start_auto take_slot
exclusive_example =
    exclusive memory_queue no_url 100 true append (core_of (job ∷ [])) busy 1 2
      (next (next here auto_starts) (takes_slot 1 [] refl refl)) refl refl

memory_queue-IsEmpty :
    (q : Memory.Queue) → IsEmpty memory_queue q → IsEmpty memory_queue (memory_queue.dequeue q).1
unfolding memory_queue
memory_queue-IsEmpty q h = rest q.entries h
  where
    rest :
        (entries : List QueueJob)
        → IsEmpty memory_queue (record q { entries = entries })
        → IsEmpty memory_queue (memory_queue.dequeue (record q { entries = entries })).1
    rest [] e = refl
    rest (j ∷ js) e = absurd (ground arith)

abbrev found_none : Auto Memory.Queue
found_none = take_slot memory_queue no_url 100 true append 1 (started [])

abbrev asleep : Auto Memory.Queue
asleep =
    resume 1 (outcome idle)
      (release memory_queue no_url 100 true append 1 (outcome idle) found_none)

waiting-IsEmpty_example :
    (1 ≡ asleep.active)
    × IsEmpty memory_queue asleep.core.queue
    × ((job : QueueJob) → (enqueue (append job asleep.core.queue) asleep).loops 1 ≡ woken)
unfolding memory_queue start_auto take_slot release resume
waiting-IsEmpty_example =
    waiting-IsEmpty memory_queue no_url 100 true append memory_queue-IsEmpty (core_of []) asleep 1
      (next
        (next (next (next here auto_starts) (takes_slot 1 [] refl refl))
          (releases 1 (outcome idle) refl))
        (resumes 1 (outcome idle) refl))
      refl

abbrev stopped : Auto Memory.Queue
stopped = stop_auto (started (job ∷ []))

stopped_for_good_example :
    IsOver 1 (take_slot memory_queue no_url 100 true append 1 (start_auto true stopped))
unfolding start_auto take_slot stop_auto
stopped_for_good_example =
    stopped_for_good memory_queue no_url 100 true append 1 {s = stopped}
      (next (next here auto_starts) (takes_slot 1 (2 ∷ []) refl refl))
      (omega arith, omega arith, refl, refl)

abbrev no_waits : Waits
no_waits = record { recent = []; waiters = []; listeners = []; heard = []; resolved = [] }

abbrev done : Outcome
done = completed job (verification_with "verification-1" "job-a")

abbrev calls : List Call
calls = waiting "job-b" 5 ∷ settling "job-b" done ∷ expiring "job-b" 4 ∷ waiting "job-a" 6 ∷ []

wait-resolved_example :
    (let t = run calls (wait_for_queue_job "job-a" 4 no_waits) in
      ((p : Outcome) × (get "job-a" no_waits.recent ≡ some p) × (told 4 t.resolved ≡ p ∷ []))
      ⊎ ((get "job-a" no_waits.recent ≡ none)
          × (told 4 t.resolved ≡ [])
          × (told 4 (remember_settled "job-a" done t).resolved ≡ done ∷ [])))
unfolding get
wait-resolved_example =
    wait-resolved calls "job-a" 4 done no_waits (record { spoken = refl; queued = λ k. refl }) refl
      refl
