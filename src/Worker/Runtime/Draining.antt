-- ===== src/Worker/Runtime/Draining.antt =====
-- What `drain` does with the queue in the process.
use verify_agent.Prelude.{
  ℕ, suc, String, true, List, [], ◌∷◌, Option, none, some, Result, ok, throw, ◌≡◌, refl, ap, length,
  ◌++◌, sym,
}
use verify_agent.Errors.{Error}
use verify_agent.Domain.Types.{VerificationResult}
use verify_agent.Domain.Validation.{Url}
use verify_agent.Domain.Queue.{QueueJob}
use verify_agent.Worker.Registry.{Registry, store}
use verify_agent.Worker.Queue as Memory
use verify_agent.Worker.Runtime.{
  memory_queue, Outcome, idle, completed, failed, State, process_next, drain, Drain, collect,
  continue, settle, settle_store, next,
}

module _ (parse_url : String → Option Url) (max_results : ℕ)
    (process : QueueJob → Result Error VerificationResult) where
  -- The registry refuses the result of the job, with this error.
  abbrev pub IsUnstored : QueueJob → Error → State Memory.Queue → Type 0
  IsUnstored job e t =
      (result : VerificationResult) × (process job ≡ ok result)
      × (store parse_url max_results job.job_id result t.registry ≡ throw e)

  -- What one call makes of a queue that holds a job: the job's result cannot be stored, or it settles
  -- that job as the processor says.
  abbrev IsSettling : QueueJob → List QueueJob → Result Error Outcome × State Memory.Queue → Type 0
  IsSettling job es (throw e, t) = IsUnstored job e t × (t.queue.entries ≡ es)
  IsSettling job es (ok idle, t) = ⊥
  IsSettling job es (ok (completed j r), t) =
      (j ≡ job) × (process job ≡ ok r) × (t.running ≡ true) × (t.queue.entries ≡ es)
  IsSettling job es (ok (failed j e), t) =
      (j ≡ job) × (process job ≡ throw e) × (t.running ≡ true) × (t.queue.entries ≡ es)

  -- The outcomes are those of these jobs, in order, each as the processor says.
  abbrev pub Settled : List QueueJob → List Outcome → Type 0
  Settled [] [] = Unit
  Settled (job ∷ es) (completed j r ∷ os) = (j ≡ job) × (process job ≡ ok r) × Settled es os
  Settled (job ∷ es) (failed j e ∷ os) = (j ≡ job) × (process job ≡ throw e) × Settled es os
  Settled _ _ = ⊥

  -- A drain that ended: where it returned, it settled these jobs and left none; where it threw, the
  -- registry refused the result of one of them, and the queue holds those after it.
  abbrev pub Drained : List QueueJob → Drain Memory.Queue → Type 0
  Drained es none = ⊥
  Drained es (some (throw e, t)) =
      (before : List QueueJob) × (job : QueueJob) × (es ≡ before ++ job ∷ t.queue.entries)
      × IsUnstored job e t
  Drained es (some (ok os, t)) = Settled es os × (t.queue.entries ≡ [])

  collect-Drained :
      (o : Outcome) (job : QueueJob) (es : List QueueJob) (rest : Drain Memory.Queue)
      → ((os : List Outcome) → Settled es os → Settled (job ∷ es) (o ∷ os))
      → Drained es rest
      → Drained (job ∷ es) (collect o rest)
  collect-Drained o job es none h d = d
  collect-Drained o job es (some (throw e, t)) h (before, bad, same, unstored) =
      (job ∷ before, bad, ap (λ js. job ∷ js) same, unstored)
  collect-Drained o job es (some (ok os, t)) h (settled, left) = (h os settled, left)

  continue-Drained :
      (job : QueueJob) (es : List QueueJob) (o : Result Error Outcome) (t : State Memory.Queue)
      (rest : Drain Memory.Queue)
      → IsSettling job es (o, t)
      → (t.running ≡ true → t.queue.entries ≡ es → Drained es rest)
      → Drained (job ∷ es) (continue o t rest)
  continue-Drained job es (throw e) t rest (unstored, left) d =
      ([], job, ap (λ js. job ∷ js) (sym left), unstored)
  continue-Drained job es (ok idle) t rest h d = absurd h
  continue-Drained job es (ok (completed j r)) t rest (same, made, on, left) d =
      collect-Drained (completed j r) job es rest (λ os s. (same, made, s)) (d on left)
  continue-Drained job es (ok (failed j e)) t rest (same, made, on, left) d =
      collect-Drained (failed j e) job es rest (λ os s. (same, made, s)) (d on left)

  settle-IsSettling :
      (job : QueueJob) (es : List QueueJob) (s : State Memory.Queue)
      → s.running ≡ true
      → s.queue.entries ≡ es
      → IsSettling job es (settle memory_queue parse_url max_results process job (process job) s)
  unfolding settle settle_store memory_queue
  settle-IsSettling job es s on e = by_process (process job) refl
    where
      by_store :
          (r : VerificationResult) (o : Result Error Registry)
          → process job ≡ ok r
          → store parse_url max_results job.job_id r s.registry ≡ o
          → IsSettling job es (settle_store memory_queue parse_url max_results process job r o s)
      by_store r (ok registry) made stored = (refl, made, on, e)
      by_store r (throw err) made stored = ((r, made, stored), e)

      by_process :
          (o : Result Error VerificationResult)
          → process job ≡ o
          → IsSettling job es (settle memory_queue parse_url max_results process job o s)
      by_process (ok r) made =
          by_store r (store parse_url max_results job.job_id r s.registry) made refl
      by_process (throw err) made = (refl, made, on, e)

  -- Draining a running queue in the process ends within one call for each waiting job and one more.
  -- Where it returns, it settled exactly the waiting jobs, each once, in their order and as the
  -- processor says, and leaves the queue empty; it throws only where the registry refuses the result
  -- of a waiting job, and then the queue holds the jobs after that one.
  pub drain-Drained :
      (es : List QueueJob) (s : State Memory.Queue)
      → s.running ≡ true
      → s.queue.entries ≡ es
      → Drained es (drain memory_queue parse_url max_results process (suc (length es)) s)
  unfolding drain process_next next memory_queue
  drain-Drained [] s on e = rw (on, e) (tt, refl)
  drain-Drained (job ∷ es) s on e =
      rw (on, e)
        (let taken : State Memory.Queue = record {
          running = true;
          queue = record s.queue { entries = es };
          registry = s.registry;
        } in
          let settled = settle memory_queue parse_url max_results process job (process job) taken in
          continue-Drained job es settled.0 settled.1
            (drain memory_queue parse_url max_results process (suc (length es)) settled.1)
            (settle-IsSettling job es taken refl refl)
            (λ on1 left. drain-Drained es settled.1 on1 left))
