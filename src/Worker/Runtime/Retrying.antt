-- ===== src/Worker/Runtime/Retrying.antt =====
-- What the runtime makes of a job that cannot be processed, on the durable queue.
use verify_agent.Prelude.{
  ℕ, zero, suc, String, true, [], ◌∷◌, Option, none, some, Result, ok, throw, ◌≡◌, refl, sym, ap,
  ◌∙◌, arith, inl, inr, All,
}
use verify_agent.Errors.{Error}
use verify_agent.Domain.Types.{VerificationResult}
use verify_agent.Domain.Validation.{Url}
use verify_agent.Domain.Queue.{QueueJob}
use verify_agent.Worker.SqliteQueue.{Table, is_pending, mark_processing, requeue, dequeue}
use verify_agent.Worker.SqliteQueue.Table.{IsTable}
use verify_agent.Worker.SqliteQueue.Delivery.{dequeue-IsNext}
use verify_agent.Worker.Runtime.{sqlite_queue, failed, State, process_next, drain, settle, next}

-- No row is being processed, as after the database is opened.
abbrev pub IsWaiting : Table → Type 0
IsWaiting rows = All (λ row. is_pending row.state ≡ true) rows

requeue-mark_processing :
    (id : String) (rows : Table) → IsWaiting rows → requeue id (mark_processing id rows) ≡ rows
unfolding requeue mark_processing
requeue-mark_processing id [] h = refl
requeue-mark_processing id (row ∷ rows) (h, hs) = ground (arith, requeue-mark_processing id rows hs)

module _ (parse_url : String → Option Url) (max_results : ℕ)
    (process : QueueJob → Result Error VerificationResult) where
  process_next-retry :
      (s : State Table) (job : QueueJob) (t : Table) (e : Error)
      → s.running ≡ true
      → IsTable s.queue
      → IsWaiting s.queue
      → dequeue s.queue ≡ (some job, t)
      → process job ≡ throw e
      → process_next sqlite_queue parse_url max_results process s ≡ (ok (failed job e), s)
  unfolding process_next next settle sqlite_queue
  process_next-retry s job t e on table waiting d fails = elim (dequeue-IsNext s.queue table) [
    | inr (_, none_left) ↦ absurd (let f = ap (λ p. p.0) (sym none_left ∙ d) in ground arith)
    | inl (row, other, _, _, taken) ↦
        let same : other ≡ job = some-injective (ap (λ p. p.0) (sym taken ∙ d)) in
        let back = requeue-mark_processing job.job_id s.queue waiting in
        rw (on, taken, same, fails, back) refl
  ]
    where
      some-injective : {a b : QueueJob} → some a ≡ some b → a ≡ b
      some-injective h = cc

  -- With the durable queue and no job in progress, draining never ends while the next job cannot be
  -- processed: the rejected job is the next job again. However long the loop runs, it has not
  -- returned.
  pub drain-retries :
      (fuel : ℕ) (s : State Table) (job : QueueJob) (t : Table) (e : Error)
      → s.running ≡ true
      → IsTable s.queue
      → IsWaiting s.queue
      → dequeue s.queue ≡ (some job, t)
      → process job ≡ throw e
      → drain sqlite_queue parse_url max_results process fuel s ≡ none
  unfolding drain
  drain-retries zero s job t e on table waiting d fails = refl
  drain-retries (suc fuel) s job t e on table waiting d fails =
      rw
        (
          process_next-retry s job t e on table waiting d fails,
          drain-retries fuel s job t e on table waiting d fails,
        )
        refl
