-- ===== src/Worker/SqliteQueue/Delivery.antt =====
-- Which job the durable queue delivers.
use mathlib.Core.Path.{subst}
use verify_agent.Prelude.{
  true, false, [], ◌∷◌, Option, none, some, ◌≡◌, refl, sym, arith, In, All, All-In, Bool-cases, inl,
  inr, ◌⊎◌,
}
use verify_agent.Prelude.Ordering.{str_le-total, str_le_trans}
use verify_agent.Domain.Queue.{QueueJob}
use verify_agent.Domain.Queue.RoundTrip.{read_queue_job-job_json}
use verify_agent.Worker.SqliteQueue.{
  Row, Table, is_pending, decode, mark_processing, dequeue, deliver, decode_row, select_next,
  row_le, least,
}
use verify_agent.Worker.SqliteQueue.Table.{IsTable, IsStored}

-- The order of the statement is total and transitive.
row_le-total : (a b : Row) → row_le a b ≡ false → row_le b a ≡ true
unfolding row_le
row_le-total a b h = ground (
  arith,
  str_le-total a.enqueued_at b.enqueued_at,
  str_le-total b.enqueued_at a.enqueued_at,
  str_le-total a.job_id b.job_id,
)

row_le_refl : (a : Row) → row_le a a ≡ true
row_le_refl a = elim (Bool-cases (row_le a a)) [
  | inl e ↦ e
  | inr e ↦ let f = row_le-total a a e in absurd (ground arith)
]

row_le_trans : (a b c : Row) → row_le a b ≡ true → row_le b c ≡ true → row_le a c ≡ true
unfolding row_le
row_le_trans a b c h k = ground (
  arith,
  str_le-total a.enqueued_at b.enqueued_at,
  str_le-total b.enqueued_at c.enqueued_at,
  str_le-total a.enqueued_at c.enqueued_at,
  str_le-total c.enqueued_at a.enqueued_at,
  str_le_trans a.enqueued_at b.enqueued_at c.enqueued_at,
  str_le_trans c.enqueued_at a.enqueued_at b.enqueued_at,
  str_le_trans b.enqueued_at c.enqueued_at a.enqueued_at,
  str_le_trans a.job_id b.job_id c.job_id,
)

-- What `select_next` answers: a pending row that is least among the pending ones, or that none is.
abbrev pub IsNext : Table → Option Row → Type 0
IsNext rows none = All (λ other. is_pending other.state ≡ false) rows
IsNext rows (some row) =
    In row rows
    × (is_pending row.state ≡ true)
    × All (λ other. is_pending other.state ≡ true → row_le row other ≡ true) rows

weaken :
    (a b : Row) (rows : Table)
    → row_le a b ≡ true
    → All (λ other. is_pending other.state ≡ true → row_le b other ≡ true) rows
    → All (λ other. is_pending other.state ≡ true → row_le a other ≡ true) rows
weaken a b [] h all = tt
weaken a b (c ∷ rows) h (first, all) =
    ((λ p. row_le_trans a b c h (first p)), weaken a b rows h all)

vacuous :
    (a : Row) (rows : Table)
    → All (λ other. is_pending other.state ≡ false) rows
    → All (λ other. is_pending other.state ≡ true → row_le a other ≡ true) rows
vacuous a [] all = tt
vacuous a (c ∷ rows) (first, all) = ((λ p. absurd (ground arith)), vacuous a rows all)

least-first : (a b : Row) → row_le a b ≡ true → least a (some b) ≡ a
unfolding least
least-first a b h = ground arith

least-second : (a b : Row) → row_le a b ≡ false → least a (some b) ≡ b
unfolding least
least-second a b h = ground arith

pub select_next-IsNext : (rows : Table) → IsNext rows (select_next rows)
unfolding select_next
select_next-IsNext [] = tt
select_next-IsNext (row ∷ rows) = elim (Bool-cases (is_pending row.state)) [
  | inl p ↦ rw p (by_rest p (select_next rows) (select_next-IsNext rows))
  | inr p ↦ rw p (skip p (select_next rows) (select_next-IsNext rows))
]
  where
    by_rest :
        is_pending row.state ≡ true
        → (o : Option Row) → IsNext rows o
        → IsNext (row ∷ rows) (some (least row o))
    by_rest p none all = (inl refl, p, ((λ _. row_le_refl row), vacuous row rows all))
    by_rest p (some other) (m, q, all) = elim (Bool-cases (row_le row other)) [
      | inl e ↦
          subst (λ r. IsNext (row ∷ rows) (some r)) (sym (least-first row other e))
            (inl refl, p, ((λ _. row_le_refl row), weaken row other rows e all))
      | inr e ↦
          subst (λ r. IsNext (row ∷ rows) (some r)) (sym (least-second row other e))
            (inr m, q, ((λ _. row_le-total row other e), all))
    ]

    skip : is_pending row.state ≡ false → (o : Option Row) → IsNext rows o → IsNext (row ∷ rows) o
    skip p none all = (p, all)
    skip p (some other) (m, q, all) = (inr m, q, ((λ r. absurd (ground arith)), all))

decode-IsStored :
    (row : Row)
    → IsStored row
    → (job : QueueJob) × (decode row.payload ≡ some job) × (row.job_id ≡ job.job_id)
unfolding decode
decode-IsStored row (job, valid, payload, named, dated) =
    (job, rw (payload, read_queue_job-job_json job valid) refl, named)

-- A dequeue of a well-formed table delivers a job exactly if some row is pending: the job of a
-- pending row that no pending row precedes, by time and then by identifier, and that row alone is
-- marked.
pub dequeue-IsNext :
    (rows : Table)
    → IsTable rows
    → ((row : Row) × (job : QueueJob) × IsNext rows (some row)
        × (row.job_id ≡ job.job_id)
        × (dequeue rows ≡ (some job, mark_processing job.job_id rows)))
      ⊎ (IsNext rows none × (dequeue rows ≡ (none, rows)))
unfolding dequeue deliver decode_row
dequeue-IsNext rows t = by_next (select_next rows) refl (select_next-IsNext rows)
  where
    by_next :
        (o : Option Row)
        → select_next rows ≡ o
        → IsNext rows o
        → ((row : Row) × (job : QueueJob) × IsNext rows (some row)
            × (row.job_id ≡ job.job_id)
            × (dequeue rows ≡ (some job, mark_processing job.job_id rows)))
          ⊎ (IsNext rows none × (dequeue rows ≡ (none, rows)))
    by_next none e next = inr (next, rw e refl)
    by_next (some row) e next =
        let (job, decoded, named) =
          decode-IsStored row (All-In IsStored row rows t.stored next.0) in
        inl (row, job, next, named, rw (e, decoded) refl)
