-- ===== src/Worker/SqliteQueue/Table.antt =====
-- The invariant of the durable queue's table.
use mathlib.Core.Path.{subst}
use verify_agent.Prelude.{
  String, Bool, true, false, not, ◌&&◌, List, [], ◌∷◌, ◌++◌, map, Option, none, some, ok, ◌≡◌, refl,
  sym, ap, arith, All, All-append, NoDup, includes, some_of, filter, eq_iff, ◌==◌, if◌then◌else◌,
  returns, ok-injective, Bool-cases, inl, inr, reject_if,
}
use verify_agent.Domain.Queue.{QueueJob, create_queue_job, job_json}
use verify_agent.Domain.Queue.RoundTrip.{IsValidJob, create_queue_job-eq-ok_iff}
use verify_agent.Worker.SqliteQueue.{
  Row, Table, State, pending, processing, is_pending, mark_processing, requeue, acknowledge, reopen,
  insert_row, enqueue, dequeue, deliver, decode_row, select_next, with_state,
}

-- A row that `enqueue` wrote: the payload is the object of a valid job, its columns are the job's.
abbrev pub IsStored : Row → Type 0
IsStored row =
    (job : QueueJob) × IsValidJob job
    × (row.payload ≡ some (job_json job))
    × (row.job_id ≡ job.job_id)
    × (row.enqueued_at ≡ job.created_at)

abbrev pub ids : Table → List String
ids rows = map (λ r. r.job_id) rows

pub record IsTable (rows : Table) : Type 0 where
  pub stored : All IsStored rows
  pub once : NoDup (ids rows)

pub ids-mark_processing : (id : String) (rows : Table) → ids (mark_processing id rows) ≡ ids rows
unfolding mark_processing
ids-mark_processing id [] = refl
ids-mark_processing id (row ∷ rows) = ground (arith, ids-mark_processing id rows)

pub ids-requeue : (id : String) (rows : Table) → ids (requeue id rows) ≡ ids rows
unfolding requeue
ids-requeue id [] = refl
ids-requeue id (row ∷ rows) = ground (arith, ids-requeue id rows)

pub ids-reopen : (rows : Table) → ids (reopen rows) ≡ ids rows
unfolding reopen
ids-reopen [] = refl
ids-reopen (row ∷ rows) = ap (λ t. row.job_id ∷ t) (ids-reopen rows)

IsStored-with_state :
    (b : Bool) (state : State) (row : Row)
    → IsStored row
    → IsStored (if b then with_state state row else row)
IsStored-with_state true state row h = h
IsStored-with_state false state row h = h

IsStored-mark_processing :
    (id : String) (rows : Table) → All IsStored rows → All IsStored (mark_processing id rows)
unfolding mark_processing
IsStored-mark_processing id [] h = tt
IsStored-mark_processing id (row ∷ rows) (h, hs) = (
  IsStored-with_state (row.job_id == id && is_pending row.state) processing row h,
  IsStored-mark_processing id rows hs,
)

IsStored-requeue : (id : String) (rows : Table) → All IsStored rows → All IsStored (requeue id rows)
unfolding requeue
IsStored-requeue id [] h = tt
IsStored-requeue id (row ∷ rows) (h, hs) = (
  IsStored-with_state (row.job_id == id && not (is_pending row.state)) pending row h,
  IsStored-requeue id rows hs,
)

IsStored-reopen : (rows : Table) → All IsStored rows → All IsStored (reopen rows)
unfolding reopen
IsStored-reopen [] h = tt
IsStored-reopen (row ∷ rows) (h, hs) = (h, IsStored-reopen rows hs)

IsStored-filter : (p : Row → Bool) (rows : Table) → All IsStored rows → All IsStored (filter p rows)
IsStored-filter p [] h = tt
IsStored-filter p (row ∷ rows) (h, hs) = elim (Bool-cases (p row)) [
  | inl e ↦ rw e (h, IsStored-filter p rows hs)
  | inr e ↦ rw e (IsStored-filter p rows hs)
]

includes-filter :
    (p : Row → Bool) (k : String) (rows : Table)
    → includes (ids rows) k ≡ false
    → includes (ids (filter p rows)) k ≡ false
includes-filter p k [] h = refl
includes-filter p k (row ∷ rows) h = ground (arith, includes-filter p k rows)

once-filter : (p : Row → Bool) (rows : Table) → NoDup (ids rows) → NoDup (ids (filter p rows))
once-filter p [] h = tt
once-filter p (row ∷ rows) (h, hs) = elim (Bool-cases (p row)) [
  | inl e ↦ rw e (includes-filter p row.job_id rows h, once-filter p rows hs)
  | inr e ↦ rw e (once-filter p rows hs)
]

once-snoc :
    (row : Row) (rows : Table)
    → some_of (λ other. other.job_id == row.job_id) rows ≡ false
    → NoDup (ids rows)
    → NoDup (ids (rows ++ row ∷ []))
once-snoc row [] absent h = (refl, tt)
once-snoc row (first ∷ rows) absent (h, hs) = (apart rows h, once-snoc row rows (ground arith) hs)
  where
    differs : (row.job_id == first.job_id) ≡ false
    differs = ground (arith, eq_iff row.job_id first.job_id, eq_iff first.job_id row.job_id)

    apart :
        (ts : Table)
        → includes (ids ts) first.job_id ≡ false
        → includes (ids (ts ++ row ∷ [])) first.job_id ≡ false
    apart [] e = ground (arith, differs)
    apart (t ∷ ts) e = ground (arith, apart ts)

pub enqueue-IsTable :
    (job : QueueJob) (rows next : Table) → IsTable rows → enqueue job rows ≡ ok next → IsTable next
unfolding enqueue insert_row
enqueue-IsTable job rows next t h = returns (create_queue_job job) _ h λ frozen e h1.
    returns (reject_if (some_of (λ other. other.job_id == frozen.job_id) rows) _) _ h1
      λ u absent h2.
        let (valid, same) = (create_queue_job-eq-ok_iff job frozen).0 e in
        subst IsTable (ok-injective h2) (record {
          stored =
              All-append IsStored rows _ t.stored
                ((frozen, subst IsValidJob (sym same) valid, refl, refl, refl), tt);
          once = once-snoc _ rows (ground arith) t.once;
        })

pub mark_processing-IsTable :
    (id : String) (rows : Table) → IsTable rows → IsTable (mark_processing id rows)
mark_processing-IsTable id rows t = record {
  stored = IsStored-mark_processing id rows t.stored;
  once = rw (ids-mark_processing id rows) t.once;
}

pub dequeue-IsTable : (rows : Table) → IsTable rows → IsTable (dequeue rows).1
unfolding dequeue deliver
dequeue-IsTable rows t = by_job (decode_row (select_next rows))
  where
    by_job : (o : Option QueueJob) → IsTable (deliver o rows).1
    by_job none = t
    by_job (some job) = mark_processing-IsTable job.job_id rows t

pub acknowledge-IsTable :
    (id : String) (rows : Table) → IsTable rows → IsTable (acknowledge id rows)
unfolding acknowledge
acknowledge-IsTable id rows t = record {
  stored = IsStored-filter _ rows t.stored;
  once = once-filter _ rows t.once;
}

pub requeue-IsTable : (id : String) (rows : Table) → IsTable rows → IsTable (requeue id rows)
requeue-IsTable id rows t = record {
  stored = IsStored-requeue id rows t.stored;
  once = rw (ids-requeue id rows) t.once;
}

pub reopen-IsTable : (rows : Table) → IsTable rows → IsTable (reopen rows)
reopen-IsTable rows t = record {
  stored = IsStored-reopen rows t.stored;
  once = rw (ids-reopen rows) t.once;
}
