-- ===== src/Worker/SqliteQueue/History/Blocked.antt =====
-- What a row whose payload does not decode does to the jobs behind it.
use verify_agent.Prelude.{
  String, Bool, true, false, not, ◌&&◌, List, [], ◌∷◌, ◌++◌, Option, none, some, ok, ◌≡◌, ◌⊎◌, refl,
  sym, arith, All, All-In, All-append, All-of_In, In, In-append_left, In-filter, In-filter_of,
  some_of, every, filter, ◌==◌, reject_if, returns, ok-injective, Result-cases, inl, inr,
}
use mathlib.Core.Path.{subst}
use verify_agent.Prelude.Sorting.{str_le}
use verify_agent.Prelude.Ordering.{str_le-total}
use verify_agent.Domain.Queue.{QueueJob, create_queue_job}
use verify_agent.Domain.Queue.RoundTrip.{create_queue_job-eq-ok_iff}
use verify_agent.Worker.SqliteQueue.{
  Row, Table, is_pending, decode, decode_row, deliver, row_le, select_next, insert_row, enqueue,
  dequeue, acknowledge,
}
use verify_agent.Worker.SqliteQueue.Delivery.{IsNext, select_next-IsNext}
use verify_agent.Worker.SqliteQueue.History.{Operation, put, take, ack, rej, restart, step, run}

-- A pending row of the table, with every pending row that is readable strictly after it.
abbrev pub IsBlocking : Row → Table → Type 0
IsBlocking row rows =
    In row rows
    × (is_pending row.state ≡ true)
    × All
        (λ other.
          is_pending other.state ≡ true
          → (decode other.payload ≡ none) ⊎ (row_le other row ≡ false))
        rows

-- A job that is enqueued comes later than the row; nothing is rejected and nothing restarts.
abbrev pub is_behind : Row → Operation → Bool
is_behind row (put job) = not (str_le job.created_at row.enqueued_at)
is_behind row take = true
is_behind row (ack id) = true
is_behind row (rej id) = false
is_behind row restart = false

dequeue-blocked : (row : Row) (rows : Table) → IsBlocking row rows → dequeue rows ≡ (none, rows)
unfolding dequeue decode_row deliver
dequeue-blocked row rows (inside, waits, all) =
    by_next (select_next rows) refl (select_next-IsNext rows)
  where
    by_next :
        (next : Option Row)
        → select_next rows ≡ next
        → IsNext rows next
        → deliver (decode_row (select_next rows)) rows ≡ (none, rows)
    by_next none e n = rw e refl
    by_next (some first) e (held, ready, before) =
        let early : row_le first row ≡ true = All-In _ row rows before inside waits in
        elim (All-In _ first rows all held ready) [
          | inl bad ↦ rw (e, bad) refl
          | inr late ↦ absurd (ground arith)
        ]

-- The row that an enqueued job adds.
added :
    (job : QueueJob) (rows next : Table)
    → enqueue job rows ≡ ok next
    → (row : Row) × (next ≡ rows ++ row ∷ []) × (row.enqueued_at ≡ job.created_at)
unfolding enqueue insert_row
added job rows next h = returns (create_queue_job job) _ h λ frozen made h1.
    returns (reject_if (some_of (λ other. other.job_id == frozen.job_id) rows) _) _ h1 λ _ _ h2.
      let (_, same) = (create_queue_job-eq-ok_iff job frozen).0 made in
      (_, sym (ok-injective h2), rw same refl)

later_row :
    (row other : Row) → str_le other.enqueued_at row.enqueued_at ≡ false → row_le other row ≡ false
unfolding row_le
later_row row other h = ground (arith, str_le-total other.enqueued_at row.enqueued_at)

put-blocked :
    (job : QueueJob) (row : Row) (rows next : Table)
    → is_behind row (put job) ≡ true
    → enqueue job rows ≡ ok next
    → IsBlocking row rows
    → IsBlocking row next
put-blocked job row rows next behind h (inside, waits, all) =
    let (new, e, dated) = added job rows next h in
    let after : str_le new.enqueued_at row.enqueued_at ≡ false = rw dated (ground arith) in
    subst (IsBlocking row) (sym e) (
      In-append_left row rows (new ∷ []) inside,
      waits,
      All-append _ rows (new ∷ []) all ((λ _. inr (later_row row new after)), tt),
    )

acknowledge-blocked :
    (id : String) (row : Row) (rows : Table)
    → IsBlocking row rows
    → IsBlocking row (acknowledge id rows)
unfolding acknowledge
acknowledge-blocked id row rows (inside, waits, all) =
    let keep = λ (other : Row). not (other.job_id == id && not (is_pending other.state)) in
    (
      In-filter_of keep row rows inside (ground arith),
      waits,
      All-of_In _ (filter keep rows)
          (λ other m. All-In _ other rows all (In-filter keep other rows m).0),
    )

step-blocked :
    (op : Operation) (row : Row) (rows : Table)
    → is_behind row op ≡ true
    → IsBlocking row rows
    → ((step op rows).0 ≡ []) × IsBlocking row (step op rows).1
unfolding step
step-blocked (put job) row rows h b = elim (Result-cases (enqueue job rows)) [
  | inl (next, e) ↦ rw e (refl, put-blocked job row rows next h e b)
  | inr (err, e) ↦ rw e (refl, b)
]
step-blocked take row rows h b = rw (dequeue-blocked row rows b) (refl, b)
step-blocked (ack id) row rows h b = (refl, acknowledge-blocked id row rows b)
step-blocked (rej id) row rows h b = absurd (ground arith)
step-blocked restart row rows h b = absurd (ground arith)

-- While a pending row stands in the table that no readable pending row precedes, itself included, so
-- that its own payload does not decode, the durable queue delivers nothing, whatever is dequeued,
-- acknowledged or enqueued for a later time, and the row stays so.
pub run-blocked :
    (ops : List Operation) (row : Row) (rows : Table)
    → every (is_behind row) ops ≡ true
    → IsBlocking row rows
    → ((run ops rows).0 ≡ []) × IsBlocking row (run ops rows).1
unfolding run
run-blocked [] row rows h b = (refl, b)
run-blocked (op ∷ ops) row rows h b =
    let (quiet, c) = step-blocked op row rows (ground arith) b in
    let (rest, d) = run-blocked ops row (step op rows).1 (ground arith) c in
    (rw (quiet, rest) refl, d)
