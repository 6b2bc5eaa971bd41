-- ===== src/Worker/SqliteQueue/History/Once.antt =====
-- What the durable queue delivers again, and what it holds.
use mathlib.Core.Path.{subst}
use verify_agent.Prelude.{
  String, Bool, true, false, not, ◌&&◌, List, [], ◌∷◌, ◌++◌, some, ok, ◌≡◌, refl, sym, ap, ◌∙◌,
  arith, All, All-In, All-append, includes, some_of, eq_iff, ◌==◌, if◌then◌else◌, returns,
  ok-injective, Bool-cases, Result-cases, inl, inr, reject_if, In-includes, In-map,
}
use verify_agent.Domain.Queue.{QueueJob, create_queue_job}
use verify_agent.Worker.SqliteQueue.{
  Table, with_state, processing, is_pending, mark_processing, requeue, acknowledge, enqueue,
  insert_row, dequeue,
}
use verify_agent.Worker.SqliteQueue.Table.{
  IsTable, ids, ids-mark_processing, mark_processing-IsTable,
}
use verify_agent.Worker.SqliteQueue.Delivery.{dequeue-IsNext}
use verify_agent.Worker.SqliteQueue.History.{
  Operation, put, take, ack, rej, restart, delivered, step, run, step-IsTable, is_ack_of,
  step-keeps,
}

-- Every row of the job is being processed.
abbrev pub IsHeld : String → Table → Type 0
IsHeld k rows = All (λ row. (row.job_id == k) ≡ true → is_pending row.state ≡ false) rows

abbrev pub releases : String → Operation → Bool
releases k (ack id) = id == k
releases k (rej id) = id == k
releases k restart = true
releases k (put job) = false
releases k take = false

IsHeld-mark_processing :
    (id k : String) (rows : Table) → IsHeld k rows → IsHeld k (mark_processing id rows)
unfolding mark_processing
IsHeld-mark_processing id k [] h = tt
IsHeld-mark_processing id k (row ∷ rows) (h, hs) =
    (marked (row.job_id == id && is_pending row.state), IsHeld-mark_processing id k rows hs)
  where
    marked :
        (b : Bool)
        → ((if b then with_state processing row else row).job_id == k) ≡ true
        → is_pending (if b then with_state processing row else row).state ≡ false
    marked true e = refl
    marked false e = h e

IsHeld-acknowledge : (id k : String) (rows : Table) → IsHeld k rows → IsHeld k (acknowledge id rows)
unfolding acknowledge
IsHeld-acknowledge id k [] h = tt
IsHeld-acknowledge id k (row ∷ rows) (h, hs) =
    elim (Bool-cases (row.job_id == id && not (is_pending row.state))) [
      | inl e ↦ rw e (IsHeld-acknowledge id k rows hs)
      | inr e ↦ rw e (h, IsHeld-acknowledge id k rows hs)
    ]

IsHeld-requeue :
    (id k : String) (rows : Table) → (id == k) ≡ false → IsHeld k rows → IsHeld k (requeue id rows)
unfolding requeue
IsHeld-requeue id k [] apart h = tt
IsHeld-requeue id k (row ∷ rows) apart (h, hs) = (
  (λ e. elim (Bool-cases (row.job_id == id && not (is_pending row.state))) [
    | inl t ↦ absurd (ground (arith, eq_iff row.job_id id, eq_iff row.job_id k, eq_iff id k))
    | inr t ↦ let e1 : (row.job_id == k) ≡ true = ground arith in let f = h e1 in ground arith
  ]),
  IsHeld-requeue id k rows apart hs,
)

IsHeld-enqueue :
    (job : QueueJob) (k : String) (rows next : Table)
    → enqueue job rows ≡ ok next
    → includes (ids rows) k ≡ true
    → IsHeld k rows
    → IsHeld k next
unfolding enqueue insert_row
IsHeld-enqueue job k rows next h m held = returns (create_queue_job job) _ h λ frozen e h1.
    returns (reject_if (some_of (λ other. other.job_id == frozen.job_id) rows) _) _ h1
      λ u absent h2. subst (IsHeld k) (ok-injective h2) (
        All-append (λ row. (row.job_id == k) ≡ true → is_pending row.state ≡ false) rows _ held
          ((λ same. absurd (clash frozen.job_id rows (ground arith) m same)), tt))
  where
    clash :
        (id : String) (ts : Table)
        → some_of (λ other. other.job_id == id) ts ≡ false
        → includes (ids ts) k ≡ true
        → (id == k) ≡ true
        → ⊥
    clash id [] a b c = ground arith
    clash id (t ∷ ts) a b c =
        ground (arith, eq_iff id k, eq_iff t.job_id id, eq_iff t.job_id k, clash id ts)

IsHeld-take :
    (k : String) (rows : Table)
    → IsTable rows
    → IsHeld k rows
    → (includes (delivered (dequeue rows).0) k ≡ false) × IsHeld k (dequeue rows).1
IsHeld-take k rows t held = elim (dequeue-IsNext rows t) [
  | inl (row, job, (m, p, _), named, e) ↦
      let h = All-In (λ r. (r.job_id == k) ≡ true → is_pending r.state ≡ false) row rows held m in
      rw e (
        (elim (Bool-cases (row.job_id == k)) [
          | inl same ↦ let f = h same in absurd (ground arith)
          | inr apart ↦ rw (← named, apart) refl
        ]),
        IsHeld-mark_processing job.job_id k rows held,
      )
  | inr (_, e) ↦ rw e (refl, held)
]

step-IsHeld :
    (op : Operation) (k : String) (rows : Table)
    → IsTable rows
    → includes (ids rows) k ≡ true
    → releases k op ≡ false
    → IsHeld k rows
    → (includes (step op rows).0 k ≡ false) × IsHeld k (step op rows).1
unfolding step
step-IsHeld (put job) k rows t m r held = elim (Result-cases (enqueue job rows)) [
  | inl (next, e) ↦ rw e (refl, IsHeld-enqueue job k rows next e m held)
  | inr (err, e) ↦ rw e (refl, held)
]
step-IsHeld take k rows t m r held = IsHeld-take k rows t held
step-IsHeld (ack id) k rows t m r held = (refl, IsHeld-acknowledge id k rows held)
step-IsHeld (rej id) k rows t m r held = (refl, IsHeld-requeue id k rows r held)
step-IsHeld restart k rows t m r held = absurd (ground arith)

includes-append :
    (xs ys : List String) (k : String)
    → includes xs k ≡ false
    → includes ys k ≡ false
    → includes (xs ++ ys) k ≡ false
includes-append [] ys k h e = e
includes-append (x ∷ xs) ys k h e = ground (arith, includes-append xs ys k)

releases-ack : (k : String) (op : Operation) → releases k op ≡ false → is_ack_of k op ≡ false
releases-ack k op h = ground arith

run-held :
    (ops : List Operation) (k : String) (rows : Table)
    → IsTable rows
    → includes (ids rows) k ≡ true
    → some_of (releases k) ops ≡ false
    → IsHeld k rows
    → includes (run ops rows).0 k ≡ false
unfolding run
run-held [] k rows t m r held = refl
run-held (op ∷ ops) k rows t m r held =
    let here : releases k op ≡ false = ground arith in
    let (none_here, held1) = step-IsHeld op k rows t m here held in
    includes-append (step op rows).0 (run ops (step op rows).1).0 k none_here (
      run-held ops k (step op rows).1 (step-IsTable op rows t)
        (step-keeps op rows k (releases-ack k op here) m) (ground arith) held1)

marked-IsHeld : (k : String) (rows : Table) → IsHeld k (mark_processing k rows)
unfolding mark_processing
marked-IsHeld k [] = tt
marked-IsHeld k (row ∷ rows) = ((λ e. ground arith), marked-IsHeld k rows)

-- A job that a well-formed table delivered is not delivered again by any later operations, until it
-- is acknowledged or rejected, or the database is opened again.
pub dequeue-once :
    (rows next : Table) (job : QueueJob) (ops : List Operation)
    → IsTable rows
    → dequeue rows ≡ (some job, next)
    → some_of (releases job.job_id) ops ≡ false
    → includes (run ops next).0 job.job_id ≡ false
dequeue-once rows next job ops t h free = elim (dequeue-IsNext rows t) [
  | inr (_, e) ↦ absurd (let f = ap (λ p. p.0) (sym e ∙ h) in ground arith)
  | inl (row, other, (m, p, _), named, e) ↦
      let both = sym e ∙ h in
      let same : other ≡ job = some-injective (ap (λ p. p.0) both) in
      let after : mark_processing job.job_id rows ≡ next =
        ap (λ (j : QueueJob). mark_processing j.job_id rows) (sym same) ∙ ap (λ p. p.1) both in
      let present : includes (ids next) job.job_id ≡ true =
        subst (λ t. includes (ids t) job.job_id ≡ true) after
          (rw (ids-mark_processing job.job_id rows) (
            In-includes (ids rows) job.job_id
              (rw (← same, ← named) (In-map (λ r. r.job_id) row rows m)))) in
      let table = subst IsTable after (mark_processing-IsTable job.job_id rows t) in
      run-held ops job.job_id next table present free
        (subst (IsHeld job.job_id) after (marked-IsHeld job.job_id rows))
]
  where
    some-injective : {a b : QueueJob} → some a ≡ some b → a ≡ b
    some-injective e = cc
