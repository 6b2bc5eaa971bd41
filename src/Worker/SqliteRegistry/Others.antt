-- ===== src/Worker/SqliteRegistry/Others.antt =====
-- What a store leaves of the results of other verifications.
use verify_agent.Prelude.{
  ℕ, zero, suc, ◌≤◌, ◌<◌, String, Bool, true, false, not, [], ◌∷◌, ◌++◌, Option, ok, ◌≡◌, refl, sym,
  ap, ◌∙◌, arith, All, find, length, length-append, length-filter-le, ◌==◌, eq_iff, Bool-cases, inl,
  inr,
}
use mathlib.Core.Path.{subst}
use verify_agent.Domain.Types.{VerificationResult}
use verify_agent.Domain.Validation.{Url}
use verify_agent.Worker.SqliteRegistry.{
  Row, Table, conflicts, delete_queue_job, delete_verification, trim_retention, row_for,
  read_result, get_by_queue_job_id, get_by_verification_id, store, has_other,
}
use verify_agent.Worker.SqliteRegistry.Found.{store-eq-ok, insert_row-eq-ok}
use verify_agent.Worker.SqliteRegistry.Retention.{IsStored, Distinct, IsTable}

-- A row under the queue's job is one of the verification.
abbrev IsOwned : String → String → Row → Type 0
IsOwned q id row = (row.queue_job_id == q) ≡ true → (row.verification_id == id) ≡ true

-- With distinct keys, no later row is under the queue's job of an earlier one.
later-IsOwned :
    (q id : String) (row : Row) (rows : Table)
    → (row.queue_job_id == q) ≡ true
    → All (λ later. conflicts later row ≡ false) rows
    → All (IsOwned q id) rows
later-IsOwned q id row [] e h = tt
later-IsOwned q id row (later ∷ rows) e (h, hs) = (
  λ same. absurd (
      ground (
        arith,
        eq_iff row.queue_job_id q,
        eq_iff later.queue_job_id q,
        eq_iff row.queue_job_id later.queue_job_id,
      )),
  later-IsOwned q id row rows e hs,
)

rows-IsOwned :
    (parse_url : String → Option Url) (q id : String) (rows : Table)
    → All (IsStored parse_url) rows
    → Distinct rows
    → has_other (λ s. s.id) (get_by_queue_job_id parse_url q rows) id ≡ false
    → All (IsOwned q id) rows
unfolding get_by_queue_job_id read_result
rows-IsOwned parse_url q id [] stored distinct h = tt
rows-IsOwned parse_url q id (row ∷ rows) ((s, payload, valid, ver, _), stored) (once, distinct) h =
    elim (Bool-cases (row.queue_job_id == q)) [
      | inl e ↦ (λ _. ground arith, later-IsOwned q id row rows e once)
      | inr e ↦ (
        λ same. absurd (ground arith),
        rows-IsOwned parse_url q id rows stored distinct (ground arith),
      )
    ]

find-kept :
    (q id k : String) (rows : Table)
    → (k == id) ≡ false
    → All (IsOwned q id) rows
    → find (λ row. row.verification_id == k) (delete_verification id (delete_queue_job q rows))
      ≡ find (λ row. row.verification_id == k) rows
unfolding delete_verification delete_queue_job
find-kept q id k [] differs h = refl
find-kept q id k (row ∷ rows) differs (owned, h) =
    let rest = find-kept q id k rows differs h in
    elim (Bool-cases (row.verification_id == k)) [
      | inl e ↦ ground (arith, eq_iff row.verification_id k)
      | inr e ↦ ground arith
    ]

find-append_other :
    (p : Row → Bool) (row : Row) (rows : Table)
    → p row ≡ false
    → find p (rows ++ row ∷ []) ≡ find p rows
find-append_other p row [] h = rw h refl
find-append_other p row (other ∷ rows) h = ground (arith, find-append_other p row rows h)

trim_retention-stop :
    (fuel max_results : ℕ) (rows : Table)
    → length rows ≤ max_results
    → trim_retention fuel max_results rows ≡ rows
unfolding trim_retention
trim_retention-stop zero max_results rows h = refl
trim_retention-stop (suc fuel) max_results rows h = ground arith

-- Below the bound, a store that a well-formed table accepts changes what is found under no other
-- verification.
pub durable_store-others :
    (parse_url : String → Option Url) (max_results : ℕ) (q k : String) (r : VerificationResult)
    (rows next : Table)
    → IsTable parse_url rows
    → length rows < max_results
    → (k == r.id) ≡ false
    → store parse_url max_results q r rows ≡ ok next
    → get_by_verification_id parse_url k next ≡ get_by_verification_id parse_url k rows
unfolding get_by_verification_id delete_verification delete_queue_job row_for
durable_store-others parse_url max_results q k r rows next t room differs h =
    let (valid, owned, inserted, e, trimmed) = store-eq-ok parse_url max_results q r rows next h in
    let kept = delete_verification r.id (delete_queue_job q rows) in
    let (_, last) = insert_row-eq-ok (row_for q r) kept inserted e in
    let once = length-filter-le (λ (row : Row). not (row.queue_job_id == q)) rows in
    let twice =
      length-filter-le (λ (row : Row). not (row.verification_id == r.id))
        (delete_queue_job q rows) in
    let grown = ap length last ∙ length-append kept (row_for q r ∷ []) in
    let stops = trim_retention-stop (length inserted) max_results inserted (omega arith) in
    let p = λ (row : Row). row.verification_id == k in
    let other : p (row_for q r) ≡ false = ground (arith, eq_iff r.id k, eq_iff k r.id) in
    let same : find p next ≡ find p rows =
      subst (λ s. find p s ≡ find p rows) (sym last ∙ sym stops ∙ trimmed)
        (find-append_other p (row_for q r) kept other
          ∙ find-kept q r.id k rows differs
              (rows-IsOwned parse_url q r.id rows t.stored t.distinct owned)) in
    ap (read_result parse_url) same
