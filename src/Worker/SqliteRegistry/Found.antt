-- ===== src/Worker/SqliteRegistry/Found.antt =====
-- What the durable registry answers after a store.
use mathlib.Core.Path.{subst}
use verify_agent.Prelude.{
  ℕ, zero, suc, ◌≤◌, String, Bool, true, false, not, [], ◌∷◌, ◌++◌, Option, some, ok, ◌≡◌, refl,
  sym, ap, arith, All, filter, find, length, ltb, ◌==◌, eq_iff, Bool-cases, ==_refl, inl, inr,
  returns, ok-injective, reject_if, some_of, filter-append,
}
use verify_agent.Prelude.Text.{is_blank}
use verify_agent.Errors.{Error}
use verify_agent.Domain.Types.{VerificationResult}
use verify_agent.Domain.Validation.{Url, validate_verification_result}
use verify_agent.Worker.SqliteRegistry.{
  Row, Table, conflicts, insert_row, delete_queue_job, delete_verification, delete_oldest,
  trim_retention, row_for, read_result, get_by_queue_job_id, get_by_verification_id, get_by_job_id,
  store, has_other,
}

-- No row shares a key with this one.
abbrev pub IsFresh : Row → Table → Type 0
IsFresh row rows = All (λ other. conflicts row other ≡ false) rows

pub IsFresh-none :
    (row : Row) (rows : Table) → some_of (conflicts row) rows ≡ false → IsFresh row rows
IsFresh-none row [] h = tt
IsFresh-none row (other ∷ rows) h = (ground arith, IsFresh-none row rows (ground arith))

pub IsFresh-filter :
    (p : Row → Bool) (row : Row) (rows : Table) → IsFresh row rows → IsFresh row (filter p rows)
IsFresh-filter p row [] h = tt
IsFresh-filter p row (other ∷ rows) (h, hs) = elim (Bool-cases (p other)) [
  | inl e ↦ rw e (h, IsFresh-filter p row rows hs)
  | inr e ↦ rw e (IsFresh-filter p row rows hs)
]

-- The last row of a table, after rows that share no key with it.
abbrev pub IsLast : Row → Table → Type 0
IsLast row rows = (before : Table) × (rows ≡ before ++ row ∷ []) × IsFresh row before

delete_oldest-IsLast :
    (row : Row) (before : Table)
    → IsFresh row before
    → 1 ≤ length before
    → IsLast row (delete_oldest (before ++ row ∷ []))
unfolding delete_oldest delete_queue_job
delete_oldest-IsLast row [] fresh h = absurd (omega arith)
delete_oldest-IsLast row (oldest ∷ before) (f, fs) h =
    let keep = λ (other : Row). not (other.queue_job_id == oldest.queue_job_id) in
    let differs : (row.queue_job_id == oldest.queue_job_id) ≡ false = ground (
      arith,
      eq_iff row.queue_job_id oldest.queue_job_id,
      eq_iff oldest.queue_job_id row.queue_job_id,
    ) in
    (
      filter keep before,
      ground (
        arith,
        eq_iff oldest.queue_job_id oldest.queue_job_id,
        filter-append keep before (row ∷ []),
      ),
      IsFresh-filter keep row before fs,
    )

length-last : (row : Row) (before : Table) → length (before ++ row ∷ []) ≡ suc (length before)
length-last row [] = refl
length-last row (other ∷ before) = omega (arith, length-last row before)

trim_retention-IsLast :
    (fuel max_results : ℕ) (row : Row) (rows : Table)
    → 1 ≤ max_results
    → IsLast row rows
    → IsLast row (trim_retention fuel max_results rows)
unfolding trim_retention
trim_retention-IsLast zero max_results row rows h last = last
trim_retention-IsLast (suc fuel) max_results row rows h (before, e, fresh) =
    elim (Bool-cases (ltb max_results (length rows))) [
      | inl over ↦
          let some_before : 1 ≤ length before =
            let l = length-last row before in let m = ap length e in ground arith in
          rw over (
            trim_retention-IsLast fuel max_results row (delete_oldest rows) h (
              subst (λ t. IsLast row (delete_oldest t)) (sym e)
                (delete_oldest-IsLast row before fresh some_before)))
      | inr fits ↦ rw fits (before, e, fresh)
    ]

find-last :
    (p : Row → Bool) (row : Row) (before : Table)
    → All (λ other. p other ≡ false) before
    → p row ≡ true
    → find p (before ++ row ∷ []) ≡ some row
find-last p row [] h e = rw e refl
find-last p row (other ∷ before) (h, hs) e = rw h (find-last p row before hs e)

differing :
    (p : Row → Bool) (row : Row) (before : Table)
    → ((other : Row) → conflicts row other ≡ false → p other ≡ false)
    → IsFresh row before
    → All (λ other. p other ≡ false) before
differing p row [] f h = tt
differing p row (other ∷ before) f (h, hs) = (f other h, differing p row before f hs)

not_rejected : (b : Bool) (e : Error) {u : Unit {0}} → reject_if b e ≡ ok u → b ≡ false
not_rejected b e h = ground arith

-- What a store that returned has inserted, and into what.
pub store-eq-ok :
    (parse_url : String → Option Url) (max_results : ℕ) (q : String) (r : VerificationResult)
    (rows next : Table)
    → store parse_url max_results q r rows ≡ ok next
    → (validate_verification_result parse_url r ≡ ok tt)
      × (has_other (λ s. s.id) (get_by_queue_job_id parse_url q rows) r.id ≡ false)
      × (inserted : Table) × (insert_row
            (row_for q r)
            (delete_verification r.id (delete_queue_job q rows))
          ≡ ok inserted)
      × (trim_retention (length inserted) max_results inserted ≡ next)
unfolding store
store-eq-ok parse_url max_results q r rows next h = returns (reject_if (is_blank q) _) _ h λ _ _ h1.
    returns (validate_verification_result parse_url r) _ h1 λ u valid h2.
      returns (reject_if (has_other (λ s. s.id) (get_by_queue_job_id parse_url q rows) r.id) _) _ h2
        λ _ owned h3.
          returns (reject_if (has_other (λ s. s.id) (get_by_job_id parse_url r.job_id rows) r.id) _)
            _ h3
            λ _ _ h4.
              returns
                (reject_if
                  (has_other (λ s. s.job_id) (get_by_verification_id parse_url r.id rows) r.job_id)
                  _)
                _ h4
                λ _ _ h5.
                  returns
                    (insert_row (row_for q r) (delete_verification r.id (delete_queue_job q rows)))
                    _ h5
                    λ inserted e h6. (valid, not_rejected _ _ owned, inserted, e, ok-injective h6)

pub insert_row-eq-ok :
    (row : Row) (rows inserted : Table)
    → insert_row row rows ≡ ok inserted
    → IsFresh row rows × (inserted ≡ rows ++ row ∷ [])
unfolding insert_row
insert_row-eq-ok row rows inserted h = elim (Bool-cases (some_of (conflicts row) rows)) [
  | inl e ↦ absurd (ground arith)
  | inr e ↦ (IsFresh-none row rows e, ground arith)
]

-- Whatever the table holds, after an accepted store the result is found by its own identity, by its
-- job and by the queue's job, where the bound is at least one: no older row and no row that does
-- not decode hides it, and the retention never deletes it.
pub durable_store-found :
    (parse_url : String → Option Url) (max_results : ℕ) (q : String) (r : VerificationResult)
    (rows next : Table)
    → 1 ≤ max_results
    → store parse_url max_results q r rows ≡ ok next
    → (get_by_verification_id parse_url r.id next ≡ some r)
      × (get_by_job_id parse_url r.job_id next ≡ some r)
      × (get_by_queue_job_id parse_url q next ≡ some r)
unfolding get_by_verification_id get_by_job_id get_by_queue_job_id read_result row_for
durable_store-found parse_url max_results q r rows next positive h =
    let (valid, _, inserted, e, trimmed) = store-eq-ok parse_url max_results q r rows next h in
    let (fresh, last) = insert_row-eq-ok (row_for q r) _ inserted e in
    let (before, at, free) = subst (IsLast (row_for q r)) trimmed (
      trim_retention-IsLast (length inserted) max_results (row_for q r) inserted positive
        (_, last, fresh)) in
    let found =
      λ (p : Row → Bool)
          (apart : (other : Row) → conflicts (row_for q r) other ≡ false → p other ≡ false)
          (own : p (row_for q r) ≡ true).
        find-last p (row_for q r) before (differing p (row_for q r) before apart free) own in
    let read : read_result parse_url (some (row_for q r)) ≡ some r = rw valid refl in
    (
      rw (at, found (λ row. row.verification_id == r.id) (λ other. ground arith) (==_refl r.id))
          read,
      rw (at, found (λ row. row.job_id == r.job_id) (λ other. ground arith) (==_refl r.job_id))
          read,
      rw (at, found (λ row. row.queue_job_id == q) (λ other. ground arith) (==_refl q)) read,
    )
