-- ===== src/Worker/SqliteRegistry/Retention.antt =====
-- The bound of the durable registry, its three unique columns and the agreement of the columns with
-- the payloads.
use verify_agent.Prelude.{
  ℕ, zero, suc, ◌+◌, ◌≤◌, String, Bool, false, not, [], ◌∷◌, ◌++◌, Option, some, ok, ◌≡◌, refl, sym,
  arith, All, All-append, filter, length, ltb, ◌==◌, ==_refl, Bool-cases, inl, inr,
  length-filter-le,
}
use mathlib.Core.Path.{subst}
use verify_agent.Domain.Types.{VerificationResult}
use verify_agent.Domain.Validation.{Url, validate_verification_result}
use verify_agent.Worker.SqliteRegistry.{
  Row, Table, conflicts, delete_queue_job, delete_verification, delete_oldest, trim_retention,
  row_for, store,
}
use verify_agent.Worker.SqliteRegistry.Found.{store-eq-ok, insert_row-eq-ok, IsFresh}

-- The columns of a row are those of the valid result that it holds.
abbrev pub IsStored : (String → Option Url) → Row → Type 0
IsStored parse_url row =
    (r : VerificationResult) × (row.payload ≡ some r)
    × (validate_verification_result parse_url r ≡ ok tt)
    × (row.verification_id ≡ r.id)
    × (row.job_id ≡ r.job_id)

-- No two rows share a value of a unique column.
abbrev pub Distinct : Table → Type 0
Distinct [] = Unit
Distinct (row ∷ rows) = All (λ later. conflicts later row ≡ false) rows × Distinct rows

pub record IsTable (parse_url : String → Option Url) (rows : Table) : Type 0 where
  pub stored : All (IsStored parse_url) rows
  pub distinct : Distinct rows

All-filter : (P : Row → Type 0) (p : Row → Bool) (rows : Table) → All P rows → All P (filter p rows)
All-filter P p [] h = tt
All-filter P p (row ∷ rows) (h, hs) = elim (Bool-cases (p row)) [
  | inl e ↦ rw e (h, All-filter P p rows hs)
  | inr e ↦ rw e (All-filter P p rows hs)
]

Distinct-filter : (p : Row → Bool) (rows : Table) → Distinct rows → Distinct (filter p rows)
Distinct-filter p [] h = tt
Distinct-filter p (row ∷ rows) (h, hs) = elim (Bool-cases (p row)) [
  | inl e ↦
      rw e (All-filter (λ later. conflicts later row ≡ false) p rows h, Distinct-filter p rows hs)
  | inr e ↦ rw e (Distinct-filter p rows hs)
]

Distinct-last :
    (row : Row) (rows : Table) → Distinct rows → IsFresh row rows → Distinct (rows ++ row ∷ [])
Distinct-last row [] h fresh = (tt, tt)
Distinct-last row (other ∷ rows) (h, hs) (f, fs) = (
  All-append (λ later. conflicts later other ≡ false) rows (row ∷ []) h (f, tt),
  Distinct-last row rows hs fs,
)

module _ (parse_url : String → Option Url) where
  filter-IsTable :
      (p : Row → Bool) (rows : Table) → IsTable parse_url rows → IsTable parse_url (filter p rows)
  filter-IsTable p rows t = record {
    stored = All-filter (IsStored parse_url) p rows t.stored;
    distinct = Distinct-filter p rows t.distinct;
  }

  delete_oldest-IsTable :
      (rows : Table) → IsTable parse_url rows → IsTable parse_url (delete_oldest rows)
  unfolding delete_oldest delete_queue_job
  delete_oldest-IsTable [] t = t
  delete_oldest-IsTable (oldest ∷ rows) t =
      filter-IsTable (λ row. not (row.queue_job_id == oldest.queue_job_id)) (oldest ∷ rows) t

  trim_retention-IsTable :
      (fuel max_results : ℕ) (rows : Table)
      → IsTable parse_url rows
      → IsTable parse_url (trim_retention fuel max_results rows)
  unfolding trim_retention
  trim_retention-IsTable zero max_results rows t = t
  trim_retention-IsTable (suc fuel) max_results rows t =
      elim (Bool-cases (ltb max_results (length rows))) [
        | inl over ↦ rw over (
            trim_retention-IsTable fuel max_results (delete_oldest rows)
              (delete_oldest-IsTable rows t))
        | inr fits ↦ rw fits t
      ]

  inserted-IsTable :
      (q : String) (r : VerificationResult) (rows : Table)
      → validate_verification_result parse_url r ≡ ok tt
      → IsTable parse_url rows
      → IsFresh (row_for q r) rows
      → IsTable parse_url (rows ++ row_for q r ∷ [])
  unfolding row_for
  inserted-IsTable q r rows valid t fresh = record {
    stored =
        All-append (IsStored parse_url) rows (row_for q r ∷ []) t.stored
          ((r, refl, valid, refl, refl), tt);
    distinct = Distinct-last (row_for q r) rows t.distinct fresh;
  }

length-delete_oldest-le :
    (rows : Table) (n : ℕ) → length rows ≤ suc n → length (delete_oldest rows) ≤ n
unfolding delete_oldest delete_queue_job
length-delete_oldest-le [] n h = omega arith
length-delete_oldest-le (oldest ∷ rows) n h =
    let same = ==_refl oldest.queue_job_id in
    let fewer =
      length-filter-le (λ (row : Row). not (row.queue_job_id == oldest.queue_job_id)) rows in
    ground arith

length-trim_retention-le :
    (fuel max_results : ℕ) (rows : Table)
    → length rows ≤ max_results + fuel
    → length (trim_retention fuel max_results rows) ≤ max_results
unfolding trim_retention
length-trim_retention-le zero max_results rows h = omega arith
length-trim_retention-le (suc fuel) max_results rows h =
    elim (Bool-cases (ltb max_results (length rows))) [
      | inl over ↦ rw over (
          length-trim_retention-le fuel max_results (delete_oldest rows)
            (length-delete_oldest-le rows (max_results + fuel) (omega arith)))
      | inr fits ↦ rw fits (ground arith)
    ]

-- A store that a well-formed table accepts leaves a well-formed table: every row holds a valid result
-- under its own keys and no two rows share a key; and whatever the number of rows before, it is then
-- within the bound.
pub durable_store-IsTable :
    (parse_url : String → Option Url) (max_results : ℕ) (q : String) (r : VerificationResult)
    (rows next : Table)
    → IsTable parse_url rows
    → store parse_url max_results q r rows ≡ ok next
    → IsTable parse_url next × (length next ≤ max_results)
unfolding delete_verification delete_queue_job
durable_store-IsTable parse_url max_results q r rows next t h =
    let (valid, _, inserted, e, trimmed) = store-eq-ok parse_url max_results q r rows next h in
    let kept = delete_verification r.id (delete_queue_job q rows) in
    let (fresh, last) = insert_row-eq-ok (row_for q r) kept inserted e in
    let well =
      inserted-IsTable parse_url q r kept valid
        (filter-IsTable parse_url (λ row. not (row.verification_id == r.id))
          (delete_queue_job q rows)
          (filter-IsTable parse_url (λ row. not (row.queue_job_id == q)) rows t))
        fresh in
    (
      subst (IsTable parse_url) trimmed (
          trim_retention-IsTable parse_url (length inserted) max_results inserted
            (subst (IsTable parse_url) (sym last) well)),
      subst (λ rows. length rows ≤ max_results) trimmed
          (length-trim_retention-le (length inserted) max_results inserted (omega arith)),
    )
