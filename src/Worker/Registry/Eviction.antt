-- ===== src/Worker/Registry/Eviction.antt =====
-- What eviction does to the indexes and the size of the registry.
use verify_agent.Prelude.{
  ℕ, zero, suc, ◌+◌, ◌≤◌, String, Bool, false, [], ◌∷◌, Option, none, some, ◌≡◌, refl, sym, ◌∙◌,
  arith, eq_iff, ◌==◌, Bool-cases, inl, inr, NoDup, ltb, includes, ok, returns, ok-injective,
  reject_if,
}
use mathlib.Core.Path.{subst}
use verify_agent.Prelude.Text.{is_blank}
use verify_agent.Errors.{Error}
use verify_agent.JsMap.{JsMap, get, delete, keys, size, first_key}
use verify_agent.JsMap.Laws.{get-delete, get-delete_where, keep, NoDup-delete, NoDup-delete_where}
use verify_agent.Domain.Types.{VerificationResult}
use verify_agent.Domain.Validation.{Url, validate_verification_result}
use verify_agent.Worker.Registry.{
  Registry, evict_oldest, clear_secondary_mappings, trim, store, record_result, has_other_owner,
  evict,
}
use verify_agent.Worker.Registry.Consistency.{IsConsistent}
use verify_agent.Worker.Registry.Recording.{record_result-IsConsistent}

module _ {ℓ} {V : Type ℓ} where
  size-delete_absent :
      (k : String) (m : JsMap V) → includes (keys m) k ≡ false → size (delete k m) ≡ size m
  unfolding delete
  size-delete_absent k [] h = refl
  size-delete_absent k ((i, w) ∷ m) h = ground (arith, eq_iff i k, size-delete_absent k m)

  size-delete_first :
      (k : String) (w : V) (m : JsMap V)
      → NoDup (keys ((k, w) ∷ m))
      → size (delete k ((k, w) ∷ m)) ≡ size m
  unfolding delete
  size-delete_first k w m h = ground (arith, eq_iff k k, size-delete_absent k m)

keep-some :
    (k v : String) (o : Option String)
    → keep (λ w. w == k) o ≡ some v
    → (o ≡ some v) × ((v == k) ≡ false)
keep-some k v o h = ground arith

-- The registry without one verification.
module _ (k : String) (s : Registry) (c : IsConsistent s) where
  abbrev pub without : Registry
  unfolding clear_secondary_mappings delete
  without =
      clear_secondary_mappings k (record s { by_verification_id = delete k s.by_verification_id })

  without-IsConsistent :
      IsConsistent (
        clear_secondary_mappings k
          (record s { by_verification_id = delete k s.by_verification_id }))
  unfolding clear_secondary_mappings
  without-IsConsistent =
      let stored = λ (v : String). get-delete k v s.by_verification_id in
      let job =
        λ (j : String). get-delete_where (λ w. w == k) j s.verification_id_by_job_id c.jobs_once in
      let queue = λ (q : String).
        get-delete_where (λ w. w == k) q s.verification_id_by_queue_job_id c.queue_jobs_once in
      record {
        ids_once = NoDup-delete k s.by_verification_id c.ids_once;
        jobs_once = NoDup-delete_where (λ w. w == k) s.verification_id_by_job_id c.jobs_once;
        queue_jobs_once =
            NoDup-delete_where (λ w. w == k) s.verification_id_by_queue_job_id c.queue_jobs_once;
        named = λ v r h. let e = stored v in ground (arith, c.named v r);
        by_job = λ j v h.
            let (before, differs) =
              keep-some k v (get j s.verification_id_by_job_id) (sym (job j) ∙ h) in
            let (r, er, ej) = c.by_job j v before in
            let e = stored v in (r, ground (arith, eq_iff k v, eq_iff v k), ej);
        indexed = λ v r h.
            let e = stored v in
            let before : get v s.by_verification_id ≡ some r = ground arith in
            let i = c.indexed v r before in
            let f = job r.job_id in ground (arith, eq_iff k v, eq_iff v k);
        by_queue = λ q v h.
            let (before, differs) =
              keep-some k v (get q s.verification_id_by_queue_job_id) (sym (queue q) ∙ h) in
            let (r, er) = c.by_queue q v before in
            let e = stored v in (r, ground (arith, eq_iff k v, eq_iff v k));
      }

evict_oldest-IsConsistent : (s : Registry) → IsConsistent s → IsConsistent (evict_oldest s)
unfolding evict_oldest evict
evict_oldest-IsConsistent s c = by_first (first_key s.by_verification_id)
  where
    by_first : (o : Option String) → IsConsistent (evict o s)
    by_first none = c
    by_first (some k) = without-IsConsistent k s c

pub size-evict_oldest :
    (s : Registry)
    → IsConsistent s
    → 1 ≤ size s.by_verification_id
    → suc (size (evict_oldest s).by_verification_id) ≡ size s.by_verification_id
unfolding evict_oldest evict clear_secondary_mappings
size-evict_oldest s c h = by_entries s.by_verification_id refl
  where
    by_entries :
        (m : JsMap VerificationResult)
        → s.by_verification_id ≡ m
        → suc (size (evict (first_key s.by_verification_id) s).by_verification_id)
          ≡ size s.by_verification_id
    by_entries [] e =
        let h1 : 1 ≤ size {V = VerificationResult} [] = subst (λ m. 1 ≤ size m) e h in
        absurd (omega arith)
    by_entries ((k, w) ∷ m) e =
        let once : NoDup (keys ((k, w) ∷ m)) = subst (λ t. NoDup (keys t)) e c.ids_once in
        let d = size-delete_first k w m once in rw e (omega (arith, d))

pub trim-IsConsistent :
    (fuel max_results : ℕ) (s : Registry) → IsConsistent s → IsConsistent (trim fuel max_results s)
unfolding trim
trim-IsConsistent zero max_results s c = c
trim-IsConsistent (suc fuel) max_results s c =
    elim (Bool-cases (ltb max_results (size s.by_verification_id))) [
      | inl e ↦
          rw e (trim-IsConsistent fuel max_results (evict_oldest s) (evict_oldest-IsConsistent s c))
      | inr e ↦ rw e c
    ]

size-trim-le :
    (fuel max_results : ℕ) (s : Registry)
    → IsConsistent s
    → size s.by_verification_id ≤ max_results + fuel
    → size (trim fuel max_results s).by_verification_id ≤ max_results
unfolding trim
size-trim-le zero max_results s c h = omega arith
size-trim-le (suc fuel) max_results s c h =
    elim (Bool-cases (ltb max_results (size s.by_verification_id))) [
      | inl e ↦
          let one : 1 ≤ size s.by_verification_id = ground arith in
          let less = size-evict_oldest s c one in
          rw e (
            size-trim-le fuel max_results (evict_oldest s) (evict_oldest-IsConsistent s c)
              (omega arith))
      | inr e ↦ rw e (ground arith)
    ]

ensured_free : (b : Bool) (e : Error) (u : Unit {0}) → reject_if b e ≡ ok u → b ≡ false
ensured_free b e u h = ground arith

-- The calls of a store that returned.
pub store-eq-ok :
    (parse_url : String → Option Url) (max_results : ℕ) (q : String) (r : VerificationResult)
    (s t : Registry)
    → store parse_url max_results q r s ≡ ok t
    → (has_other_owner (get r.job_id s.verification_id_by_job_id) r.id ≡ false)
      × (has_other_owner (get q s.verification_id_by_queue_job_id) r.id ≡ false)
      × (trim (size (record_result q r s).by_verification_id) max_results (record_result q r s) ≡ t)
unfolding store
store-eq-ok parse_url max_results q r s t h = returns (reject_if (is_blank q) _) _ h λ _ _ h1.
    returns (validate_verification_result parse_url r) _ h1 λ _ _ h2.
      returns (reject_if (has_other_owner (get r.job_id s.verification_id_by_job_id) r.id) _) _ h2
        λ u3 e3 h3.
          returns (reject_if (has_other_owner (get q s.verification_id_by_queue_job_id) r.id) _) _
            h3 λ u4 e4 h4. (ensured_free _ _ u3 e3, ensured_free _ _ u4 e4, ok-injective h4)

-- A store that a consistent registry accepts keeps its indexes consistent with its results and the
-- number of results within the bound; whatever the registry held before, the eviction loop ends.
pub store-IsConsistent :
    (parse_url : String → Option Url) (max_results : ℕ) (q : String) (r : VerificationResult)
    (s t : Registry)
    → IsConsistent s
    → store parse_url max_results q r s ≡ ok t
    → IsConsistent t × (size t.by_verification_id ≤ max_results)
store-IsConsistent parse_url max_results q r s t c h =
    let (free, _, e) = store-eq-ok parse_url max_results q r s t h in
    let next = record_result q r s in
    let kept = record_result-IsConsistent q r s c free in
    subst (λ x. IsConsistent x × (size x.by_verification_id ≤ max_results)) e
      (
        trim-IsConsistent (size next.by_verification_id) max_results next kept,
        size-trim-le (size next.by_verification_id) max_results next kept (omega arith),
      )
