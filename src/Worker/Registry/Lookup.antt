-- ===== src/Worker/Registry/Lookup.antt =====
-- What a registry answers after a store.
use mathlib.Core.Path.{subst}
use verify_agent.Prelude.{
  ℕ, zero, suc, ◌≤◌, String, false, Option, some, ◌≡◌, refl, sym, ◌∙◌, arith, eq_iff, ◌==◌, is_some,
  Bool-cases, inl, inr, ltb, ok, Option-cases,
}
use verify_agent.JsMap.{get, put, size, first_key}
use verify_agent.JsMap.Laws.{first_key-put, get-delete, get-delete_where}
use verify_agent.Domain.Types.{VerificationResult}
use verify_agent.Domain.Validation.{Url}
use verify_agent.Worker.Registry.{
  Registry, evict_oldest, clear_secondary_mappings, trim, store, record_result, evict,
  get_by_verification_id, get_by_job_id, get_by_queue_job_id,
}
use verify_agent.Worker.Registry.Consistency.{IsConsistent}
use verify_agent.Worker.Registry.Recording.{
  record_result-IsConsistent, stored-record_result, job-record_result, queue-record_result,
  size-record_result,
}
use verify_agent.Worker.Registry.Eviction.{store-eq-ok, size-evict_oldest}

-- The three lookups lead to the result.
abbrev pub IsFound : String → VerificationResult → Registry → Type 0
IsFound q r s =
    (get r.id s.by_verification_id ≡ some r)
    × (get r.job_id s.verification_id_by_job_id ≡ some r.id)
    × (get q s.verification_id_by_queue_job_id ≡ some r.id)

trim-stop :
    (fuel max_results : ℕ) (s : Registry)
    → size s.by_verification_id ≤ max_results
    → trim fuel max_results s ≡ s
unfolding trim
trim-stop zero max_results s h = refl
trim-stop (suc fuel) max_results s h = ground arith

trim-once :
    (fuel max_results : ℕ) (s : Registry)
    → IsConsistent s
    → size s.by_verification_id ≡ suc max_results
    → trim (suc fuel) max_results s ≡ evict_oldest s
unfolding trim
trim-once fuel max_results s c h =
    let less = size-evict_oldest s c (omega arith) in
    let stop = trim-stop fuel max_results (evict_oldest s) (omega arith) in ground arith

IsFound-evict :
    (q k : String) (r : VerificationResult) (s : Registry)
    → IsConsistent s
    → (k == r.id) ≡ false
    → IsFound q r s
    → IsFound q r (evict (some k) s)
unfolding evict clear_secondary_mappings
IsFound-evict q k r s c differs (stored, job, queue) =
    let e = get-delete k r.id s.by_verification_id in
    let f = get-delete_where (λ w. w == k) r.job_id s.verification_id_by_job_id c.jobs_once in
    let g = get-delete_where (λ w. w == k) q s.verification_id_by_queue_job_id c.queue_jobs_once in
    (
      ground arith,
      ground (arith, eq_iff r.id k, eq_iff k r.id),
      ground (arith, eq_iff r.id k, eq_iff k r.id),
    )

IsFound-record_result :
    (q : String) (r : VerificationResult) (s : Registry)
    → IsConsistent s
    → IsFound q r (record_result q r s)
IsFound-record_result q r s c =
    let e = stored-record_result q r s c r.id in
    let f = job-record_result q r s c r.job_id in
    let g = queue-record_result q r s c q in
    (
      ground (arith, eq_iff r.id r.id),
      ground (arith, eq_iff r.job_id r.job_id),
      ground (arith, eq_iff q q),
    )

first_key-record_result :
    (q : String) (r : VerificationResult) (s : Registry)
    → first_key (record_result q r s).by_verification_id
      ≡ first_key (put r.id r s.by_verification_id)
unfolding record_result clear_secondary_mappings
first_key-record_result q r s = ground arith

evicted-IsFound :
    (q : String) (r : VerificationResult) (s : Registry)
    → IsConsistent s
    → IsConsistent (record_result q r s)
    → is_some (get r.id s.by_verification_id) ≡ false
    → 1 ≤ size s.by_verification_id
    → IsFound q r (evict_oldest (record_result q r s))
unfolding evict_oldest evict
evicted-IsFound q r s c kept absent h =
    let next = record_result q r s in
    elim (Option-cases (first_key next.by_verification_id)) [
      | inl e ↦ rw e (IsFound-record_result q r s c)
      | inr (k, e) ↦ rw e (
          IsFound-evict q k r next kept
            (first_key-put r.id k r s.by_verification_id h absent
              (sym (first_key-record_result q r s) ∙ e))
            (IsFound-record_result q r s c))
    ]

-- After a store that a consistent registry within its bound, of at least one, accepts, the result
-- is found by its own identity, by its job and by the queue's job: the eviction of older results
-- never takes the new one.
pub store-found :
    (parse_url : String → Option Url) (max_results : ℕ) (q : String) (r : VerificationResult)
    (s t : Registry)
    → IsConsistent s
    → 1 ≤ max_results
    → size s.by_verification_id ≤ max_results
    → store parse_url max_results q r s ≡ ok t
    → (get_by_verification_id r.id t ≡ some r)
      × (get_by_job_id r.job_id t ≡ some r)
      × (get_by_queue_job_id q t ≡ some r)
unfolding get_by_verification_id get_by_job_id get_by_queue_job_id
store-found parse_url max_results q r s t c positive bound h =
    let (free, _, e) = store-eq-ok parse_url max_results q r s t h in
    let next = record_result q r s in
    let kept = record_result-IsConsistent q r s c free in
    let grown = size-record_result q r s c in
    let found : IsFound q r t =
      subst (IsFound q r) e (elim (Bool-cases (ltb max_results (size next.by_verification_id))) [
        | inr fits ↦
            rw (trim-stop (size next.by_verification_id) max_results next (ground arith))
              (IsFound-record_result q r s c)
        | inl over ↦
            let absent : is_some (get r.id s.by_verification_id) ≡ false = ground arith in
            let exact : size next.by_verification_id ≡ suc max_results = ground arith in
            rw (exact, trim-once max_results max_results next kept exact)
              (evicted-IsFound q r s c kept absent (ground arith))
      ]) in
    let (stored, job, queue) = found in (stored, rw job stored, rw queue stored)
