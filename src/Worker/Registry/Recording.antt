-- ===== src/Worker/Registry/Recording.antt =====
-- What recording a result does to the indexes of the registry.
use verify_agent.Prelude.{
  suc, String, true, false, Option, none, some, ◌≡◌, refl, sym, arith, eq_iff, ◌==◌, is_some,
  if◌then◌else◌, Bool-cases, inl, inr, NoDup,
}
use verify_agent.JsMap.{get, keys, size}
use verify_agent.JsMap.Laws.{
  get-put, get-delete_where, keep, size-put, NoDup-put, NoDup-delete_where,
}
use verify_agent.Domain.Types.{VerificationResult}
use verify_agent.Worker.Registry.{
  Registry, record_result, clear_secondary_mappings, has_other_owner,
}
use verify_agent.Worker.Registry.Consistency.{IsConsistent}

keep-some :
    (k v : String) (o : Option String)
    → keep (λ w. w == k) o ≡ some v
    → (o ≡ some v) × ((v == k) ≡ false)
keep-some k v o h = ground arith

keep-other :
    (k v : String) (o : Option String)
    → o ≡ some v
    → (v == k) ≡ false
    → keep (λ w. w == k) o ≡ some v
keep-other k v o e h = ground arith

-- The registry as `store` clears it, by lookups: nothing is mapped to the identity.
module _ (key : String) (s : Registry) (c : IsConsistent s) where
  abbrev cleared : Registry
  cleared = if is_some (get key s.by_verification_id) then clear_secondary_mappings key s else s

  absent-keep :
      (o : Option String)
      → is_some (get key s.by_verification_id) ≡ false
      → ((v : String) → o ≡ some v → is_some (get v s.by_verification_id) ≡ true)
      → keep (λ w. w == key) o ≡ o
  absent-keep none e h = refl
  absent-keep (some v) e h = let present = h v refl in ground (arith, eq_iff v key)

  cleared-job :
      (j : String)
      → get j cleared.verification_id_by_job_id
        ≡ keep (λ w. w == key) (get j s.verification_id_by_job_id)
  unfolding clear_secondary_mappings
  cleared-job j = elim (Bool-cases (is_some (get key s.by_verification_id))) [
    | inl e ↦ rw e (get-delete_where (λ w. w == key) j s.verification_id_by_job_id c.jobs_once)
    | inr e ↦ rw e (
        sym (
          absent-keep (get j s.verification_id_by_job_id) e
            (λ v h. let (r, er, _) = c.by_job j v h in rw er refl)))
  ]

  cleared-queue :
      (q : String)
      → get q cleared.verification_id_by_queue_job_id
        ≡ keep (λ w. w == key) (get q s.verification_id_by_queue_job_id)
  unfolding clear_secondary_mappings
  cleared-queue q = elim (Bool-cases (is_some (get key s.by_verification_id))) [
    | inl e ↦
        rw e
          (get-delete_where (λ w. w == key) q s.verification_id_by_queue_job_id c.queue_jobs_once)
    | inr e ↦ rw e (
        sym (
          absent-keep (get q s.verification_id_by_queue_job_id) e
            (λ v h. let (r, er) = c.by_queue q v h in rw er refl)))
  ]

  cleared-stored : cleared.by_verification_id ≡ s.by_verification_id
  unfolding clear_secondary_mappings
  cleared-stored = ground arith

  cleared-once :
      NoDup (keys cleared.verification_id_by_job_id)
      × NoDup (keys cleared.verification_id_by_queue_job_id)
  unfolding clear_secondary_mappings
  cleared-once = elim (Bool-cases (is_some (get key s.by_verification_id))) [
    | inl e ↦ rw e (
      NoDup-delete_where (λ w. w == key) s.verification_id_by_job_id c.jobs_once,
      NoDup-delete_where (λ w. w == key) s.verification_id_by_queue_job_id c.queue_jobs_once,
    )
    | inr e ↦ rw e (c.jobs_once, c.queue_jobs_once)
  ]

-- Where the registry maps after a result is recorded.
module _ (q : String) (r : VerificationResult) (s : Registry) (c : IsConsistent s) where
  abbrev after : Registry
  unfolding record_result
  after = record_result q r s

  pub stored-record_result :
      (v : String)
      → get v (record_result q r s).by_verification_id
        ≡ (if r.id == v then some r else get v s.by_verification_id)
  unfolding record_result
  stored-record_result v =
      rw (get-put r.id v r (cleared r.id s c).by_verification_id, cleared-stored r.id s c) refl

  pub job-record_result :
      (j : String)
      → get j (record_result q r s).verification_id_by_job_id ≡ (
          if r.job_id == j
          then some r.id
          else keep (λ w. w == r.id) (get j s.verification_id_by_job_id))
  unfolding record_result
  job-record_result j =
      rw
        (
          get-put r.job_id j r.id (cleared r.id s c).verification_id_by_job_id,
          cleared-job r.id s c j,
        )
        refl

  pub queue-record_result :
      (k : String)
      → get k (record_result q r s).verification_id_by_queue_job_id ≡ (
          if q == k
          then some r.id
          else keep (λ w. w == r.id) (get k s.verification_id_by_queue_job_id))
  unfolding record_result
  queue-record_result k =
      rw
        (
          get-put q k r.id (cleared r.id s c).verification_id_by_queue_job_id,
          cleared-queue r.id s c k,
        )
        refl

  named-record_result :
      (v : String) (t : VerificationResult)
      → get v (record_result q r s).by_verification_id ≡ some t
      → t.id ≡ v
  named-record_result v t h =
      let e = stored-record_result v in ground (arith, eq_iff r.id v, c.named v t)

  by_job-record_result :
      (j v : String)
      → get j (record_result q r s).verification_id_by_job_id ≡ some v
      → (t : VerificationResult) × (get v (record_result q r s).by_verification_id ≡ some t)
        × (t.job_id ≡ j)
  by_job-record_result j v h =
      let e = job-record_result j in
      let f = stored-record_result v in
      elim (Bool-cases (r.job_id == j)) [
        | inl same ↦
            let ev : v ≡ r.id = ground arith in
            (r, ground (arith, eq_iff r.id v), ground (arith, eq_iff r.job_id j))
        | inr other ↦
            let kept : keep (λ w. w == r.id) (get j s.verification_id_by_job_id) ≡ some v =
              ground arith in
            let (before, differs) = keep-some r.id v (get j s.verification_id_by_job_id) kept in
            let (t, et, ej) = c.by_job j v before in
            (t, ground (arith, eq_iff r.id v, eq_iff v r.id), ej)
      ]

  by_queue-record_result :
      (k v : String)
      → get k (record_result q r s).verification_id_by_queue_job_id ≡ some v
      → (t : VerificationResult) × (get v (record_result q r s).by_verification_id ≡ some t)
  by_queue-record_result k v h =
      let e = queue-record_result k in
      let f = stored-record_result v in
      elim (Bool-cases (q == k)) [
        | inl same ↦ (r, ground (arith, eq_iff r.id v))
        | inr other ↦
            let kept : keep (λ w. w == r.id) (get k s.verification_id_by_queue_job_id) ≡ some v =
              ground arith in
            let (before, differs) =
              keep-some r.id v (get k s.verification_id_by_queue_job_id) kept in
            let (t, et) = c.by_queue k v before in (t, ground (arith, eq_iff r.id v, eq_iff v r.id))
      ]

  indexed-record_result :
      has_other_owner (get r.job_id s.verification_id_by_job_id) r.id ≡ false
      → (v : String) (t : VerificationResult)
      → get v (record_result q r s).by_verification_id ≡ some t
      → get t.job_id (record_result q r s).verification_id_by_job_id ≡ some v
  indexed-record_result free v t h =
      let f = stored-record_result v in
      let e = job-record_result t.job_id in
      elim (Bool-cases (r.id == v)) [
        | inl same ↦
            let et : t ≡ r = ground arith in
            let e1 = job-record_result r.job_id in
            rw et (ground (arith, eq_iff r.id v, eq_iff r.job_id r.job_id))
        | inr other ↦
            let before : get v s.by_verification_id ≡ some t = ground arith in
            let i = c.indexed v t before in
            elim (Bool-cases (r.job_id == t.job_id)) [
              | inl taken ↦
                  let ej : r.job_id ≡ t.job_id = (eq_iff r.job_id t.job_id).0 taken in
                  let owned : get r.job_id s.verification_id_by_job_id ≡ some v = rw ej i in
                  absurd (ground (arith, eq_iff v r.id, eq_iff r.id v))
              | inr apart ↦
                  let k =
                    keep-other r.id v (get t.job_id s.verification_id_by_job_id) i
                      (ground (arith, eq_iff v r.id, eq_iff r.id v)) in
                  ground arith
            ]
      ]

  -- Recording a result whose job belongs to no other verification keeps the registry consistent.
  pub record_result-IsConsistent :
      has_other_owner (get r.job_id s.verification_id_by_job_id) r.id ≡ false
      → IsConsistent (record_result q r s)
  unfolding record_result
  record_result-IsConsistent free = record {
    ids_once =
        NoDup-put r.id r (cleared r.id s c).by_verification_id
          (rw (cleared-stored r.id s c) c.ids_once);
    jobs_once = NoDup-put r.job_id r.id _ (cleared-once r.id s c).0;
    queue_jobs_once = NoDup-put q r.id _ (cleared-once r.id s c).1;
    named = named-record_result;
    by_job = by_job-record_result;
    indexed = indexed-record_result free;
    by_queue = by_queue-record_result;
  }

  pub size-record_result : size (record_result q r s).by_verification_id ≡ (
      if is_some (get r.id s.by_verification_id)
      then size s.by_verification_id
      else suc (size s.by_verification_id))
  unfolding record_result
  size-record_result = rw (cleared-stored r.id s c) (size-put r.id r s.by_verification_id)
