-- ===== src/Worker/Runtime/Waiting/Telling.antt =====
-- What the promise of one registration of `waitForQueueJob` is told, and where it waits.
use mathlib.Core.List.{append-nil}
use verify_agent.Prelude.{
  ℕ, String, Bool, true, false, not, List, [], ◌∷◌, ◌++◌, map, Option, none, some, nat_eq, is_empty,
  filter, filter-append, some_of, if◌then◌else◌, ◌==◌, ==_refl, eq_iff, or_else, ◌≡◌, refl, sym, ap,
  ◌∙◌, arith, Bool-cases, Option-cases, inl, inr,
}
use verify_agent.JsMap.{JsMap, get, put, delete}
use verify_agent.JsMap.Laws.{get-put, get-delete}
use verify_agent.Worker.Runtime.{Outcome}
use verify_agent.Worker.Runtime.Waiting.{
  Waits, tell, remember_settled, wait_for_queue_job, time_out, without,
}
use verify_agent.Worker.Runtime.Waiting.Calls.{Call, settling, waiting, expiring, step, run, ends}

-- The outcomes that the promise `id` was resolved with.
abbrev pub told : ℕ → List (ℕ × Outcome) → List Outcome
told id [] = []
told id ((w, o) ∷ rs) = if nat_eq w id then o ∷ told id rs else told id rs

-- The occurrences of the promise among those that wait for a job.
abbrev pub waits : ℕ → String → Waits → List ℕ
waits id job s = filter (λ w. nat_eq w id) (or_else (get job s.waiters) [])

-- The call registers the promise.
abbrev pub registers : ℕ → Call → Bool
registers id (settling j o) = false
registers id (waiting j i) = nat_eq i id
registers id (expiring j i) = false

-- The promise was resolved with these outcomes, and waits for these jobs.
pub record IsStanding (id : ℕ) (expected : String → List ℕ) (os : List Outcome) (s : Waits)
    : Type 0 where
  pub spoken : told id s.resolved ≡ os
  pub queued : (k : String) → waits id k s ≡ expected k

-- Nothing was registered under this number.
abbrev pub IsFresh : ℕ → Waits → Type 0
IsFresh id s = IsStanding id (λ k. []) [] s

pub told-append :
    (id : ℕ) (rs ts : List (ℕ × Outcome)) → told id (rs ++ ts) ≡ told id rs ++ told id ts
told-append id [] ts = refl
told-append id ((w, o) ∷ rs) ts = ground (arith, told-append id rs ts)

pub told-tell :
    (id : ℕ) (o : Outcome) (ids : List ℕ)
    → told id (tell o ids) ≡ map (λ w. o) (filter (λ w. nat_eq w id) ids)
told-tell id o [] = refl
told-tell id o (w ∷ ids) = ground (arith, told-tell id o ids)

filter-other :
    (id i : ℕ) (ids : List ℕ)
    → nat_eq i id ≡ false
    → filter (λ w. nat_eq w id) (filter (λ w. not (nat_eq w i)) ids) ≡ filter (λ w. nat_eq w id) ids
filter-other id i [] h = refl
filter-other id i (w ∷ ids) h = ground (arith, filter-other id i ids)

filter-nil :
    (id i : ℕ) (ids : List ℕ)
    → filter (λ w. nat_eq w id) ids ≡ []
    → filter (λ w. nat_eq w id) (filter (λ w. not (nat_eq w i)) ids) ≡ []
filter-nil id i [] h = refl
filter-nil id i (w ∷ ids) h = ground (arith, filter-nil id i ids)

or_else-left : (left : List ℕ) → or_else (if is_empty left then none else some left) [] ≡ left
or_else-left [] = refl
or_else-left (w ∷ left) = refl

get-without :
    (j k : String) (left : List ℕ) (m : JsMap (List ℕ))
    → get k (without j left m)
      ≡ (if j == k then (if is_empty left then none else some left) else get k m)
unfolding without delete put
get-without j k [] m = get-delete j k m
get-without j k (w ∷ left) m = get-put j k (w ∷ left) m

module _ (id : ℕ) (expected : String → List ℕ) (os : List Outcome) where
  settling-IsStanding :
      (j : String) (o : Outcome) (s : Waits)
      → expected j ≡ []
      → IsStanding id expected os s
      → IsStanding id expected os (remember_settled j o s)
  unfolding remember_settled
  settling-IsStanding j o s free st =
      let none_told : told id (tell o (or_else (get j s.waiters) [])) ≡ [] =
        told-tell id o (or_else (get j s.waiters) []) ∙ ap (map (λ w. o)) (st.queued j ∙ free) in
      record {
        spoken =
            told-append id s.resolved (tell o (or_else (get j s.waiters) []))
            ∙ rw none_told (append-nil (told id s.resolved) ∙ st.spoken);
        queued = λ k. elim (Bool-cases (j == k)) [
          | inl e ↦
              rw (get-delete j k s.waiters, e) (sym (ap expected (sym ((eq_iff j k).0 e)) ∙ free))
          | inr e ↦ rw (get-delete j k s.waiters, e) (st.queued k)
        ];
      }

  waiting-IsStanding :
      (j : String) (i : ℕ) (s : Waits)
      → nat_eq i id ≡ false
      → IsStanding id expected os s
      → IsStanding id expected os (wait_for_queue_job j i s)
  unfolding wait_for_queue_job
  waiting-IsStanding j i s other st = elim (Option-cases (get j s.recent)) [
    | inr (o, e) ↦ rw e (record {
      spoken =
          told-append id s.resolved ((i, o) ∷ [])
          ∙ rw other (append-nil (told id s.resolved) ∙ st.spoken);
      queued = st.queued;
    })
    | inl e ↦ rw e (
        let ids = or_else (get j s.waiters) [] in
        record {
          spoken = st.spoken;
          queued = λ k. elim (Bool-cases (j == k)) [
            | inl d ↦
                rw (get-put j k (ids ++ i ∷ []) s.waiters, d)
                  (filter-append (λ w. nat_eq w id) ids (i ∷ [])
                    ∙ rw other (
                        append-nil (filter (λ w. nat_eq w id) ids)
                        ∙ st.queued j
                        ∙ ap expected ((eq_iff j k).0 d)))
            | inr d ↦ rw (get-put j k (ids ++ i ∷ []) s.waiters, d) (st.queued k)
          ];
        })
  ]

  expiring-IsStanding :
      (j : String) (i : ℕ) (s : Waits)
      → (nat_eq i id ≡ true → expected j ≡ [])
      → IsStanding id expected os s
      → IsStanding id expected os (time_out j i s)
  unfolding time_out
  expiring-IsStanding j i s free st = elim (Option-cases (get j s.waiters)) [
    | inl e ↦ rw e st
    | inr (ids, e) ↦ rw e (
        let left = filter (λ w. not (nat_eq w i)) ids in
        let before : filter (λ w. nat_eq w id) ids ≡ expected j =
          sym (ap (λ (o : Option (List ℕ)). filter (λ w. nat_eq w id) (or_else o [])) e)
          ∙ st.queued j in
        let after : filter (λ w. nat_eq w id) left ≡ expected j = elim (Bool-cases (nat_eq i id)) [
          | inl same ↦ filter-nil id i ids (before ∙ free same) ∙ sym (free same)
          | inr other ↦ filter-other id i ids other ∙ before
        ] in
        record {
          spoken = st.spoken;
          queued = λ k. elim (Bool-cases (j == k)) [
            | inl d ↦
                rw (get-without j k left s.waiters, d, or_else-left left)
                  (after ∙ ap expected ((eq_iff j k).0 d))
            | inr d ↦ rw (get-without j k left s.waiters, d) (st.queued k)
          ];
        })
  ]

  step-IsStanding :
      (call : Call) (s : Waits)
      → registers id call ≡ false
      → ((k : String) → ends k id call ≡ true → expected k ≡ [])
      → IsStanding id expected os s
      → IsStanding id expected os (step call s)
  unfolding step
  step-IsStanding (settling j o) s h free st = settling-IsStanding j o s (free j (==_refl j)) st
  step-IsStanding (waiting j i) s h free st = waiting-IsStanding j i s h st
  step-IsStanding (expiring j i) s h free st =
      expiring-IsStanding j i s (λ same. free j (rw (==_refl j, same) refl)) st

  -- Calls that neither register the promise nor end its waiting leave it as it stands.
  pub run-IsStanding :
      (calls : List Call) (s : Waits)
      → some_of (registers id) calls ≡ false
      → ((k : String) → some_of (ends k id) calls ≡ true → expected k ≡ [])
      → IsStanding id expected os s
      → IsStanding id expected os (run calls s)
  unfolding run
  run-IsStanding [] s h free st = st
  run-IsStanding (call ∷ calls) s h free st =
      run-IsStanding calls (step call s) (ground arith) (λ k e. free k (ground arith))
        (step-IsStanding call s (ground arith) (λ k e. free k (ground arith)) st)
