-- ===== src/Worker/Runtime/Waiting/Waking.antt =====
-- What a promise of `waitForQueueJob` is resolved with.
use verify_agent.Prelude.{
  ℕ, String, true, false, List, [], ◌∷◌, ◌++◌, map, none, some, nat_eq, filter-append, some_of,
  if◌then◌else◌, ◌==◌, ==_refl, eq_iff, or_else, ◌≡◌, refl, ap, ◌∙◌, ◌⊎◌, arith, Bool-cases,
  Option-cases, inl, inr,
}
use mathlib.Core.Path.{subst}
use verify_agent.JsMap.{get}
use verify_agent.JsMap.Laws.{get-put}
use verify_agent.Worker.Runtime.{Outcome}
use verify_agent.Worker.Runtime.Waiting.{Waits, tell, remember_settled, wait_for_queue_job}
use verify_agent.Worker.Runtime.Waiting.Calls.{Call, run, ends}
use verify_agent.Worker.Runtime.Waiting.Telling.{
  told, waits, registers, IsStanding, IsFresh, told-append, told-tell, run-IsStanding,
}

nat_eq_refl : (n : ℕ) → nat_eq n n ≡ true
nat_eq_refl n = ground arith

-- The promise waits once, for this job.
abbrev only : String → ℕ → String → List ℕ
only job id k = if job == k then id ∷ [] else []

waiting-only :
    (job : String) (id : ℕ) (s : Waits)
    → get job s.recent ≡ none
    → IsFresh id s
    → IsStanding id (only job id) [] (wait_for_queue_job job id s)
unfolding wait_for_queue_job
waiting-only job id s e fresh = rw e (
    let ids = or_else (get job s.waiters) [] in
    record {
      spoken = fresh.spoken;
      queued = λ k. elim (Bool-cases (job == k)) [
        | inl d ↦
            rw (get-put job k (ids ++ id ∷ []) s.waiters, d)
              (filter-append (λ w. nat_eq w id) ids (id ∷ [])
                ∙ rw (fresh.queued job, nat_eq_refl id) refl)
        | inr d ↦ rw (get-put job k (ids ++ id ∷ []) s.waiters, d) (fresh.queued k)
      ];
    })

only-free :
    (job : String) (id : ℕ) (calls : List Call)
    → some_of (ends job id) calls ≡ false
    → (k : String) → some_of (ends k id) calls ≡ true
    → only job id k ≡ []
only-free job id calls h k e = elim (Bool-cases (job == k)) [
  | inr d ↦ rw d refl
  | inl d ↦
      let same = (eq_iff job k).0 d in
      let f : some_of (ends k id) calls ≡ false =
        subst (λ j. some_of (ends j id) calls ≡ false) same h in
      absurd (ground arith)
]

at_once :
    (job : String) (id : ℕ) (p : Outcome) (s : Waits)
    → get job s.recent ≡ some p
    → IsFresh id s
    → IsStanding id (λ k. []) (p ∷ []) (wait_for_queue_job job id s)
unfolding wait_for_queue_job
at_once job id p s e fresh = rw e (record {
  spoken = told-append id s.resolved ((id, p) ∷ []) ∙ rw (fresh.spoken, nat_eq_refl id) refl;
  queued = fresh.queued;
})

told-settled :
    (job : String) (id : ℕ) (o : Outcome) (t : Waits)
    → IsStanding id (only job id) [] t
    → told id (remember_settled job o t).resolved ≡ o ∷ []
unfolding remember_settled
told-settled job id o t st =
    let ids = or_else (get job t.waiters) [] in
    let waiting_once : waits id job t ≡ id ∷ [] = st.queued job ∙ rw (==_refl job) refl in
    let now : told id (tell o ids) ≡ o ∷ [] = told-tell id o ids ∙ ap (map (λ w. o)) waiting_once in
    told-append id t.resolved (tell o ids) ∙ rw (st.spoken, now) refl

-- A promise that is registered under a new number for a job whose outcome is remembered is resolved
-- with that outcome at once, and with no other. Any other is not resolved, whatever is called, before
-- the job settles or its own timer fires; when the job settles it is resolved once, with the outcome
-- that the job settles with.
pub wait-resolved :
    (calls : List Call) (job : String) (id : ℕ) (o : Outcome) (s : Waits)
    → IsFresh id s
    → some_of (registers id) calls ≡ false
    → some_of (ends job id) calls ≡ false
    → (let t = run calls (wait_for_queue_job job id s) in
        ((p : Outcome) × (get job s.recent ≡ some p) × (told id t.resolved ≡ p ∷ []))
        ⊎ ((get job s.recent ≡ none)
            × (told id t.resolved ≡ [])
            × (told id (remember_settled job o t).resolved ≡ o ∷ [])))
wait-resolved calls job id o s fresh once h = elim (Option-cases (get job s.recent)) [
  | inr (p, e) ↦
      let st =
        run-IsStanding id (λ k. []) (p ∷ []) calls (wait_for_queue_job job id s) once (λ k _. refl)
          (at_once job id p s e fresh) in
      inl (p, e, st.spoken)
  | inl e ↦
      let t = run calls (wait_for_queue_job job id s) in
      let st =
        run-IsStanding id (only job id) [] calls (wait_for_queue_job job id s) once
          (only-free job id calls h) (waiting-only job id s e fresh) in
      inr (e, st.spoken, told-settled job id o t st)
]
