-- ===== src/Worker/Runtime/Waiting/Calls.antt =====
-- The calls between a wait and its end, and what they keep.
use verify_agent.Prelude.{
  ℕ, ◌≤◌, String, Bool, true, false, not, ◌&&◌, List, [], ◌∷◌, ◌++◌, Option, none, nat_eq, is_some,
  filter, ◌==◌, eq_iff, or_else, ◌≡◌, ap, arith, Bool-cases, Option-cases, inl, inr,
}
use verify_agent.JsMap.{get, size}
use verify_agent.JsMap.Laws.{get-put, get-delete}
use verify_agent.Worker.Runtime.{Outcome}
use verify_agent.Worker.Runtime.Waiting.{Waits, remember_settled, wait_for_queue_job, time_out}
use verify_agent.Worker.Runtime.Waiting.Memory.{remembered}

-- The calls between a wait and its end.
pub data Call : Type 0 where
  settling : String → Outcome → Call
  waiting : String → ℕ → Call
  expiring : String → ℕ → Call

unfoldable pub step : Call → Waits → Waits
unfolding remember_settled wait_for_queue_job time_out
step (settling job o) s = remember_settled job o s
step (waiting job id) s = wait_for_queue_job job id s
step (expiring job id) s = time_out job id s

unfoldable pub run : List Call → Waits → Waits
unfolding step
run [] s = s
run (call ∷ calls) s = run calls (step call s)

-- The call settles the job, or the waiter's timer fires.
abbrev pub ends : String → ℕ → Call → Bool
ends job id (settling j o) = j == job
ends job id (waiting j i) = false
ends job id (expiring j i) = j == job && nat_eq i id

-- No job is both remembered and waited for, and the memory is within its bound.
pub record IsPrompt (s : Waits) : Type 0 where
  pub bounded : size s.recent ≤ 200
  pub prompt : (k : String) → is_some (get k s.recent) ≡ true → get k s.waiters ≡ none

remember_settled-IsPrompt :
    (job : String) (o : Outcome) (s : Waits) → IsPrompt s → IsPrompt (remember_settled job o s)
unfolding remember_settled
remember_settled-IsPrompt job o s p =
    let (found, fits, older) = remembered job o s.recent p.bounded in
    record {
      bounded = fits;
      prompt = λ k h. elim (Bool-cases (k == job)) [
        | inl e ↦ ground (arith, get-delete job k s.waiters, eq_iff k job, eq_iff job k)
        | inr e ↦
            let old = p.prompt k (older k e h) in
            ground (arith, get-delete job k s.waiters, eq_iff k job, eq_iff job k)
      ];
    }

wait_for_queue_job-IsPrompt :
    (job : String) (id : ℕ) (s : Waits) → IsPrompt s → IsPrompt (wait_for_queue_job job id s)
unfolding wait_for_queue_job
wait_for_queue_job-IsPrompt job id s p = elim (Option-cases (get job s.recent)) [
  | inr (o, e) ↦ rw e (record { bounded = p.bounded; prompt = p.prompt })
  | inl e ↦ rw e (record {
    bounded = p.bounded;
    prompt = λ k h.
        let old = p.prompt k h in
        ground (
          arith,
          get-put job k (or_else (get job s.waiters) [] ++ id ∷ []) s.waiters,
          eq_iff job k,
        );
  })
]

time_out-IsPrompt : (job : String) (id : ℕ) (s : Waits) → IsPrompt s → IsPrompt (time_out job id s)
unfolding time_out
time_out-IsPrompt job id s p = elim (Option-cases (get job s.waiters)) [
  | inl e ↦ rw e p
  | inr (ids, e) ↦ rw e (
      let left = filter (λ w. not (nat_eq w id)) ids in
      record {
        bounded = p.bounded;
        prompt = λ k h.
            let old = p.prompt k h in
            ground (
              arith,
              get-put job k left s.waiters,
              get-delete job k s.waiters,
              eq_iff job k,
              ap (λ (o : Option (List ℕ)). is_some o) e,
            );
      })
]

step-IsPrompt : (call : Call) (s : Waits) → IsPrompt s → IsPrompt (step call s)
unfolding step
step-IsPrompt (settling job o) s p = remember_settled-IsPrompt job o s p
step-IsPrompt (waiting job id) s p = wait_for_queue_job-IsPrompt job id s p
step-IsPrompt (expiring job id) s p = time_out-IsPrompt job id s p

pub run-IsPrompt : (calls : List Call) (s : Waits) → IsPrompt s → IsPrompt (run calls s)
unfolding run
run-IsPrompt [] s p = p
run-IsPrompt (call ∷ calls) s p = run-IsPrompt calls (step call s) (step-IsPrompt call s p)
