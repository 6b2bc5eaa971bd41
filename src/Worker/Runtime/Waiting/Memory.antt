-- ===== src/Worker/Runtime/Waiting/Memory.antt =====
-- What the runtime remembers of the outcomes.
use verify_agent.Prelude.{
  ℕ, zero, suc, ◌≤◌, String, true, false, [], ◌∷◌, none, some, ltb, is_some, ◌==◌, eq_iff, ◌≡◌,
  refl, arith, Bool-cases, Option-cases, inl, inr,
}
use verify_agent.JsMap.{JsMap, get, put, delete, size, first_key}
use verify_agent.JsMap.Laws.{get-put, get-delete, size-put, size-delete-lt, first_key-put}
use verify_agent.Worker.Runtime.{Outcome}
use verify_agent.Worker.Runtime.Waiting.{drop_first, trim_recent}

trim_recent-stop : (fuel : ℕ) (m : JsMap Outcome) → size m ≤ 200 → trim_recent fuel m ≡ m
unfolding trim_recent
trim_recent-stop zero m h = refl
trim_recent-stop (suc fuel) m h = ground arith

-- One entry above the bound, the first entry is dropped.
trim_recent-once :
    (fuel : ℕ) (m : JsMap Outcome) (k : String)
    → size m ≡ 201
    → first_key m ≡ some k
    → trim_recent (suc fuel) m ≡ delete k m
unfolding trim_recent drop_first
trim_recent-once fuel m k h e =
    let less = size-delete-lt k m e in
    rw e (let stop = trim_recent-stop fuel (delete k m) (omega arith) in ground arith)

first_key-none : (m : JsMap Outcome) → first_key m ≡ none → size m ≡ 0
first_key-none [] e = refl
first_key-none ((k, o) ∷ m) e = absurd (ground arith)

-- What is remembered after an outcome: the outcome itself, at most the bound, and of the rest
-- nothing that was not remembered before.
abbrev pub IsRemembered : String → Outcome → JsMap Outcome → JsMap Outcome → Type 0
IsRemembered job o before after =
    (get job after ≡ some o)
    × (size after ≤ 200)
    × ((k : String)
        → (k == job) ≡ false
        → is_some (get k after) ≡ true
        → is_some (get k before) ≡ true)

pub remembered :
    (job : String) (o : Outcome) (m : JsMap Outcome)
    → size m ≤ 200
    → (let grown = put job o m in IsRemembered job o m (trim_recent (size grown) grown))
remembered job o m h =
    let grown = put job o m in
    let grows = size-put job o m in
    let own = get-put job job o m in
    elim (Bool-cases (ltb 200 (size grown))) [
      | inr fits ↦ rw (trim_recent-stop (size grown) grown (ground arith)) (
        ground (arith, eq_iff job job),
        ground arith,
        λ k e p. ground (arith, get-put job k o m, eq_iff job k, eq_iff k job),
      )
      | inl over ↦
          let full : size grown ≡ 201 = ground arith in
          let absent : is_some (get job m) ≡ false = ground arith in
          elim (Option-cases (first_key grown)) [
            | inl e ↦ let z = first_key-none grown e in absurd (omega arith)
            | inr (k, e) ↦
                let apart = first_key-put job k o m (ground arith) absent e in
                let less = size-delete-lt k grown e in
                rw (full, trim_recent-once 200 grown k full e)
                  (
                    ground (arith, eq_iff job job, get-delete k job grown),
                    omega arith,
                    λ j d p. ground (
                      arith,
                      get-delete k j grown,
                      get-put job j o m,
                      eq_iff job j,
                      eq_iff j job,
                    ),
                  )
          ]
    ]
