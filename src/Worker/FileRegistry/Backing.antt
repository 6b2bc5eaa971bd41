-- ===== src/Worker/FileRegistry/Backing.antt =====
-- What the file of apps/worker/src/result-registry.ts holds.
use mathlib.Core.Path.{subst}
use verify_agent.Prelude.{
  ℕ, zero, suc, ◌≤◌, String, not, ◌&&◌, List, [], ◌∷◌, ◌++◌, Option, none, some, ok, ◌≡◌, refl, sym,
  inl, inr, In, All, returns, ok-injective, length, ltb, filter, arith, Bool-cases, ◌==◌,
  In-append_right,
}
use verify_agent.Domain.Types.{VerificationResult}
use verify_agent.Domain.Validation.{Url}
use verify_agent.Worker.Registry.{Registry, store, get_by_queue_job_id}
use verify_agent.JsMap.{size}
use verify_agent.Worker.Registry.Consistency.{IsConsistent}
use verify_agent.Worker.Registry.Lookup.{store-found}
use verify_agent.Worker.FileRegistry.{
  Entry, FileRegistry, snapshot, persist, shift_to, replace_entry, file_store, written_entry,
}

-- The memory finds what the entry says.
abbrev pub IsBacked : Registry → Entry → Type 0
IsBacked memory entry = get_by_queue_job_id entry.queue_job_id memory ≡ some entry.result

snapshot-IsBacked :
    (memory : Registry) (entries : List Entry) → All (IsBacked memory) (snapshot memory entries)
unfolding snapshot
snapshot-IsBacked memory [] = tt
snapshot-IsBacked memory (entry ∷ entries) =
    written (get_by_queue_job_id entry.queue_job_id memory) refl (snapshot-IsBacked memory entries)
  where
    written :
        (found : Option VerificationResult)
        → get_by_queue_job_id entry.queue_job_id memory ≡ found
        → All (IsBacked memory) (snapshot memory entries)
        → All (IsBacked memory) (written_entry entry.queue_job_id found (snapshot memory entries))
    written none e all = all
    written (some result) e all = (e, all)

length-snapshot :
    (memory : Registry) (entries : List Entry) → length (snapshot memory entries) ≤ length entries
unfolding snapshot
length-snapshot memory [] = omega arith
length-snapshot memory (entry ∷ entries) =
    written (get_by_queue_job_id entry.queue_job_id memory) (length-snapshot memory entries)
  where
    written :
        (found : Option VerificationResult)
        → length (snapshot memory entries) ≤ length entries
        → length (written_entry entry.queue_job_id found (snapshot memory entries))
          ≤ suc (length entries)
    written none h = omega arith
    written (some result) h = omega arith

-- An entry that the memory backs is written.
In-snapshot :
    (memory : Registry) (entry : Entry) (entries : List Entry)
    → IsBacked memory entry
    → In entry entries
    → In entry (snapshot memory entries)
unfolding snapshot
In-snapshot memory entry [] backed m = absurd m
In-snapshot memory entry (e ∷ es) backed (inl q) =
    subst (λ o. In entry (written_entry e.queue_job_id o (snapshot memory es)))
      (sym (subst (IsBacked memory) q backed)) (inl q)
In-snapshot memory entry (e ∷ es) backed (inr m) =
    later (get_by_queue_job_id e.queue_job_id memory) (In-snapshot memory entry es backed m)
  where
    later :
        (found : Option VerificationResult)
        → In entry (snapshot memory es)
        → In entry (written_entry e.queue_job_id found (snapshot memory es))
    later none i = i
    later (some result) i = inr i

length-shift_to :
    (fuel most : ℕ) (entries : List Entry)
    → length entries ≤ fuel
    → length (shift_to fuel most entries) ≤ most
unfolding shift_to
length-shift_to zero most [] h = omega arith
length-shift_to zero most (e ∷ es) h = absurd (omega arith)
length-shift_to (suc fuel) most [] h = ground arith
length-shift_to (suc fuel) most (e ∷ es) h = ground (arith, length-shift_to fuel most es)

-- The last entry stays.
In-shift_to :
    (fuel most : ℕ) (entries : List Entry) (last : Entry)
    → 1 ≤ most
    → In last (shift_to fuel most (entries ++ last ∷ []))
unfolding shift_to
In-shift_to zero most entries last one = In-append_right last entries (last ∷ []) (inl refl)
In-shift_to (suc fuel) most [] last one = elim (Bool-cases (ltb most 1)) [
  | inl over ↦ absurd (ground arith)
  | inr fits ↦ rw fits (inl refl)
]
In-shift_to (suc fuel) most (e ∷ es) last one =
    elim (Bool-cases (ltb most (length (e ∷ es ++ last ∷ [])))) [
      | inl over ↦ rw over (In-shift_to fuel most es last one)
      | inr fits ↦ rw fits (inr (In-append_right last es (last ∷ []) (inl refl)))
    ]

length-replace_entry :
    (parse_url : String → Option Url) (max_results : ℕ) (queue_job_id : String)
    (result : VerificationResult) (entries : List Entry)
    → length (replace_entry parse_url max_results queue_job_id result entries) ≤ max_results
unfolding replace_entry
length-replace_entry parse_url max_results queue_job_id result entries =
    let kept =
      filter (λ e. not (e.queue_job_id == queue_job_id) && not (e.result.id == result.id))
        entries in
    let grown = kept ++ record { queue_job_id = queue_job_id; result = result } ∷ [] in
    length-shift_to (length grown) max_results grown (omega arith)

-- After a store that a registry in a file accepts, with a consistent memory within its bound, the
-- file holds the new result under the queue's job, no more entries than the bound, and only entries
-- that the memory finds as well.
pub file_store-IsBacked :
    (parse_url : String → Option Url) (max_results : ℕ) (queue_job_id : String)
    (result : VerificationResult) (s t : FileRegistry)
    → IsConsistent s.memory
    → 1 ≤ max_results
    → size s.memory.by_verification_id ≤ max_results
    → file_store parse_url max_results queue_job_id result s ≡ ok t
    → In (record { queue_job_id = queue_job_id; result = result }) t.file
      × (length t.file ≤ max_results)
      × All (IsBacked t.memory) t.file
unfolding file_store replace_entry persist
file_store-IsBacked parse_url max_results queue_job_id result s t c one few h =
    let entries = replace_entry parse_url max_results queue_job_id result s.entries in
    returns (store parse_url max_results queue_job_id result s.memory) _ h λ memory e k.
      let found =
        store-found parse_url max_results queue_job_id result s.memory memory c one few e in
      let bound = length-snapshot memory entries in
      let few_entries = length-replace_entry parse_url max_results queue_job_id result s.entries in
      subst
        (λ z.
          In (record { queue_job_id = queue_job_id; result = result }) z.file
          × (length z.file ≤ max_results)
          × All (IsBacked z.memory) z.file)
        (ok-injective k)
        (
          In-snapshot memory (record { queue_job_id = queue_job_id; result = result }) entries
              found.2 (In-shift_to _ max_results _ _ one),
          ground (arith, bound, few_entries),
          snapshot-IsBacked memory entries,
        )
