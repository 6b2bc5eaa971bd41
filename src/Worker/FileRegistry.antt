-- ===== src/Worker/FileRegistry.antt =====
-- apps/worker/src/result-registry.ts: the registry that is kept in a file. The file is the list of
-- entries of its envelope; one that is absent, of another version or no JSON holds none.
pub mod Backing
use verify_agent.Prelude.{
  ℕ, zero, suc, String, Bool, true, false, not, ◌&&◌, List, [], ◌∷◌, ◌++◌, Option, none, some,
  Result, ok, throw, ◌>>=◌, if◌then◌else◌, ◌==◌, ltb, filter, length,
}
use verify_agent.Errors.{Error}
use verify_agent.Domain.Types.{VerificationResult}
use verify_agent.Domain.Validation.{Url}
use verify_agent.Worker.Registry.{Registry, empty_registry, store, get_by_queue_job_id}

pub record Entry : Type 0 where
  pub queue_job_id : String
  pub result : VerificationResult

pub record FileRegistry : Type 0 where
  pub memory : Registry
  pub entries : List Entry
  pub file : List Entry

-- What of an entry is written: nothing where the memory finds no result for it.
abbrev written_entry : String → Option VerificationResult → List Entry → List Entry
written_entry queue_job_id none rest = rest
written_entry queue_job_id (some result) rest =
    record { queue_job_id = queue_job_id; result = result } ∷ rest

unfoldable pub snapshot : Registry → List Entry → List Entry
unfolding get_by_queue_job_id
snapshot memory [] = []
snapshot memory (entry ∷ entries) =
    written_entry entry.queue_job_id (get_by_queue_job_id entry.queue_job_id memory)
      (snapshot memory entries)

-- `persist`: the file is replaced at once.
unfoldable pub persist : FileRegistry → FileRegistry
unfolding snapshot
persist s = record s { file = snapshot s.memory s.entries }

abbrev shift : List Entry → List Entry
shift [] = []
shift (entry ∷ entries) = entries

-- `while (entries.length > maxResults) entries.shift()`, on fuel
unfoldable pub shift_to : ℕ → ℕ → List Entry → List Entry
shift_to zero most entries = entries
shift_to (suc fuel) most entries =
    let rest = shift_to fuel most (shift entries) in
    if ltb most (length entries) then rest else entries

module _ (parse_url : String → Option Url) (max_results : ℕ) where
  abbrev or_keep : Registry → Result Error Registry → Registry
  or_keep s (ok next) = next
  or_keep s (throw e) = s

  -- An entry that the memory does not accept is ignored.
  unfoldable pub load : List Entry → Registry → Registry
  unfolding store
  load [] s = s
  load (entry ∷ entries) s =
      load entries (or_keep s (store parse_url max_results entry.queue_job_id entry.result s))

  unfoldable pub open_registry : List Entry → FileRegistry
  unfolding load empty_registry
  open_registry file = record { memory = load file empty_registry; entries = file; file = file }

  -- The number of entries is enough fuel.
  unfoldable pub replace_entry : String → VerificationResult → List Entry → List Entry
  unfolding shift_to
  replace_entry queue_job_id result entries =
      let kept =
        filter (λ e. not (e.queue_job_id == queue_job_id) && not (e.result.id == result.id))
          entries in
      let grown = kept ++ record { queue_job_id = queue_job_id; result = result } ∷ [] in
      shift_to (length grown) max_results grown

  unfoldable pub file_store : String → VerificationResult → FileRegistry → Result Error FileRegistry
  unfolding store replace_entry persist
  file_store queue_job_id result s =
      store parse_url max_results queue_job_id result s.memory >>= λ memory. ok (
        persist
          (record s { memory = memory; entries = replace_entry queue_job_id result s.entries }))

unfoldable pub file_clear : FileRegistry → FileRegistry
unfolding empty_registry
file_clear s = record { memory = empty_registry; entries = []; file = [] }
