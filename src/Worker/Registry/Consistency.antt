-- ===== src/Worker/Registry/Consistency.antt =====
-- The invariant of the registry: its indexes agree with what it stores.
use verify_agent.Prelude.{String, some, ◌≡◌, arith, NoDup}
use verify_agent.JsMap.{get, keys}
use verify_agent.Domain.Types.{VerificationResult}
use verify_agent.Worker.Registry.{Registry, empty_registry}

pub record IsConsistent (s : Registry) : Type 0 where
  pub ids_once : NoDup (keys s.by_verification_id)
  pub jobs_once : NoDup (keys s.verification_id_by_job_id)
  pub queue_jobs_once : NoDup (keys s.verification_id_by_queue_job_id)
  pub named : (v : String) (r : VerificationResult) → get v s.by_verification_id ≡ some r → r.id ≡ v
  pub by_job :
      (j v : String)
      → get j s.verification_id_by_job_id ≡ some v
      → (r : VerificationResult) × (get v s.by_verification_id ≡ some r) × (r.job_id ≡ j)
  pub indexed :
      (v : String) (r : VerificationResult)
      → get v s.by_verification_id ≡ some r
      → get r.job_id s.verification_id_by_job_id ≡ some v
  pub by_queue :
      (q v : String)
      → get q s.verification_id_by_queue_job_id ≡ some v
      → (r : VerificationResult) × (get v s.by_verification_id ≡ some r)

pub empty_registry-IsConsistent : IsConsistent empty_registry
unfolding empty_registry get
empty_registry-IsConsistent = record {
  ids_once = tt;
  jobs_once = tt;
  queue_jobs_once = tt;
  named = λ v r h. absurd (ground arith);
  by_job = λ j v h. absurd (ground arith);
  indexed = λ v r h. absurd (ground arith);
  by_queue = λ q v h. absurd (ground arith);
}
