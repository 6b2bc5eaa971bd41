-- ===== src/Bot/Orchestrator.antt =====
-- apps/github-bot/src/verification-orchestrator.ts: from an event to a queued job. The new identifier
-- and the time are arguments; the queue is its `enqueue`.
pub mod Enqueuing
use Prim.Native.String.{◌++◌ as concat}
use verify_agent.Prelude.{
  ℕ, String, Bool, true, false, Option, none, some, Result, ok, throw, ◌>>=◌, ◌>>◌, reject_if,
  is_empty,
}
use verify_agent.Prelude.Text.{codes, is_blank, trim}
use verify_agent.Errors.{Error, plain}
use verify_agent.Domain.Queue.{QueueJob, create_queue_job, all_applicable}
use verify_agent.Bot.Decision.{
  GitHubPullRequestEvent, GitHubSnapshotReference, Decision, verify, ignore,
  decide_github_pull_request_event,
}

pub data Orchestration : Type 0 where
  ignored : String → Orchestration
  enqueued : QueueJob → Orchestration

-- `${owner}:${repository}:${sha}`
abbrev pub source_id : GitHubSnapshotReference → String
source_id r = concat r.owner (concat ":" (concat r.repository (concat ":" r.sha)))

abbrev pub job_of :
    GitHubPullRequestEvent → GitHubSnapshotReference → ℕ → String → String → String → QueueJob
job_of event source number delivery_id job_id created_at = record {
  job_id = job_id;
  source = record { id = source_id source };
  trigger = record { action = event.action; pull_request_number = number };
  delivery_id = delivery_id;
  created_at = created_at;
  selection = some all_applicable;
}

module _ {Q : Type 0} (enqueue : QueueJob → Q → Result Error Q) (new_job_id now : String) where
  unfoldable pub act :
      GitHubPullRequestEvent → String → Decision → Q → Result Error (Orchestration × Q)
  unfolding create_queue_job trim is_blank
  act event delivery (ignore reason) q = ok (ignored reason, q)
  act event delivery (verify source number base head) q = do
    let delivery_id = trim delivery
    reject_if (is_empty (codes delivery_id))
        (plain "deliveryId is required to enqueue verification job")
    reject_if (is_blank new_job_id) (plain "jobId must be a non-empty string")
    reject_if (is_blank now) (plain "createdAt must be a non-empty string")
    job ← create_queue_job (job_of event source number delivery_id new_job_id now)
    next ← enqueue job q
    ok (enqueued job, next)

  unfoldable pub handle : GitHubPullRequestEvent → String → Q → Result Error (Orchestration × Q)
  unfolding decide_github_pull_request_event act
  handle event delivery q =
      decide_github_pull_request_event event >>= λ decision. act event delivery decision q
