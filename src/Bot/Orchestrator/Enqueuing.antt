-- ===== src/Bot/Orchestrator/Enqueuing.antt =====
-- What is queued for a pull-request event.
use mathlib.Core.Path.{subst}
use verify_agent.Prelude.{
  ensure_holds, ℕ, String, Bool, true, false, Result, ok, ◌≡◌, refl, sym, ap, ◌∙◌, arith, returns,
  ok-injective, includes, ensure, reject_if, Bool-cases, inl, inr, is_empty,
}
use verify_agent.Prelude.Text.{codes, is_blank, trim, is_hex_of, lower}
use verify_agent.Errors.{Error}
use verify_agent.Domain.Queue.{QueueJob, create_queue_job}
use verify_agent.Domain.Queue.RoundTrip.{IsValidJob, create_queue_job-eq-ok_iff}
use verify_agent.Bot.Decision.{
  GitHubPullRequestEvent, GitHubSnapshotReference, Decision, verify, ignore,
  decide_github_pull_request_event, validate_event_shape, validate_github_snapshot_reference,
  supported_github_pr_actions, is_valid_owner, is_valid_repository,
}
use verify_agent.Bot.Orchestrator.{enqueued, act, handle, job_of}

-- The source that an event is verified at: its head commit, in lower case.
abbrev pub head_of : GitHubPullRequestEvent → GitHubSnapshotReference
unfolding lower
head_of event = record { owner = event.owner; repository = event.name; sha = lower event.head_sha }

-- An event that leads to a verification.
pub record IsVerifiable (event : GitHubPullRequestEvent) (d : Decision) : Type 0 where
  pub supported : includes supported_github_pr_actions event.action ≡ true
  pub owner : is_valid_owner event.owner ≡ true
  pub repository : is_valid_repository event.name ≡ true
  pub head : is_hex_of 40 event.head_sha ≡ true
  pub base : is_hex_of 40 (lower event.base_sha) ≡ true
  pub decided :
      d ≡ verify (head_of event) event.number (lower event.base_sha) (lower event.head_sha)

is_ignored : Decision → Bool
is_ignored (ignore reason) = true
is_ignored (verify source number base head) = false

decide-IsVerifiable :
    (event : GitHubPullRequestEvent) (d : Decision)
    → decide_github_pull_request_event event ≡ ok d
    → is_ignored d ≡ false
    → IsVerifiable event d
unfolding decide_github_pull_request_event validate_github_snapshot_reference is_ignored
decide-IsVerifiable event d h n = returns (validate_event_shape event) _ h λ _ _ h1.
    elim (Bool-cases (includes supported_github_pr_actions event.action)) [
      | inr e ↦ absurd (ground arith)
      | inl e ↦
          let h2 = rw e at h1 in
          returns
            (validate_github_snapshot_reference
              (record { owner = event.owner; repository = event.name; sha = event.head_sha }))
            _ h2
            λ _ v h3. returns (ensure (is_hex_of 40 (lower event.base_sha)) _) _ h3 λ u4 e4 h4.
              returns (ensure (is_valid_owner event.owner) _) _ v λ u5 e5 v1.
                returns (ensure (is_valid_repository event.name) _) _ v1 λ u6 e6 v2. record {
                  supported = e;
                  owner = ensure_holds _ _ u5 e5;
                  repository = ensure_holds _ _ u6 e6;
                  head = ensure_holds _ _ tt v2;
                  base = ensure_holds _ _ u4 e4;
                  decided = sym (ok-injective h4);
                }
    ]

-- What an enqueued job is.
pub record IsEnqueued (event : GitHubPullRequestEvent) (delivery id now : String) (job : QueueJob)
    : Type 0 where
  pub verifiable :
      IsVerifiable event
        (verify (head_of event) event.number (lower event.base_sha) (lower event.head_sha))
  pub job_eq : job ≡ job_of event (head_of event) event.number (trim delivery) id now
  pub valid : IsValidJob job

module _ {Q : Type 0} (enqueue : QueueJob → Q → Result Error Q) (id now : String) where
  act-IsEnqueued :
      (event : GitHubPullRequestEvent) (delivery : String) (q next : Q) (job : QueueJob)
      (d : Decision)
      → decide_github_pull_request_event event ≡ ok d
      → act enqueue id now event delivery d q ≡ ok (enqueued job, next)
      → IsEnqueued event delivery id now job × (enqueue job q ≡ ok next)
  unfolding act is_ignored
  act-IsEnqueued event delivery q next job (ignore reason) h k =
      absurd (let e = ap (λ x. x.0) (ok-injective k) in ground arith)
  act-IsEnqueued event delivery q next job (verify source number base head) h k =
      let v = decide-IsVerifiable event (verify source number base head) h refl in
      let (same_source, same_number) = verify-injective v.decided in
      returns (reject_if (is_empty (codes (trim delivery))) _) _ k λ _ _ k1.
        returns (reject_if (is_blank id) _) _ k1 λ _ _ k2.
          returns (reject_if (is_blank now) _) _ k2 λ _ _ k3.
            returns (create_queue_job (job_of event source number (trim delivery) id now)) _ k3
              λ made e4 k4. returns (enqueue made q) _ k4 λ q2 e5 k5.
                let pair = ok-injective k5 in
                let same_job = enqueued-injective (ap (λ x. x.0) pair) in
                let (valid, made_eq) =
                  (create_queue_job-eq-ok_iff (job_of event source number (trim delivery) id now)
                      made).0
                    e4 in
                (
                  record {
                    verifiable = subst (IsVerifiable event) v.decided v;
                    job_eq = sym same_job ∙ made_eq ∙ rw (same_source, same_number) refl;
                    valid = subst IsValidJob (sym made_eq ∙ same_job) valid;
                  },
                  rw (← same_job) e5 ∙ ap (λ x. ok x) (ap (λ x. x.1) pair),
                )
    where
      verify-injective :
          {a b : GitHubSnapshotReference} {m n : ℕ} {s t u v : String}
          → verify a m s t ≡ verify b n u v
          → (a ≡ b) × (m ≡ n)
      verify-injective e = (cc, cc)

      enqueued-injective : {a b : QueueJob} → enqueued a ≡ enqueued b → a ≡ b
      enqueued-injective e = cc

  -- A job is queued only for a supported action on a well-formed repository and commit; it is a
  -- valid job for the head commit in lower case and for all applicable checks, under the trimmed
  -- delivery, and the queue is the one after that job was enqueued.
  pub handle-IsEnqueued :
      (event : GitHubPullRequestEvent) (delivery : String) (q next : Q) (job : QueueJob)
      → handle enqueue id now event delivery q ≡ ok (enqueued job, next)
      → IsEnqueued event delivery id now job × (enqueue job q ≡ ok next)
  unfolding handle
  handle-IsEnqueued event delivery q next job h =
      returns (decide_github_pull_request_event event) _ h
        λ d e k. act-IsEnqueued event delivery q next job d e k
