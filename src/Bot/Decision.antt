-- ===== src/Bot/Decision.antt =====
-- packages/adapters-source/src/github.ts and github-pr.ts: the GitHub snapshot reference and what is
-- decided about a pull-request event. The event is already typed, as its callers hand it over.
use Prim.Native.String.{◌++◌ as concat}
use verify_agent.Prelude.{
  ℕ, String, Bool, false, not, ◌&&◌, ◌||◌, List, [], ◌∷◌, Result, ok, ◌>>◌, ensure, reject_if,
  if◌then◌else◌, every, length, leb, nat_eq, includes,
}
use verify_agent.Prelude.Text.{codes, is_alnum, is_blank, is_hex_of, lower}
use verify_agent.Errors.{Error, invalid_source_reference}

pub record GitHubSnapshotReference : Type 0 where
  pub owner : String
  pub repository : String
  pub sha : String

pub record GitHubPullRequestEvent : Type 0 where
  pub action : String
  pub owner : String
  pub name : String
  pub number : ℕ
  pub base_sha : String
  pub head_sha : String

pub data Decision : Type 0 where
  verify : GitHubSnapshotReference → ℕ → String → String → Decision
  ignore : String → Decision

-- `/^[a-zA-Z0-9](?:[a-zA-Z0-9-]{0,38})$/`, and the same with more characters for a repository
abbrev word_of : (ℕ → Bool) → ℕ → List ℕ → Bool
word_of also most [] = false
word_of also most (c ∷ cs) =
    is_alnum c && leb (length cs) most && every (λ d. is_alnum d || also d) cs

unfoldable pub is_valid_owner : String → Bool
is_valid_owner owner = word_of (λ d. nat_eq d b'-') 38 (codes owner)

unfoldable pub is_valid_repository : String → Bool
is_valid_repository repository =
    word_of (λ d. nat_eq d b'-' || nat_eq d b'.' || nat_eq d b'_') 99 (codes repository)

unfoldable pub validate_github_snapshot_reference :
    GitHubSnapshotReference → Result Error (Unit {0})
unfolding is_valid_owner is_valid_repository is_hex_of
validate_github_snapshot_reference r = do
  ensure (is_valid_owner r.owner)
      (invalid_source_reference (concat "invalid GitHub owner: " r.owner))
  ensure (is_valid_repository r.repository)
      (invalid_source_reference (concat "invalid GitHub repository: " r.repository))
  ensure (is_hex_of 40 r.sha) (invalid_source_reference (concat "invalid GitHub sha: " r.sha))

unfoldable pub supported_github_pr_actions : List String
supported_github_pr_actions = "opened" ∷ "synchronize" ∷ "reopened" ∷ []

abbrev non_empty_string : String → String → Result Error (Unit {0})
unfolding is_blank
non_empty_string value name =
    reject_if (is_blank value)
      (invalid_source_reference (concat name " must be a non-empty string"))

-- The tests of `validateEventShape` that the type does not give.
unfoldable pub validate_event_shape : GitHubPullRequestEvent → Result Error (Unit {0})
unfolding non_empty_string
validate_event_shape event = do
  non_empty_string event.action "pull request action"
  non_empty_string event.owner "repository.owner"
  non_empty_string event.name "repository.name"
  ensure (leb 1 event.number)
      (invalid_source_reference "pullRequest.number must be a positive integer")
  non_empty_string event.base_sha "pullRequest.base.sha"
  non_empty_string event.head_sha "pullRequest.head.sha"

unfoldable pub decide_github_pull_request_event : GitHubPullRequestEvent → Result Error Decision
unfolding validate_event_shape supported_github_pr_actions validate_github_snapshot_reference lower
    is_hex_of
decide_github_pull_request_event event = do
  validate_event_shape event
  if not (includes supported_github_pr_actions event.action)
      then ok (ignore (concat "unsupported action: " event.action))
      else (do
        validate_github_snapshot_reference
            (record { owner = event.owner; repository = event.name; sha = event.head_sha })
        let head = lower event.head_sha
        let base = lower event.base_sha
        ensure (is_hex_of 40 base)
            (invalid_source_reference (concat "invalid base sha: " event.base_sha))
        ok (
            verify (record { owner = event.owner; repository = event.name; sha = head })
              event.number base head))
