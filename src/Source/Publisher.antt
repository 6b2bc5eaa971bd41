-- ===== src/Source/Publisher.antt =====
-- packages/adapters-source/src/github-checks.ts: the publication of a verification result as a GitHub
-- Check Run. This file has what is decided before any request.
pub mod Remote
pub mod Checks
pub mod Publishing
pub mod Identity
pub mod Writes
pub mod Safety
pub mod Recency
use Prim.Native.String.{◌++◌ as concat}
use verify_agent.Prelude.{
  ℕ, String, Bool, true, false, not, ◌&&◌, ◌||◌, List, [], ◌∷◌, Option, none, some, Result, ok,
  throw, ◌>>=◌, ◌>>◌, ensure, reject_if, if◌then◌else◌, ◌==◌, leb, is_empty, length,
}
use verify_agent.Prelude.Text.{codes, is_hex_of, is_blank, lower, trim, after_prefix, contains}
use verify_agent.Errors.{Error, invalid_source_reference, publication, stale_result}
use verify_agent.Json.{Number, nat, negative, non_integer}
use verify_agent.Domain.Types.{VerificationResult, CheckResult}
use verify_agent.Domain.Validation.{Url}
use verify_agent.Bot.Decision.{GitHubSnapshotReference, validate_github_snapshot_reference}
use verify_agent.Source.Freshness.{Freshness, representable, is_digits, value_of, max_safe_integer}
use verify_agent.Source.Rendering.{
  Conclusion, CheckOutput, CheckRepository, RepositorySnapshot, conclusion_of, render_output,
}

pub record Input : Type 0 where
  pub result : VerificationResult
  pub snapshot : RepositorySnapshot
  pub repository : CheckRepository
  pub pull_request_number : Option ℕ
  pub check_results : Option (List CheckResult)
  pub expected_head_sha : Option String

pub record Config : Type 0 where
  pub app_id : ℕ
  pub api_base_url : String
  pub check_name : String
  pub max_freshness_entries : ℕ

pub record Options : Type 0 where
  pub app_id : String
  pub api_base_url : Option String
  pub check_name : Option String
  pub max_freshness_entries : Option Number

abbrev pub default_api_base_url : String
default_api_base_url = "https://api.github.com"

-- `replace(/\/+$/, "")`
unfoldable pub strip_slashes : String → String
strip_slashes String.[] = String.[]
strip_slashes (String.◌∷◌ c s) =
    let rest = strip_slashes s in
    if is_empty (codes rest) && (String.◌∷◌ c String.[]) == "/"
    then String.[]
    else String.◌∷◌ c rest

abbrev pub check_name_of : Option String → String
unfolding is_blank trim
check_name_of none = "VerifyAgent / verification"
check_name_of (some name) = if is_blank name then "VerifyAgent / verification" else trim name

abbrev pub entries_of : Option Number → Result Error ℕ
entries_of none = ok 500
entries_of (some (nat n)) = do
  ensure (leb 1 n) (publication "maxFreshnessEntries must be a positive integer")
  ok n
entries_of (some (negative n)) =
    throw (publication "maxFreshnessEntries must be a positive integer")
entries_of (some (non_integer s)) =
    throw (publication "maxFreshnessEntries must be a positive integer")

module _ (parse_url : String → Option Url) where
  unfoldable pub checked_url : String → Option Url → Result Error String
  unfolding contains
  checked_url base none = throw (publication "invalid GitHub API base URL")
  checked_url base (some url) = do
    ensure (url.protocol == "https:" || url.protocol == "http:")
        (publication "GitHub API base URL must be http(s)")
    reject_if
        (not (is_empty (codes url.username))
          || not (is_empty (codes url.password))
          || contains ".." base)
        (publication "GitHub API base URL must not contain credentials or traversal")
    ok base

  unfoldable pub normalize_api_base_url : Option String → Result Error String
  unfolding strip_slashes trim checked_url
  normalize_api_base_url value =
      let base = strip_slashes (trim (or_default value)) in
      if is_empty (codes base) then ok default_api_base_url else checked_url base (parse_url base)
    where
      or_default : Option String → String
      or_default none = default_api_base_url
      or_default (some text) = text

  -- The guards of `createGitHubCheckPublisher`, less the tests that the clients and `fetch` are there.
  unfoldable pub create_publisher : Options → Result Error Config
  unfolding trim is_digits value_of normalize_api_base_url
  create_publisher options = do
    let app_id = trim options.app_id
    let id = value_of 0 (codes app_id)
    ensure (is_digits app_id) (publication "GitHub App configuration is required")
    ensure (leb 1 id && leb id max_safe_integer)
        (publication "GitHub App configuration is required")
    url ← normalize_api_base_url options.api_base_url
    entries ← entries_of options.max_freshness_entries
    ok (record {
      app_id = id;
      api_base_url = url;
      check_name = check_name_of options.check_name;
      max_freshness_entries = entries;
    })

unfoldable pub resolve_head_sha : RepositorySnapshot → Result Error String
unfolding lower is_hex_of
resolve_head_sha snapshot = do
  ensure (snapshot.state_type == "commit" && is_hex_of 40 (lower snapshot.state_value))
      (invalid_source_reference "snapshot identity is not an exact commit SHA")
  ok (lower snapshot.state_value)

-- `resolveRepository`: what the reference's validation throws is the cause of another error.
unfoldable pub resolve_repository : CheckRepository → String → Result Error (Unit {0})
unfolding validate_github_snapshot_reference
resolve_repository repository head_sha = rejected (
    validate_github_snapshot_reference
      (record { owner = repository.owner; repository = repository.name; sha = head_sha }))
  where
    rejected : Result Error (Unit {0}) → Result Error (Unit {0})
    rejected (ok _) = ok tt
    rejected (throw e) = throw (publication "invalid GitHub repository or commit identity")

abbrev pub mismatch : Error
mismatch = publication "verification result snapshot identity mismatch"

abbrev pub is_sha_of : String → Option String → Bool
unfolding lower
is_sha_of head_sha none = false
is_sha_of head_sha (some sha) = lower sha == head_sha

unfoldable pub assert_identity :
    VerificationResult → RepositorySnapshot → CheckRepository → String → Result Error (Unit {0})
unfolding lower is_sha_of
assert_identity result snapshot repository head_sha = do
  ensure (result.snapshot_id == snapshot.id) mismatch
  ensure (result.project_id == snapshot.project_id) mismatch
  ensure (snapshot.provider == "github") mismatch
  ensure (lower snapshot.reference == head_sha) mismatch
  ensure (is_sha_of head_sha snapshot.commit_sha) mismatch
  let project = concat (lower repository.owner) (concat "--" (lower repository.name))
  ensure (lower snapshot.project_id == project) mismatch
  ensure (lower snapshot.id == concat project (concat "--" head_sha)) mismatch

abbrev pub is_expected : Option String → String → Bool
unfolding lower
is_expected none head_sha = true
is_expected (some sha) head_sha = lower sha == head_sha

pub record Prepared : Type 0 where
  pub head_sha : String
  pub conclusion : Conclusion
  pub output : CheckOutput
  pub freshness : Freshness
  pub key : String

abbrev pub publication_key : Config → CheckRepository → String → String
unfolding lower
publication_key config repository head_sha = concat (lower repository.owner) (
    concat "/" (
      concat (lower repository.name) (concat "/" (concat head_sha (concat "/" config.check_name)))))

abbrev pub represented : Option Freshness → Result Error Freshness
represented none =
    throw (publication "verification result ordering cannot be represented as a freshness marker")
represented (some f) = ok f

unfoldable pub dated : String → Option Number → Result Error Freshness
unfolding representable
dated hash none = throw (publication "verification result ordering is unavailable")
dated hash (some ms) = represented (representable ms hash)

-- `Date.parse` is a parameter, `none` for `NaN`: beyond ISO texts the language leaves it to the host.
module _ (date_parse : String → Option Number) where
  -- `readResultOrdering` and the guards of `formatVerificationFreshnessMarker`
  unfoldable pub read_ordering : VerificationResult → Result Error Freshness
  unfolding dated
  read_ordering result =
      dated (if is_empty (codes result.content_hash) then result.id else result.content_hash)
        (date_parse result.created_at)

  -- The part of `publishVerificationResult` before `runSerialized`.
  unfoldable pub prepare : Config → Input → Result Error Prepared
  unfolding resolve_head_sha resolve_repository assert_identity read_ordering conclusion_of
      render_output publication_key is_expected
  prepare config input = do
    head_sha ← resolve_head_sha input.snapshot
    resolve_repository input.repository head_sha
    assert_identity input.result input.snapshot input.repository head_sha
    ensure (is_expected input.expected_head_sha head_sha)
        (stale_result "verification result is not for the expected commit")
    freshness ← read_ordering input.result
    ok (record {
      head_sha = head_sha;
      conclusion = conclusion_of input.result.status;
      output = render_output (record {
        result = input.result;
        snapshot = input.snapshot;
        repository = input.repository;
        pull_request_number = input.pull_request_number;
        check_results = input.check_results;
      });
      freshness = freshness;
      key = publication_key config input.repository head_sha;
    })
