-- ===== src/Source/Rendering.antt =====
-- packages/adapters-source/src/github-checks.ts: the conclusion of a status and what a Check Run
-- shows of a verification result.
use Prim.Native.String.{◌++◌ as concat}
use verify_agent.Prelude.{
  ℕ, String, List, [], ◌∷◌, ◌++◌, map, Option, none, some, length, is_empty, if◌then◌else◌,
}
use verify_agent.Prelude.Text.{decimal, lower}
use verify_agent.Prelude.Sorting.{sort_by, str_le}
use verify_agent.Json.{Number, nat, negative, non_integer}
use verify_agent.Domain.Types.{
  VerificationStatus, pass, needs_review, needs_changes, blocked, partial, error,
  VerificationResult, CheckResult, CheckStatus, ExecutionSource, real, simulated, fixture,
}

pub data Conclusion : Type 0 where
  success failure neutral : Conclusion

-- `mapVerificationStatusToCheckConclusion`. A status outside the union has no value here.
unfoldable pub conclusion_of : VerificationStatus → Conclusion
conclusion_of pass = success
conclusion_of blocked = failure
conclusion_of error = failure
conclusion_of needs_changes = neutral
conclusion_of needs_review = neutral
conclusion_of partial = neutral

abbrev pub conclusion_text : Conclusion → String
conclusion_text success = "success"
conclusion_text failure = "failure"
conclusion_text neutral = "neutral"

abbrev pub status_text : VerificationStatus → String
status_text pass = "pass"
status_text needs_review = "needs_review"
status_text needs_changes = "needs_changes"
status_text blocked = "blocked"
status_text partial = "partial"
status_text error = "error"

abbrev pub status_meaning : VerificationStatus → String
status_meaning pass = "All required checks passed with real provenance and complete coverage."
status_meaning blocked = "A required check failed or policy blocked the verification."
status_meaning needs_changes =
    "Completed but not passing: unsupported capability or non-real execution. Not a pass."
status_meaning needs_review = "A finding requests human review. Not a pass."
status_meaning partial = "Applicable checks remain unverified. Partial coverage is not a pass."
status_meaning error = "Verification errored and did not complete."

-- `values.join(separator)`
unfoldable pub join : String → List String → String
join separator [] = ""
join separator (s ∷ []) = s
join separator (s ∷ t ∷ rest) = concat s (concat separator (join separator (t ∷ rest)))

unfoldable pub bucket_label : List String → String
unfolding join sort_by str_le
bucket_label values = if is_empty values then "none" else join ", " (sort_by str_le values)

unfoldable pub provenance_note : VerificationResult → String
unfolding bucket_label
provenance_note result =
    let synthetic = result.coverage.simulated ++ result.coverage.fixture in
    if is_empty synthetic
    then if is_empty result.coverage.verified
      then "No passing checks with real provenance."
      else "Passing checks ran with real sandbox provenance."
    else concat "Synthetic execution present ("
        (concat (bucket_label synthetic) "); not fully real provenance.")

-- `RepositorySnapshot` of packages/domain/src/source.ts: its source's `provider` and `reference`, its
-- `sourceState`'s `type` and `value`.
pub record RepositorySnapshot : Type 0 where
  pub id : String
  pub project_id : String
  pub provider : String
  pub reference : String
  pub state_type : String
  pub state_value : String
  pub commit_sha : Option String

pub record CheckRepository : Type 0 where
  pub owner : String
  pub name : String

pub record RenderInput : Type 0 where
  pub result : VerificationResult
  pub snapshot : RepositorySnapshot
  pub repository : CheckRepository
  pub pull_request_number : Option ℕ
  pub check_results : Option (List CheckResult)

pub record CheckOutput : Type 0 where
  pub title : String
  pub summary : String
  pub text : String

abbrev pub number_text : Number → String
unfolding decimal
number_text (nat n) = decimal n
number_text (negative n) = concat "-" (decimal n)
number_text (non_integer s) = s

abbrev pub check_status_text : CheckStatus → String
check_status_text CheckStatus.passed = "passed"
check_status_text CheckStatus.failed = "failed"
check_status_text CheckStatus.error = "error"
check_status_text CheckStatus.timed_out = "timed_out"
check_status_text CheckStatus.cancelled = "cancelled"
check_status_text CheckStatus.skipped = "skipped"

abbrev pub source_text : ExecutionSource → String
source_text real = "real"
source_text simulated = "simulated"
source_text fixture = "fixture"

abbrev pub exit_text : Option Number → String
exit_text none = "n/a"
exit_text (some code) = number_text code

unfoldable pub check_line : CheckResult → String
check_line check = concat "Check " (
    concat check.check_id (
      concat ": " (
        concat (check_status_text check.status) (
          concat " (exit " (
            concat (exit_text check.exit_code) (
              concat ", " (
                concat (number_text check.duration_ms)
                  (concat "ms, " (concat (source_text check.execution_source) ")")))))))))

unfoldable pub summary_lines : RenderInput → List String
unfolding bucket_label provenance_note lower decimal
summary_lines input =
    let result = input.result in
    let coverage = result.coverage in
    concat "Verified commit: " (lower input.snapshot.state_value)
    ∷ concat "Status: "
        (concat (status_text result.status) (concat " — " (status_meaning result.status)))
    ∷ concat "Result summary: " result.summary
    ∷ concat "Checks verified (passed, real provenance): " (bucket_label coverage.verified)
    ∷ concat "Checks not verified: " (bucket_label coverage.partial)
    ∷ concat "Unsupported checks: " (bucket_label coverage.unsupported)
    ∷ concat "Not applicable checks: " (bucket_label coverage.not_applicable)
    ∷ concat "Findings: " (decimal (length result.finding_references))
    ∷ concat "Provenance: " (provenance_note result)
    ∷ concat "Verification: "
        (concat result.id (concat " (result version " (concat result.result_version ")")))
    ∷ []

abbrev pull_request_lines : Option ℕ → List String
unfolding decimal
pull_request_lines none = []
pull_request_lines (some n) = concat "Pull request: #" (decimal n) ∷ []

-- `String(a.checkId) < String(b.checkId) ? -1 : ...`
abbrev check_lines : Option (List CheckResult) → List String
unfolding check_line sort_by str_le
check_lines none = []
check_lines (some checks) = map check_line (sort_by (λ a b. str_le a.check_id b.check_id) checks)

abbrev finding_lines : List String → List String
unfolding join sort_by str_le
finding_lines [] = []
finding_lines (f ∷ fs) =
    concat "Finding references: " (join ", " (sort_by str_le (f ∷ fs)))
    ∷ "Finding details live in the protected VerifyAgent result; this check mirrors the result only."
    ∷ []

unfoldable pub detail_lines : RenderInput → List String
unfolding bucket_label lower pull_request_lines check_lines finding_lines
detail_lines input =
    let result = input.result in
    let coverage = result.coverage in
    let head_sha = lower input.snapshot.state_value in
    (concat "Repository: " (concat input.repository.owner (concat "/" input.repository.name))
      ∷ pull_request_lines input.pull_request_number)
    ++ (concat "Verified commit SHA: " head_sha
        ∷ concat "Snapshot identity: " input.snapshot.id
        ∷ concat "Verification ID: " result.id
        ∷ concat "Verification job ID: " result.job_id
        ∷ concat "Policy decision: " result.policy_decision
        ∷ concat "Coverage verified: " (bucket_label coverage.verified)
        ∷ concat "Coverage not verified: " (bucket_label coverage.partial)
        ∷ concat "Coverage unsupported: " (bucket_label coverage.unsupported)
        ∷ concat "Coverage not applicable: " (bucket_label coverage.not_applicable)
        ∷ [])
    ++ check_lines input.check_results
    ++ finding_lines result.finding_references
    ++ (concat "Verification truth lives in VerifyAgent result " (
          concat result.id
            (concat "; this Check Run mirrors that result for commit " (concat head_sha ".")))
        ∷ [])

-- `renderVerificationCheckOutput`
unfoldable pub render_output : RenderInput → CheckOutput
unfolding summary_lines detail_lines join
render_output input = record {
  title = concat "VerifyAgent verification: " (status_text input.result.status);
  summary = join "\n" (summary_lines input);
  text = join "\n" (detail_lines input);
}
