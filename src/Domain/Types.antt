-- ===== src/Domain/Types.antt =====
-- The records of packages/domain/src: checks.ts, check-plan.ts, evidence.ts, findings.ts, policy.ts,
-- project.ts, source.ts, verification.ts, requirement-evidence.ts. Branded identifiers are strings.
-- A union of string literals is a data type, so the tests that a typed value lies in its union hold.
use verify_agent.Prelude.{ℕ, String, Bool, List, Option}
use verify_agent.Json.{Json, Number}

pub record Provenance : Type 0 where
  pub type : String
  pub name : String
  pub version : Option String

pub data ExecutionSource : Type 0 where
  real simulated fixture : ExecutionSource

pub data CheckStatus : Type 0 where
  passed failed error timed_out cancelled skipped : CheckStatus

pub data Determinism : Type 0 where
  deterministic probabilistic hybrid : Determinism

pub record CheckDefinition : Type 0 where
  pub id : String
  pub name : String
  pub version : String
  pub category : String
  pub description : String
  pub determinism : Determinism
  pub supported_languages : List String
  pub supported_frameworks : List String
  pub requirements : List String

pub data ExecutionStatus : Type 0 where
  queued running completed failed timed_out cancelled : ExecutionStatus

-- `SandboxStatus`, of packages/engine/src/interfaces.ts
pub data SandboxStatus : Type 0 where
  completed failed timed_out cancelled error : SandboxStatus

pub record CheckExecution : Type 0 where
  pub id : String
  pub check_definition_id : String
  pub job_id : String
  pub inputs_hash : String
  pub dependency_artifact_id : Option String
  pub started_at : Option String
  pub completed_at : Option String
  pub status : ExecutionStatus
  pub execution_source : Option ExecutionSource

pub record CheckResult : Type 0 where
  pub id : String
  pub check_execution_id : String
  pub check_id : String
  pub check_version : String
  pub status : CheckStatus
  pub exit_code : Option Number
  pub duration_ms : Number
  pub summary : String
  pub raw_output_ref : Option String
  pub artifact_refs : List String
  pub memory_bytes : Number
  pub cpu_time_ms : Number
  pub input_hash : String
  pub content_hash : String
  pub created_at : String
  pub producer : Provenance
  pub execution_source : ExecutionSource

pub data Applicability : Type 0 where
  applicable not_applicable unsupported : Applicability

pub record CheckPlanItem : Type 0 where
  pub check_id : String
  pub check_version : String
  pub applicability : Applicability
  pub required : Bool
  pub reason : String
  pub priority : ℕ
  pub dependencies : List String

pub record CheckPlan : Type 0 where
  pub plan_id : String
  pub planner_version : String
  pub project_id : String
  pub snapshot_id : String
  pub items : List CheckPlanItem
  pub created_at : String
  pub content_hash : String

pub record Evidence : Type 0 where
  pub id : String
  pub type : String
  pub summary : String
  pub value : Json
  pub source_references : List String
  pub producer : Provenance
  pub created_at : String
  pub content_hash : String
  pub execution_source : ExecutionSource

pub data Severity : Type 0 where
  info low medium high critical : Severity

pub data FindingStatus : Type 0 where
  opened resolved dismissed superseded : FindingStatus

pub record FindingLocation : Type 0 where
  pub path : String
  pub start_line : Number
  pub start_column : Option Number
  pub end_line : Option Number
  pub end_column : Option Number

-- `confidence` is kept as whether it lies between 0 and 1.
pub record Finding : Type 0 where
  pub id : String
  pub category : String
  pub severity : Severity
  pub status : FindingStatus
  pub title : String
  pub description : String
  pub locations : List FindingLocation
  pub evidence_references : List String
  pub producer : Provenance
  pub confidence_in_range : Option Bool

pub data PolicyOutcome : Type 0 where
  allow needs_review needs_changes block : PolicyOutcome

pub record PolicyRule : Type 0 where
  pub rule_id : String
  pub action : String
  pub priority : ℕ

pub record Policy : Type 0 where
  pub id : String
  pub name : String
  pub version : String
  pub rules : List PolicyRule
  pub created_at : String

pub record PolicyDecision : Type 0 where
  pub id : String
  pub policy_id : String
  pub policy_version : String
  pub outcome : PolicyOutcome
  pub triggered_rule_ids : List String
  pub evidence_references : List String
  pub finding_references : List String
  pub created_at : String
  pub content_hash : String

pub record RepositoryStructure : Type 0 where
  pub has_src : Bool
  pub has_tests : Bool
  pub has_apps : Bool
  pub has_packages : Bool
  pub has_contracts : Bool
  pub is_monorepo : Bool
  pub package_manager_ambiguous : Bool

-- `detection_confidence` in hundredths.
pub record ProjectProfile : Type 0 where
  pub project_id : String
  pub snapshot_id : String
  pub languages : List String
  pub frameworks : List String
  pub package_managers : List String
  pub build_systems : List String
  pub test_frameworks : List String
  pub detected_tools : List String
  pub repository_structure : RepositoryStructure
  pub supported_capabilities : List String
  pub detection_confidence : ℕ

pub record VerificationCoverage : Type 0 where
  pub verified : List String
  pub partial : List String
  pub unsupported : List String
  pub not_applicable : List String
  pub simulated : List String
  pub fixture : List String

pub data VerificationStatus : Type 0 where
  pass needs_review needs_changes blocked partial error : VerificationStatus

pub record EvidenceSource : Type 0 where
  pub owner : String
  pub repository : String
  pub number : Number
  pub url : Option String

pub record EvidenceLocation : Type 0 where
  pub file : String
  pub start_line : Option Number
  pub end_line : Option Number
  pub url : Option String

pub record RequirementEvidence : Type 0 where
  pub id : String
  pub source : EvidenceSource
  pub requirement_text : String
  pub requirement_id : Option String
  pub explanation : String
  pub matched_files : List String
  pub locations : List EvidenceLocation
  pub observed_text : List String
  pub evidence_hash : String
  pub commit_sha : Option String
  pub collected_at : Option String

pub data CheckCategory : Type 0 where
  build typecheck lint tests : CheckCategory

pub record CheckRunEvidence : Type 0 where
  pub id : Number
  pub name : String
  pub category : CheckCategory
  pub status : String
  pub conclusion : Option String
  pub head_sha : String
  pub url : Option String

pub record VerificationResult : Type 0 where
  pub id : String
  pub request_id : String
  pub job_id : String
  pub project_id : String
  pub snapshot_id : String
  pub change_set_id : String
  pub status : VerificationStatus
  pub coverage : VerificationCoverage
  pub check_results : List String
  pub evidence_references : List String
  pub finding_references : List String
  pub policy_decision : String
  pub summary : String
  pub previous_verification_id : Option String
  pub result_version : String
  pub content_hash : String
  pub created_at : String
  pub requirement_evidence : Option (List RequirementEvidence)
  pub check_run_evidence : Option (List CheckRunEvidence)
