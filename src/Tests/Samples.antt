-- ===== src/Tests/Samples.antt =====
-- Data that the runs share: a digest, an order of texts and a URL parser to stand for the host's.
use mathlib.Core.Bool.{true, false}
use verify_agent.Prelude.{String, Bool, List, [], ◌∷◌, Option, none}
use verify_agent.Prelude.Sorting.{str_le}
use verify_agent.Json.{Json, nat}
use verify_agent.Domain.Types.{
  CheckResult, CheckStatus, Provenance, real, ProjectProfile, VerificationResult, pass,
}
use verify_agent.Domain.Validation.{Url}
use verify_agent.Domain.Queue.{QueueJob, all_applicable}

abbrev pub digest : String
digest = "0123456789abcdef0123456789abcdef0123456789abcdef0123456789abcdef"

abbrev pub sha256_json : Json → String
sha256_json j = digest

abbrev pub sha256_of_text : String → String
sha256_of_text s = digest

unfoldable pub collate : String → String → Bool
unfolding str_le
collate a b = str_le a b

abbrev pub no_url : String → Option Url
no_url s = none

abbrev pub today : String
today = "2026-09-01T10:00:00Z"

abbrev pub host : Provenance
host = record { type = "system"; name = "host"; version = none }

abbrev pub result_with : String → String → CheckStatus → CheckResult
result_with id check status = record {
  id = id;
  check_execution_id = "run-1";
  check_id = check;
  check_version = "1.0.0";
  status = status;
  exit_code = none;
  duration_ms = nat 5;
  summary = "done";
  raw_output_ref = none;
  artifact_refs = [];
  memory_bytes = nat 1;
  cpu_time_ms = nat 1;
  input_hash = digest;
  content_hash = digest;
  created_at = today;
  producer = host;
  execution_source = real;
}

abbrev pub profile_with : List String → ProjectProfile
profile_with capabilities = record {
  project_id = "project-1";
  snapshot_id = "snapshot-1";
  languages = "typescript" ∷ [];
  frameworks = [];
  package_managers = "npm" ∷ [];
  build_systems = [];
  test_frameworks = [];
  detected_tools = [];
  repository_structure = record {
    has_src = true;
    has_tests = true;
    has_apps = false;
    has_packages = false;
    has_contracts = false;
    is_monorepo = false;
    package_manager_ambiguous = false;
  };
  supported_capabilities = capabilities;
  detection_confidence = 100;
}

abbrev pub job_with : String → String → QueueJob
job_with id at = record {
  job_id = id;
  source = record { id = "acme:app:0123" };
  trigger = record { action = "opened"; pull_request_number = 7 };
  delivery_id = "delivery-1";
  created_at = at;
  selection = Option.some all_applicable;
}

abbrev pub verification_with : String → String → VerificationResult
verification_with id job_id = record {
  id = id;
  request_id = "request-1";
  job_id = job_id;
  project_id = "project-1";
  snapshot_id = "snapshot-1";
  change_set_id = "change-1";
  status = pass;
  coverage = record {
    verified = "typescript.lint" ∷ [];
    partial = [];
    unsupported = [];
    not_applicable = [];
    simulated = [];
    fixture = [];
  };
  check_results = [];
  evidence_references = [];
  finding_references = [];
  policy_decision = "decision-1";
  summary = "pass: 1/1 checks passed.";
  previous_verification_id = none;
  result_version = "1.0.0";
  content_hash = digest;
  created_at = today;
  requirement_evidence = none;
  check_run_evidence = none;
}
