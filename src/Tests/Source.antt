-- ===== src/Tests/Source.antt =====
-- Runs of packages/adapters-source: markers, their order and publications.
use verify_agent.Prelude.{
  ℕ, suc, String, Bool, false, [], ◌∷◌, Option, none, some, Result, ok, ◌≡◌, refl, ◌↔◌, ◌⊎◌, inl,
  In, ◌≤◌, arith,
}
use verify_agent.JsMap.{JsMap, size}
use verify_agent.Json.{Json, Number, nat, num, str, object, array}
use verify_agent.Errors.{Error}
use verify_agent.Domain.Types.{VerificationResult}
use verify_agent.Source.Freshness.{Freshness, representable, parse_marker, marker_text}
use verify_agent.Source.Freshness.RoundTrip.{parse_marker-marker_text}
use verify_agent.Source.Rendering.{success, render_output}
use verify_agent.Source.Publisher.{Config, Input, Prepared, prepare}
use verify_agent.Source.Publisher.Remote.{
  Client, Request, Response, World, Method, get_method, post_method, patch_method,
}
use verify_agent.Source.Publisher.Identity.{IsBound, prepare-IsBound}
use verify_agent.Source.Publisher.Checks.{update_request, lookup_request}
use verify_agent.Source.Publisher.Publishing.{Publication, publish}
use verify_agent.Source.Publisher.Recency.{IsKept, publish-IsKept}
use verify_agent.Source.Publisher.Safety.{IsWrite, publish-IsWrite}
use verify_agent.Tests.Samples.{verification_with}

abbrev early : Freshness
early = record { created_at_ms = 1700000000000; content_hash = "aa" }

abbrev late : Freshness
late = record { created_at_ms = 1700000000000; content_hash = "ab" }

early_marker : marker_text early ≡ "verifyagent:v1:1700000000000:aa"
unfolding marker_text
early_marker = refl

marker_by_value : parse_marker (some (str "verifyagent:v1:12:aa:")) ≡ none
unfolding parse_marker
marker_by_value = refl

parse_marker-marker_text_example :
    (representable (nat 12) "ab" ≡ some (record { created_at_ms = 12; content_hash = "ab" })) ↔ (
      parse_marker (some (str (marker_text (record { created_at_ms = 12; content_hash = "ab" }))))
      ≡ some (record { created_at_ms = 12; content_hash = "ab" }))
parse_marker-marker_text_example =
    parse_marker-marker_text (record { created_at_ms = 12; content_hash = "ab" })

abbrev sha : String
sha = "0123456789abcdef0123456789abcdef01234567"

abbrev config : Config
config = record {
  app_id = 42;
  api_base_url = "https://api.github.com";
  check_name = "VerifyAgent / verification";
  max_freshness_entries = 2;
}

abbrev result : VerificationResult
result = record (verification_with "verification-1" "job-1") {
  snapshot_id = "acme--app--0123456789abcdef0123456789abcdef01234567";
  project_id = "acme--app";
  content_hash = "ab";
}

abbrev input : Input
input = record {
  result = result;
  snapshot = record {
    id = "acme--app--0123456789abcdef0123456789abcdef01234567";
    project_id = "acme--app";
    provider = "github";
    reference = sha;
    state_type = "commit";
    state_value = sha;
    commit_sha = some sha;
  };
  repository = record { owner = "Acme"; name = "app" };
  pull_request_number = some 7;
  check_results = none;
  expected_head_sha = none;
}

abbrev date_parse : String → Option Number
date_parse text = some (nat 12)

abbrev above : Number → Number → Bool
above m n = false

-- A run of the App with an older marker, and one of another App.
abbrev runs : Json
runs = object (
    (
      "check_runs",
      array (
          object (
            ("id", num (nat 5))
            ∷ ("name", str "VerifyAgent / verification")
            ∷ ("app", object (("id", num (nat 42)) ∷ []))
            ∷ ("external_id", str "verifyagent:v1:12:aa")
            ∷ [])
          ∷ object (
              ("id", num (nat 9))
              ∷ ("name", str "VerifyAgent / verification")
              ∷ ("app", object (("id", num (nat 43)) ∷ []))
              ∷ [])
          ∷ []),
    )
    ∷ [])

abbrev answer : Method → Json
answer get_method = runs
answer post_method = object (("id", num (nat 6)) ∷ [])
answer patch_method = object (("id", num (nat 5)) ∷ [])

abbrev github : Client ℕ
github = record {
  fetch = λ q n. (ok (record { status = 200; data_ = some (answer q.method) }), suc n);
  resolve_installation_id = λ owner name n. (ok 3, n);
  create_installation_token = λ id n. (ok "token", n);
}

abbrev world : World ℕ
world = record { remote = 0; sent = [] }

abbrev outcome : Result Error Publication × JsMap Freshness × World ℕ
unfolding publish
outcome = publish github above config date_parse input [] world

updated_run :
    outcome.0
    ≡ ok (record { check_run_id = nat 5; head_sha = sha; conclusion = success; created = false })
unfolding outcome verify_agent.Source.Publisher.Remote.◌>>=◌
updated_run = refl

abbrev prepared : Prepared
unfolding render_output
prepared = record {
  head_sha = sha;
  conclusion = success;
  output = render_output (record {
    result = result;
    snapshot = input.snapshot;
    repository = input.repository;
    pull_request_number = some 7;
    check_results = none;
  });
  freshness = record { created_at_ms = 12; content_hash = "ab" };
  key = "acme/app/0123456789abcdef0123456789abcdef01234567/VerifyAgent / verification";
}

prepared-input : prepare date_parse config input ≡ ok prepared
unfolding prepare
prepared-input = refl

sent_update :
    outcome.2.sent
    ≡ update_request config "token" input.repository (nat 5) prepared
      ∷ lookup_request config "token" input.repository sha
      ∷ []
unfolding outcome verify_agent.Source.Publisher.Remote.◌>>=◌
sent_update = refl

prepare-IsBound_example : IsBound input prepared
prepare-IsBound_example = prepare-IsBound date_parse config input prepared prepared-input

publish-IsWrite_example :
    In (update_request config "token" input.repository (nat 5) prepared) []
    ⊎ (patch_method ≡ get_method)
    ⊎ ((p : Prepared) × (prepare date_parse config input ≡ ok p)
        × IsWrite github above config input p []
            (update_request config "token" input.repository (nat 5) prepared))
unfolding outcome verify_agent.Source.Publisher.Remote.◌>>=◌
publish-IsWrite_example =
    publish-IsWrite github above config date_parse input [] world
      (update_request config "token" input.repository (nat 5) prepared) (inl refl)

publish-IsKept_example :
    (size (publish github above config date_parse input [] world).1 ≤ 2)
    × IsKept [] (publish github above config date_parse input [] world).1 "acme/app"
publish-IsKept_example =
    publish-IsKept github above config date_parse input [] world "acme/app" (omega arith)
      (omega arith)
