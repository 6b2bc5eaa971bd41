-- ===== src/Source/Publisher/Checks.antt =====
-- packages/adapters-source/src/github-checks.ts: `findExistingCheckRun`, `createCheckRun` and
-- `updateCheckRun`. `above` is `>` where a number is no integer, which `Number` keeps as text.
use Prim.Native.String.{◌++◌ as concat}
use verify_agent.Prelude.{
  ℕ, String, Bool, true, false, ◌&&◌, [], ◌∷◌, Option, none, some, Result, ok, throw, if◌then◌else◌,
  ◌==◌, ltb, nat_eq,
}
use verify_agent.Errors.{Error}
use verify_agent.Json.{
  Json, Number, nat, negative, non_integer, num, str, arr, null, Items, nil, cons, prop, object,
  as_string,
}
use verify_agent.Source.Rendering.{CheckOutput, CheckRepository, conclusion_text, number_text}
use verify_agent.Source.Freshness.{marker_text}
use verify_agent.Source.Publisher.{Config, Prepared}
use verify_agent.Source.Publisher.Remote.{
  Request, Response, Client, World, Action, pure, lift, ◌>>=◌, get_method, post_method,
  patch_method, encode_uri_component, require_ok, request_json, action_error,
}

-- The run that an update would change, with its `external_id`.
pub record FoundRun : Type 0 where
  pub id : Number
  pub external_id : Option Json

abbrev is_number : ℕ → Option Json → Bool
is_number n (some (num (nat m))) = nat_eq m n
is_number n _ = false

abbrev or_null : Option Json → Json
or_null none = null
or_null (some j) = j

-- `isVerifyAgentOwnedRun`. `prop` of a value that is no object has nothing.
unfoldable pub is_owned_run : ℕ → Json → Bool
is_owned_run app_id run = is_number app_id (prop "id" (or_null (prop "app" run)))

abbrev is_named : String → Option String → Bool
is_named name none = false
is_named name (some s) = s == name

abbrev candidate_of : Bool → Option Json → Option Json → Option FoundRun
candidate_of true (some (num id)) external = some (record { id = id; external_id = external })
candidate_of true _ external = none
candidate_of false id external = none

-- The guards of the loop over the runs.
unfoldable pub candidate : Config → Json → Option FoundRun
unfolding is_owned_run
candidate config run =
    candidate_of
      (is_named config.check_name (as_string (prop "name" run)) && is_owned_run config.app_id run)
      (prop "id" run) (prop "external_id" run)

module _ (above : Number → Number → Bool) where
  unfoldable pub exceeds : Number → Number → Bool
  exceeds (nat m) (nat n) = ltb n m
  exceeds (nat m) (negative n) = true
  exceeds (negative m) (nat n) = false
  exceeds (negative m) (negative n) = ltb m n
  exceeds (non_integer s) n = above (non_integer s) n
  exceeds m (non_integer s) = above m (non_integer s)

  abbrev newer_run : Option FoundRun → Option FoundRun → Option FoundRun
  unfolding exceeds
  newer_run none latest = latest
  newer_run (some run) none = some run
  newer_run (some run) (some latest) = if exceeds run.id latest.id then some run else some latest

  unfoldable pub latest_run : Config → Items → Option FoundRun → Option FoundRun
  unfolding newer_run candidate
  latest_run config nil latest = latest
  latest_run config (cons run runs) latest =
      latest_run config runs (newer_run (candidate config run) latest)

  abbrev pub found_in : Config → Option Json → Option FoundRun
  unfolding latest_run
  found_in config (some (arr runs)) = latest_run config runs none
  found_in config _ = none

abbrev repository_url : Config → CheckRepository → String
unfolding encode_uri_component
repository_url config repository = concat config.api_base_url (
    concat "/repos/" (
      concat (encode_uri_component repository.owner)
        (concat "/" (encode_uri_component repository.name))))

unfoldable pub lookup_request : Config → String → CheckRepository → String → Request
unfolding repository_url
lookup_request config token repository head_sha = record {
  token = token;
  method = get_method;
  url = concat (repository_url config repository) (
      concat "/commits/" (
        concat (encode_uri_component head_sha) (
          concat "/check-runs?check_name="
            (concat (encode_uri_component config.check_name) "&per_page=100"))));
  body = none;
}

abbrev output_json : CheckOutput → Json
output_json output =
    object (
      ("title", str output.title)
      ∷ ("summary", str output.summary)
      ∷ ("text", str output.text)
      ∷ [])

unfoldable pub create_request : Config → String → CheckRepository → Prepared → Request
unfolding repository_url marker_text
create_request config token repository p = record {
  token = token;
  method = post_method;
  url = concat (repository_url config repository) "/check-runs";
  body = some (
      object (
        ("name", str config.check_name)
        ∷ ("head_sha", str p.head_sha)
        ∷ ("status", str "completed")
        ∷ ("conclusion", str (conclusion_text p.conclusion))
        ∷ ("external_id", str (marker_text p.freshness))
        ∷ ("output", output_json p.output)
        ∷ []));
}

unfoldable pub update_request : Config → String → CheckRepository → Number → Prepared → Request
unfolding repository_url marker_text
update_request config token repository id p = record {
  token = token;
  method = patch_method;
  url =
      concat (repository_url config repository)
        (concat "/check-runs/" (encode_uri_component (number_text id)));
  body = some (
      object (
        ("conclusion", str (conclusion_text p.conclusion))
        ∷ ("external_id", str (marker_text p.freshness))
        ∷ ("output", output_json p.output)
        ∷ []));
}

abbrev pub property : String → Option Json → Option Json
property key data_ = prop key (or_null data_)

abbrev pub returned_id : String → Option Json → Result Error Number
returned_id action (some (num id)) = ok id
returned_id action _ = throw (action_error action " returned an invalid response")

-- A removed run, with status 404, is no error of an update.
unfoldable pub updated : Response → Result Error (Option Number)
unfolding require_ok
updated response =
    if nat_eq response.status 404 then ok none else with_id (require_ok "update" response)
  where
    some_id : Result Error Number → Result Error (Option Number)
    some_id (ok id) = ok (some id)
    some_id (throw e) = throw e

    with_id : Result Error (Option Json) → Result Error (Option Number)
    with_id (ok data_) = some_id (returned_id "update" (property "id" data_))
    with_id (throw e) = throw e

module _ {R : Type 0} (client : Client R) where
  unfoldable pub create_check_run :
      Config → String → CheckRepository → Prepared → Action (World R) Number
  unfolding request_json create_request require_ok
  create_check_run config token repository p =
      request_json client (create_request config token repository p) >>= λ response.
      lift (require_ok "creation" response) >>= λ data_.
      lift (returned_id "creation" (property "id" data_))

  unfoldable pub update_check_run :
      Config → String → CheckRepository → Number → Prepared → Action (World R) (Option Number)
  unfolding request_json update_request updated
  update_check_run config token repository id p =
      request_json client (update_request config token repository id p) >>= λ response.
      lift (updated response)

  unfoldable pub find_existing_check_run :
      (Number → Number → Bool)
      → Config
      → String
      → CheckRepository
      → String
      → Action (World R) (Option FoundRun)
  unfolding request_json lookup_request require_ok found_in
  find_existing_check_run above config token repository head_sha =
      request_json client (lookup_request config token repository head_sha) >>= λ response.
      lift (require_ok "lookup" response) >>= λ data_.
      pure (found_in above config (property "check_runs" data_))
