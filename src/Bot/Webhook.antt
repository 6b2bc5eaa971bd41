-- ===== src/Bot/Webhook.antt =====
-- apps/github-bot/src/webhook.ts: the signature, the payload and the HTTP handler. The HMAC in lower
-- hexadecimal digits, `JSON.parse` and the number of bytes of a body are parameters.
pub mod Responses
pub mod Arrivals
pub mod Refusals
use Prim.Native.String.{◌++◌ as concat}
use verify_agent.Prelude.{
  ℕ, zero, suc, String, Bool, true, false, not, ◌&&◌, ◌||◌, List, [], ◌∷◌, Option, none, some,
  Result, ok, throw, ◌>>=◌, ◌>>◌, ensure, reject_if, if◌then◌else◌, is_empty, nat_eq, ltb, ◌==◌,
  or_else,
}
use verify_agent.Prelude.Text.{codes, is_blank, is_hex_of, trim, lower, after_prefix, js_length}
use verify_agent.Json.{Json, prop, is_object, as_string, as_positive}
use verify_agent.Errors.{
  Error, plain, domain_validation, invalid_source_reference, authentication, payload,
  unsupported_event, replay, configuration, runtime, publication, stale_result, pipeline,
}
use verify_agent.Domain.Queue.{QueueJob}
use verify_agent.Bot.Decision.{GitHubPullRequestEvent}
use verify_agent.Bot.Orchestrator.{Orchestration, ignored, enqueued, handle}
use verify_agent.Bot.Replay.{Guard, reserve, commit, rollback}

abbrev pub or_blank : Option String → String
or_blank none = ""
or_blank (some text) = text

unfoldable pub hex_of : Option String → Result Error String
unfolding is_hex_of js_length
hex_of none = throw (authentication "unsupported webhook signature algorithm")
hex_of (some hex) =
    if nat_eq (js_length hex) 64 && is_hex_of 64 hex
    then ok hex
    else throw (authentication "malformed webhook signature")

-- A header that is missing is blank here, as it is refused like one.
unfoldable pub verify_signature :
    (String → String → String) → String → Option String → String → Result Error (Unit {0})
unfolding is_blank trim after_prefix hex_of lower
verify_signature hmac secret header body = do
  reject_if (is_blank secret) (authentication "webhook secret not configured")
  reject_if (is_blank (or_blank header)) (authentication "missing webhook signature")
  hex ← hex_of (after_prefix "sha256=" (trim (or_blank header)))
  ensure (hmac secret body == lower hex) (authentication "webhook signature mismatch")

abbrev some_text : Option String → String → Result Error String
unfolding is_blank
some_text none message = throw (payload message)
some_text (some text) message = if is_blank text then throw (payload message) else ok text

abbrev some_number : Option ℕ → Result Error ℕ
some_number none = throw (payload "missing pull request number")
some_number (some n) = ok n

abbrev or_null : Option Json → Json
or_null none = Json.null
or_null (some v) = v

-- The owner is a text, or an object with a text as its login.
abbrev owner_of : Option Json → Option String
owner_of (some (Json.str text)) = some text
owner_of (some (Json.obj fields)) = as_string (prop "login" (Json.obj fields))
owner_of _ = none

unfoldable pub map_payload_to_event : Json → Result Error GitHubPullRequestEvent
unfolding some_text
map_payload_to_event value = do
  ensure (is_object (some value)) (payload "webhook payload must be an object")
  action ← some_text (as_string (prop "action" value)) "missing pull request action"
  let repository = prop "repository" value
  ensure (is_object repository) (payload "missing repository")
  owner ← some_text (owner_of (prop "owner" (or_null repository))) "missing repository owner"
  name ← some_text (as_string (prop "name" (or_null repository))) "missing repository name"
  let request = prop "pull_request" value
  ensure (is_object request) (payload "missing pull_request")
  number ← some_number (as_positive (prop "number" (or_null request)))
  let base = prop "base" (or_null request)
  ensure (is_object base) (payload "missing pull request base")
  base_sha ← some_text (as_string (prop "sha" (or_null base))) "missing pull request base sha"
  let head = prop "head" (or_null request)
  ensure (is_object head) (payload "missing pull request head")
  head_sha ← some_text (as_string (prop "sha" (or_null head))) "missing pull request head sha"
  ok (record {
    action = action;
    owner = owner;
    name = name;
    number = number;
    base_sha = base_sha;
    head_sha = head_sha;
  })

abbrev parsed : Option Json → Result Error Json
parsed none = throw (payload "webhook payload is not valid JSON")
parsed (some value) = ok value

unfoldable pub parse_authenticated_event :
    (String → Option Json) → String → String → Result Error GitHubPullRequestEvent
unfolding map_payload_to_event
parse_authenticated_event parse_json event_name body = do
  ensure (event_name == "pull_request")
      (unsupported_event (concat "unsupported event: " event_name))
  value ← parsed (parse_json body)
  map_payload_to_event value

-- A request whose headers occur at most once each and whose body arrived within the bound of
-- `collectRawBody`.
pub record WebhookRequest : Type 0 where
  pub signature : Option String
  pub event : Option String
  pub delivery : Option String
  pub body : String

-- The status of the response and what its body says.
pub data Response : Type 0 where
  accepted : Orchestration → Response
  unauthorized replay_detected payload_too_large bad_request internal_error : Response
  unsupported : String → Response

unfoldable pub status : Response → ℕ
status (accepted o) = 202
status (unsupported reason) = 202
status unauthorized = 401
status replay_detected = 409
status payload_too_large = 413
status bad_request = 400
status internal_error = 500

-- The outer `catch`. Of the messages, only that of an oversized body contains "exceeds".
abbrev pub too_large : String
too_large = "webhook payload exceeds the limit"

unfoldable pub respond_error : Error → Response
respond_error (authentication m) = unauthorized
respond_error (replay m) = replay_detected
respond_error (unsupported_event m) = unsupported m
respond_error (payload m) = if m == too_large then payload_too_large else bad_request
respond_error (plain m) = internal_error
respond_error (domain_validation m) = internal_error
respond_error (invalid_source_reference m) = internal_error
respond_error (configuration m) = internal_error
respond_error (runtime m) = internal_error
respond_error (publication m) = internal_error
respond_error (stale_result m) = internal_error
respond_error (pipeline code m) = internal_error

pub record Server (Q : Type 0) : Type 0 where
  pub guard : Guard
  pub queue : Q

module _ (hmac : String → String → String) (parse_json : String → Option Json)
    (byte_length : String → ℕ) (secret : String) (max_bytes : ℕ) where
  -- The guards before the delivery is reserved.
  unfoldable pub authenticate : WebhookRequest → Result Error (Unit {0})
  unfolding verify_signature is_blank
  authenticate r = do
    reject_if (ltb max_bytes (byte_length r.body)) (payload too_large)
    reject_if (is_blank (or_blank r.delivery)) (replay "missing X-GitHub-Delivery")
    reject_if (is_blank (or_blank r.event)) (unsupported_event "missing X-GitHub-Event")
    verify_signature hmac secret r.signature r.body

  unfoldable pub delivery_of : WebhookRequest → String
  unfolding trim
  delivery_of r = trim (or_blank r.delivery)

  module _ {Q : Type 0} (max_entries ttl now : ℕ) (enqueue : QueueJob → Q → Result Error Q)
      (new_job_id created : String) where
    -- The body of the inner `try`.
    unfoldable pub process : WebhookRequest → Q → Result Error (Orchestration × Q)
    unfolding parse_authenticated_event handle trim delivery_of
    process r q = do
      event ← parse_authenticated_event parse_json (trim (or_blank r.event)) r.body
      handle enqueue new_job_id created event (delivery_of r) q

    -- After the reservation: a success commits it, an error rolls it back.
    unfoldable pub finish :
        WebhookRequest → Guard → Q → Result Error (Orchestration × Q) → Response × Server Q
    unfolding commit rollback respond_error delivery_of
    finish r guard q (ok (orchestration, next)) = (
      accepted orchestration,
      record { guard = commit max_entries ttl now (delivery_of r) guard; queue = next },
    )
    finish r guard q (throw e) =
        (respond_error e, record { guard = rollback (delivery_of r) guard; queue = q })

    unfoldable pub admit : WebhookRequest → Q → Bool × Guard → Response × Server Q
    unfolding finish process
    admit r q (false, guard) = (replay_detected, record { guard = guard; queue = q })
    admit r q (true, guard) = finish r guard q (process r q)

    unfoldable pub checked :
        WebhookRequest → Server Q → Result Error (Unit {0}) → Response × Server Q
    unfolding admit reserve respond_error delivery_of
    checked r s (throw e) = (respond_error e, s)
    checked r s (ok u) = admit r s.queue (reserve max_entries ttl now (delivery_of r) s.guard)

    -- The handler with an orchestrator and a replay guard, as the bot composes it.
    unfoldable pub handle_request : WebhookRequest → Server Q → Response × Server Q
    unfolding authenticate checked
    handle_request r s = checked r s (authenticate r)
