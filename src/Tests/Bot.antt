-- ===== src/Tests/Bot.antt =====
-- Runs of apps/github-bot.
use verify_agent.Prelude.{
  ℕ, suc, ◌+◌, ◌≤◌, String, Bool, true, false, List, [], ◌∷◌, ◌++◌, Option, none, some, Result, ok,
  throw, ◌≡◌, refl, arith, includes, leb, inl, inr, ◌⊎◌, if◌then◌else◌, ◌==◌,
}
use verify_agent.Errors.{Error}
use verify_agent.Json.{Json, nat, num, str, object}
use verify_agent.Domain.Queue.{QueueJob}
use verify_agent.Bot.Replay.{reserve, commit, rollback, reserved, until}
use verify_agent.Bot.Replay.Held as Held
use verify_agent.Bot.Replay.Held.{IsReserved}
use verify_agent.Bot.Replay.Exclusion.{reserve-once, reserve-after}
use verify_agent.Bot.Decision.{GitHubPullRequestEvent}
use verify_agent.Bot.Orchestrator.{Orchestration, enqueued, handle}
use verify_agent.Bot.Orchestrator.Enqueuing.{IsEnqueued, handle-IsEnqueued}
use verify_agent.Bot.Webhook.{
  WebhookRequest, Server, accepted, unsupported, delivery_of, handle_request,
}
use verify_agent.Bot.Webhook.Arrivals.{Arrival, run}
use verify_agent.Bot.Webhook.Responses.{IsAccepted, handle_request-IsAccepted}
use verify_agent.Bot.Webhook.Refusals.{IsRefused, handle_request-cases, handle_request-once}
use verify_agent.Tests.Samples.{digest, today, job_with}
use Prim.Native.String.{◌++◌ as concat}

abbrev calls : List Held.Call
calls = Held.reserving 5 "d-1" ∷ Held.reserving 6 "d-2" ∷ Held.committing 7 "d-2" ∷ []

first_reserve : reserve 10 600 1 "d-1" [] ≡ (true, ("d-1", reserved) ∷ [])
unfolding reserve
first_reserve = refl

reserve-once_example : includes (Held.run 10 600 calls (("d-1", reserved) ∷ [])) "d-1" ≡ false
reserve-once_example =
    reserve-once 10 600 1 "d-1" [] (("d-1", reserved) ∷ []) calls tt first_reserve (omega arith)
      refl

d1-IsReserved : IsReserved "d-1" (("d-1", reserved) ∷ [])
unfolding verify_agent.JsMap.get
d1-IsReserved = record { held = refl; once = (refl, tt) }

reserve-after_example :
    ((reserve 10 600 700 "d-1" (commit 10 600 1 "d-1" (("d-1", reserved) ∷ []))).0 ≡ leb 601 700)
    × ((reserve 10 600 700 "d-1" (rollback "d-1" (("d-1", reserved) ∷ []))).0 ≡ true)
reserve-after_example =
    reserve-after 10 600 1 700 "d-1" (("d-1", reserved) ∷ []) d1-IsReserved (omega arith)

abbrev head_sha : String
head_sha = "0123456789ABCDEF0123456789abcdef01234567"

abbrev base_sha : String
base_sha = "89abcdef0123456789abcdef0123456789abcdef"

abbrev push_job : QueueJob → List QueueJob → Result Error (List QueueJob)
push_job job jobs = ok (jobs ++ job ∷ [])

abbrev event : GitHubPullRequestEvent
event = record {
  action = "opened";
  owner = "acme";
  name = "app";
  number = 7;
  base_sha = base_sha;
  head_sha = head_sha;
}

abbrev queued_job : QueueJob
queued_job = record (job_with "job-1" today) {
  source = record { id = "acme:app:0123456789abcdef0123456789abcdef01234567" };
}

handle-IsEnqueued_example :
    IsEnqueued event " delivery-1 " "job-1" today queued_job
    × (push_job queued_job [] ≡ ok (queued_job ∷ []))
unfolding handle verify_agent.Prelude.Text.is_identifier verify_agent.Domain.Dates.is_iso_date
handle-IsEnqueued_example =
    handle-IsEnqueued push_job "job-1" today event " delivery-1 " [] (queued_job ∷ []) queued_job
      refl

abbrev parse_body : String → Option Json
parse_body text = some (
    object (
      ("action", str "opened")
      ∷ ("repository", object (("owner", str "acme") ∷ ("name", str "app") ∷ []))
      ∷ (
        "pull_request",
        object (
            ("number", num (nat 7))
            ∷ ("base", object (("sha", str base_sha) ∷ []))
            ∷ ("head", object (("sha", str head_sha) ∷ []))
            ∷ []),
      )
      ∷ []))

abbrev hmac : String → String → String
hmac secret body = digest

abbrev byte_length : String → ℕ
byte_length body = 2

abbrev request : WebhookRequest
request = record {
  signature = some (concat "sha256=" digest);
  event = some "pull_request";
  delivery = some "delivery-1";
  body = "{}";
}

abbrev before : Server (List QueueJob)
before = record { guard = []; queue = [] }

abbrev after : Server (List QueueJob)
after = record { guard = ("delivery-1", until 601) ∷ []; queue = queued_job ∷ [] }

handled :
    handle_request hmac parse_body byte_length "secret" 1048576 10 600 1 push_job "job-1" today
      request before
    ≡ (accepted (enqueued queued_job), after)
unfolding handle_request verify_agent.Prelude.Text.is_identifier
    verify_agent.Domain.Dates.is_iso_date
handled = refl

handle_request-IsAccepted_example :
    IsAccepted hmac parse_body byte_length "secret" 1048576 10 600 1 push_job "job-1" today request
      before after
      (enqueued queued_job)
handle_request-IsAccepted_example =
    handle_request-IsAccepted hmac parse_body byte_length "secret" 1048576 10 600 1 push_job "job-1"
      today request before after (enqueued queued_job) handled

-- The delivery again, and another one.
abbrev arrivals : List Arrival
arrivals =
    record { time = 300; new_job_id = "job-2"; created = today; request = request }
    ∷ record {
      time = 400;
      new_job_id = "job-3";
      created = today;
      request = record request { delivery = some "delivery-2" };
    }
    ∷ []

abbrev later : Server (List QueueJob)
unfolding run
later = run hmac parse_body byte_length "secret" 1048576 10 600 push_job arrivals after

handle_request-once_example :
    (handle_request hmac parse_body byte_length "secret" 1048576 10 600 600 push_job "job-4" today
      request later).1.queue
    ≡ later.queue
unfolding later
handle_request-once_example =
    handle_request-once hmac parse_body byte_length "secret" 1048576 10 600 push_job 1 600 "job-1"
      today "job-4" today request request before after (enqueued queued_job) arrivals tt handled
      refl (omega arith) (omega arith, (omega arith, tt)) (omega arith)

-- A signed request for another event is reserved, and its processing throws.
abbrev pushed : WebhookRequest
pushed = record request { event = some "push" }

handle_request-cases_example :
    ((o : Orchestration) × ((handle_request hmac parse_body byte_length "secret" 1048576 10 600 1
          push_job "job-1" today pushed before).0
        ≡ accepted o))
    ⊎ IsRefused hmac parse_body byte_length "secret" 1048576 10 600 push_job 1 "job-1" today pushed
        before
        (handle_request hmac parse_body byte_length "secret" 1048576 10 600 1 push_job "job-1" today
          pushed before)
handle_request-cases_example =
    handle_request-cases hmac parse_body byte_length "secret" 1048576 10 600 push_job 1 "job-1"
      today pushed before

pushed-reserved :
    (reserve 10 600 1 (delivery_of hmac parse_body byte_length "secret" 1048576 pushed) []).0 ≡ true
unfolding reserve delivery_of
pushed-reserved = refl

pushed_answer :
    handle_request hmac parse_body byte_length "secret" 1048576 10 600 1 push_job "job-1" today
      pushed before
    ≡ (unsupported "unsupported event: push", before)
unfolding handle_request
pushed_answer = refl
