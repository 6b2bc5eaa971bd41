-- ===== src/Domain/Queue.antt =====
-- packages/domain/src/verification-queue.ts: the queue job and its validation, which reads an
-- `unknown` value. `read_queue_job` is the assertion with the job that it narrows the value to.
pub mod RoundTrip
use Prim.Native.String.{◌++◌ as concat}
use verify_agent.Prelude.{
  ℕ, String, Bool, true, false, not, List, [], ◌∷◌, ◌++◌, Option, none, some, Result, ok, throw,
  ◌>>=◌, ◌>>◌, ensure, ◌&&◌, ◌==◌, if◌then◌else◌, is_empty,
}
use verify_agent.Prelude.Text.{is_blank, is_identifier, codes}
use verify_agent.Json.{
  Json, Number, null, num, str, prop, is_object, as_string, as_positive, object, optional,
}
use verify_agent.Errors.{Error, domain_validation}
use verify_agent.Domain.Dates.{is_iso_date}

pub data CheckSelection : Type 0 where
  default all_applicable : CheckSelection

pub record SourceReference : Type 0 where
  pub id : String

pub record QueueTrigger : Type 0 where
  pub action : String
  pub pull_request_number : ℕ

pub record QueueJob : Type 0 where
  pub job_id : String
  pub source : SourceReference
  pub trigger : QueueTrigger
  pub delivery_id : String
  pub created_at : String
  pub selection : Option CheckSelection

abbrev fail {ℓ} : {A : Type ℓ} → String → Result Error A
fail message = throw (domain_validation message)

assert_identifier : Option Json → String → Result Error String
assert_identifier value name = identifier_of (as_string value)
  where
    identifier_of : Option String → Result Error String
    identifier_of none = fail (concat name " must be a non-empty string")
    identifier_of (some text) =
        if is_blank text
        then fail (concat name " must be a non-empty string")
        else (if is_identifier text
            then ok text
            else fail (concat name " is not a valid identifier"))

assert_iso_date : Option Json → String → Result Error String
assert_iso_date value name = date_of (as_string value)
  where
    date_of : Option String → Result Error String
    date_of none = fail (concat name " must be an ISO date-time with timezone")
    date_of (some text) =
        if is_iso_date text
        then ok text
        else fail (concat name " must be an ISO date-time with timezone")

-- `typeof value !== "string" || value.trim().length === 0`
assert_non_blank : Option Json → String → Result Error String
assert_non_blank value message = text_of (as_string value)
  where
    text_of : Option String → Result Error String
    text_of none = fail message
    text_of (some text) = if is_blank text then fail message else ok text

assert_kind : Option Json → String → String → Result Error (Unit {0})
assert_kind value kind message = kind_of (as_string value)
  where
    kind_of : Option String → Result Error (Unit {0})
    kind_of none = fail message
    kind_of (some text) = if text == kind then ok tt else fail message

assert_pull_request_number : Option Json → Result Error ℕ
assert_pull_request_number value = number_of (as_positive value)
  where
    number_of : Option ℕ → Result Error ℕ
    number_of none = fail "job trigger pullRequestNumber must be a positive integer"
    number_of (some n) = ok n

selection_of : String → Result Error (Option CheckSelection)
selection_of text =
    if text == "default"
    then ok (some default)
    else (if text == "all-applicable"
        then ok (some all_applicable)
        else fail "job selection must be default or all-applicable")

assert_selection : Option Json → Result Error (Option CheckSelection)
unfolding selection_of
assert_selection none = ok none
assert_selection (some (str text)) = selection_of text
assert_selection (some _) = fail "job selection must be default or all-applicable"

abbrev or_undefined : Option Json → Json
or_undefined none = null
or_undefined (some v) = v

unfoldable pub read_queue_job : Json → Result Error QueueJob
unfolding assert_identifier assert_iso_date assert_non_blank assert_kind assert_pull_request_number
    assert_selection
read_queue_job job = do
  ensure (is_object (some job)) (domain_validation "verification queue job must be an object")
  job_id ← assert_identifier (prop "jobId" job) "jobId"
  let source = prop "source" job
  ensure (is_object source) (domain_validation "job source must be an object")
  assert_kind (prop "kind" (or_undefined source)) "snapshot" "job source kind must be snapshot"
  source_id ←
      assert_non_blank (prop "id" (or_undefined source)) "job source id must be a non-empty string"
  let trigger = prop "trigger" job
  ensure (is_object trigger) (domain_validation "job trigger must be an object")
  assert_kind (prop "kind" (or_undefined trigger)) "pull-request"
      "job trigger kind must be pull-request"
  action ←
      assert_non_blank (prop "action" (or_undefined trigger))
        "job trigger action must be a non-empty string"
  number ← assert_pull_request_number (prop "pullRequestNumber" (or_undefined trigger))
  delivery_id ← assert_non_blank (prop "deliveryId" job) "deliveryId must be a non-empty string"
  created_at ← assert_iso_date (prop "createdAt" job) "createdAt"
  selection ← assert_selection (prop "selection" job)
  ok (record {
    job_id = job_id;
    source = record { id = source_id };
    trigger = record { action = action; pull_request_number = number };
    delivery_id = delivery_id;
    created_at = created_at;
    selection = selection;
  })

abbrev selection_json : Option CheckSelection → Option Json
selection_json none = none
selection_json (some default) = some (str "default")
selection_json (some all_applicable) = some (str "all-applicable")

-- The object literal of a job, as `JSON.stringify` and the validation see it.
unfoldable pub job_json : QueueJob → Json
job_json job = object (
    ("jobId", str job.job_id)
    ∷ ("source", object (("kind", str "snapshot") ∷ ("id", str job.source.id) ∷ []))
    ∷ (
      "trigger",
      object (
          ("kind", str "pull-request")
          ∷ ("action", str job.trigger.action)
          ∷ ("pullRequestNumber", num (Number.nat job.trigger.pull_request_number))
          ∷ []),
    )
    ∷ ("deliveryId", str job.delivery_id)
    ∷ ("createdAt", str job.created_at)
    ∷ optional "selection" (selection_json job.selection))

-- `createVerificationQueueJob`, and `validateVerificationQueueJob` with `freezeJob`: a job built
-- from typed input is validated, and the copy of it is frozen.
unfoldable pub create_queue_job : QueueJob → Result Error QueueJob
unfolding read_queue_job job_json
create_queue_job input = read_queue_job (job_json input)

-- `isValidVerificationQueueJobId` on a string
unfoldable pub is_valid_queue_job_id : String → Bool
is_valid_queue_job_id value = not (is_empty (codes value)) && is_identifier value
