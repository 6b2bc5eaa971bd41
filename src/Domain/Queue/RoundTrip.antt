-- ===== src/Domain/Queue/RoundTrip.antt =====
-- What the validation of a queue job lets through, and reading back what was written.
use Prim.Native.Char.{code}
use mathlib.Core.Path.{subst}
use verify_agent.Prelude.{
  ℕ, ◌<◌, String, true, false, Option, some, ok, ◌≡◌, arith, ◌↔◌, returns, ok-injective, ensure,
}
use verify_agent.Prelude.Text.{is_blank, is_identifier, is_alnum, is_space}
use verify_agent.Json.{Json, str, as_positive, prop, is_object}
use verify_agent.Errors.{domain_validation}
use verify_agent.Domain.Dates.{is_iso_date}
use verify_agent.Domain.Queue.{
  QueueJob, assert_identifier, assert_iso_date, assert_non_blank, assert_kind,
  assert_pull_request_number, assert_selection, read_queue_job, job_json, create_queue_job,
  or_undefined,
}

pub record IsValidJob (job : QueueJob) : Type 0 where
  pub named : is_identifier job.job_id ≡ true
  pub sourced : is_blank job.source.id ≡ false
  pub acted : is_blank job.trigger.action ≡ false
  pub numbered : 0 < job.trigger.pull_request_number
  pub delivered : is_blank job.delivery_id ≡ false
  pub dated : is_iso_date job.created_at ≡ true

assert_identifier-ok :
    (v : Option Json) (name : String) (s : String)
    → assert_identifier v name ≡ ok s
    → is_identifier s ≡ true
unfolding assert_identifier
assert_identifier-ok v name s h = ground arith

assert_iso_date-ok :
    (v : Option Json) (name : String) (s : String)
    → assert_iso_date v name ≡ ok s
    → is_iso_date s ≡ true
unfolding assert_iso_date
assert_iso_date-ok v name s h = ground arith

assert_non_blank-ok :
    (v : Option Json) (message : String) (s : String)
    → assert_non_blank v message ≡ ok s
    → is_blank s ≡ false
unfolding assert_non_blank
assert_non_blank-ok v message s h = ground arith

as_positive-pos : (v : Option Json) (n : ℕ) → as_positive v ≡ some n → 0 < n
as_positive-pos v n h = ground arith

assert_pull_request_number-ok :
    (v : Option Json) (n : ℕ) → assert_pull_request_number v ≡ ok n → 0 < n
unfolding assert_pull_request_number
assert_pull_request_number-ok v n h = ground (arith, as_positive-pos v n)

-- Whatever the value, a job that the validation reads from it is valid.
pub read_queue_job-IsValidJob :
    (j : Json) (job : QueueJob) → read_queue_job j ≡ ok job → IsValidJob job
unfolding read_queue_job
read_queue_job-IsValidJob j job h =
    let source = or_undefined (prop "source" j) in
    let trigger = or_undefined (prop "trigger" j) in
    returns
      (ensure (is_object (some j)) (domain_validation "verification queue job must be an object")) _
      h
      λ _ _ h1. returns (assert_identifier (prop "jobId" j) "jobId") _ h1 λ job_id e1 h2.
        returns
          (ensure (is_object (prop "source" j)) (domain_validation "job source must be an object"))
          _ h2
          λ _ _ h3.
            returns (assert_kind (prop "kind" source) "snapshot" "job source kind must be snapshot")
              _ h3
              λ _ _ h4.
                returns
                  (assert_non_blank (prop "id" source) "job source id must be a non-empty string") _
                  h4
                  λ source_id e2 h5.
                    returns
                      (ensure (is_object (prop "trigger" j))
                        (domain_validation "job trigger must be an object"))
                      _ h5
                      λ _ _ h6.
                        returns
                          (assert_kind (prop "kind" trigger) "pull-request"
                            "job trigger kind must be pull-request")
                          _ h6
                          λ _ _ h7.
                            returns
                              (assert_non_blank (prop "action" trigger)
                                "job trigger action must be a non-empty string")
                              _ h7
                              λ action e3 h8.
                                returns
                                  (assert_pull_request_number (prop "pullRequestNumber" trigger)) _
                                  h8
                                  λ number e4 h9.
                                    returns
                                      (assert_non_blank (prop "deliveryId" j)
                                        "deliveryId must be a non-empty string")
                                      _ h9
                                      λ delivery e5 h10.
                                        returns (assert_iso_date (prop "createdAt" j) "createdAt") _
                                          h10
                                          λ created e6 h11.
                                            returns (assert_selection (prop "selection" j)) _ h11
                                              λ selection _ h12.
                                                subst IsValidJob (ok-injective h12) (record {
                                                  named = assert_identifier-ok _ "jobId" job_id e1;
                                                  sourced = assert_non_blank-ok _ _ source_id e2;
                                                  acted = assert_non_blank-ok _ _ action e3;
                                                  numbered =
                                                      assert_pull_request_number-ok _ number e4;
                                                  delivered = assert_non_blank-ok _ _ delivery e5;
                                                  dated =
                                                      assert_iso_date-ok _ "createdAt" created e6;
                                                })

not_space : (c : ℕ) → is_alnum c ≡ true → is_space c ≡ false
unfolding is_space
not_space c h = ground arith

is_identifier-not_blank : (s : String) → is_identifier s ≡ true → is_blank s ≡ false
unfolding is_identifier is_blank
is_identifier-not_blank String.[] h = ground arith
is_identifier-not_blank (String.◌∷◌ c s) h = ground (arith, not_space (code c))

assert_identifier_of :
    (name s : String) → is_identifier s ≡ true → assert_identifier (some (str s)) name ≡ ok s
unfolding assert_identifier
assert_identifier_of name s h = rw (is_identifier-not_blank s h, h)

-- A valid job is read back from the object that is written for it.
pub read_queue_job-job_json :
    (job : QueueJob) → IsValidJob job → read_queue_job (job_json job) ≡ ok job
unfolding read_queue_job job_json
read_queue_job-job_json job v = grind (arith, is_identifier-not_blank)

-- What is read from the object written for a job is that job.
read_queue_job-job_json_eq :
    (input job : QueueJob) → read_queue_job (job_json input) ≡ ok job → job ≡ input
unfolding read_queue_job job_json
read_queue_job-job_json_eq input job h = ground arith

-- `createVerificationQueueJob` returns its input exactly if it is valid.
pub create_queue_job-eq-ok_iff :
    (input job : QueueJob) → (create_queue_job input ≡ ok job) ↔ (IsValidJob input × (job ≡ input))
unfolding create_queue_job
create_queue_job-eq-ok_iff input job = (to, from)
  where
    to : read_queue_job (job_json input) ≡ ok job → IsValidJob input × (job ≡ input)
    to h =
        let e = read_queue_job-job_json_eq input job h in
        (subst IsValidJob e (read_queue_job-IsValidJob (job_json input) job h), e)

    from : IsValidJob input × (job ≡ input) → read_queue_job (job_json input) ≡ ok job
    from (v, e) = rw e (read_queue_job-job_json input v)
