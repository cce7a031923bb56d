-- ===== src/Store/Attempts/Prepare.antt =====
-- reviewer/state.py: the preparation of a review attempt, with the validation of its context.
use Prim.Native.String.{◌++◌ as text_append}
use dohwa_hermes_stack.Base.{
  ℕ, Bool, ◌&&◌, Option, none, some, List, [], ◌∷◌, ◌++◌, String, ◌==◌, ◌=t◌, opt_eq, sql_eq, any,
  find_row, Result, ok, err, key_error, value_error, runtime_error, integrity_error, require,
  refuse, ◌>>=◌, ◌>>◌, if◌then◌else◌,
}
use dohwa_hermes_stack.Models.{
  ReviewState, queued, reviewing, waiting_ci, ready_to_merge, ReviewJob, state_in,
}
use dohwa_hermes_stack.Approval.Checks.{is_hex}
use dohwa_hermes_stack.Approval.Status.{ReviewAttemptStatus}
use dohwa_hermes_stack.Store.Tables.{
  ReviewContextRow, ReviewAttempt, ReviewPublication, StateStore, not_sent, maybe_sent, is_open,
  ◌=p◌,
}
use dohwa_hermes_stack.Store.Ingest.{is_job}

abbrev status_index : ReviewAttemptStatus → ℕ
status_index ReviewAttemptStatus.prepared = 0
status_index ReviewAttemptStatus.active = 1
status_index ReviewAttemptStatus.invalidated = 2

infix 50 ◌=r◌
abbrev pub ◌=r◌ : ReviewAttemptStatus → ReviewAttemptStatus → Bool
a =r b = status_index a == status_index b

-- `_validate_review_job_context`.
abbrev pub reviewable_states : List ReviewState
reviewable_states = queued ∷ reviewing ∷ waiting_ci ∷ ready_to_merge ∷ []

unfoldable pub validate_review_job_context : ReviewJob → ReviewContextRow → Result (Unit {0})
validate_review_job_context job content = do
  require (state_in job.state reviewable_states) (runtime_error "review job is no longer active")
  require
      (opt_eq ◌==◌ job.repository_id (some content.repository_id)
        && (job.pull_number == content.pull_number
            && (opt_eq ◌=t◌ job.base_sha (some content.base_sha)
                && job.head_sha =t content.head_sha)))
      (runtime_error "review context no longer matches review job")

abbrev pub is_content : String → ReviewContextRow → Bool
is_content i c = c.content_id =t i

-- `raise KeyError` for a row that is not there.
abbrev pub must {ℓ} : {A : Type ℓ} → Option A → Result A
must none = err (key_error "unknown row")
must (some a) = ok a

-- A generic publication of the pull request that may have been sent.
unfoldable pub has_unresolved_review_publication : ℕ → ℕ → StateStore → Bool
has_unresolved_review_publication repository_id pull_number s =
    any
      (λ (p : ReviewPublication).
        p.publish_state =p maybe_sent
        && any
            (λ (j : ReviewJob).
              j.id == p.job_id
              && (sql_eq ◌==◌ j.repository_id (some repository_id) && j.pull_number == pull_number))
            s.jobs)
      s.publications

abbrev pub is_open_for : ℕ → ℕ → ReviewAttempt → Bool
is_open_for repository_id pull_number a =
    is_open a.status && (a.repository_id == repository_id && a.pull_number == pull_number)

abbrev pub is_unresolved_for : ℕ → ℕ → ReviewAttempt → Bool
is_unresolved_for repository_id pull_number a =
    a.publish_state =p maybe_sent
    && (a.repository_id == repository_id && a.pull_number == pull_number)

unfoldable pub new_attempt : ℕ → String → ℕ → ReviewContextRow → ReviewAttempt
new_attempt now attempt_id job_id content = record {
  review_attempt_id = attempt_id;
  review_context_id = text_append "dohwa-review-context-attempt/v1:" attempt_id;
  job_id = job_id;
  content_id = content.content_id;
  review_decision = "pass";
  repository_id = content.repository_id;
  pull_number = content.pull_number;
  status = ReviewAttemptStatus.prepared;
  publish_state = not_sent;
  publish_started_at = none;
  publish_confirmed_at = none;
  github_review_id = none;
  submitted_at = none;
  prepared_at = now;
  activated_at = none;
  invalidated_at = none;
  invalidation_reason = none;
}

-- The insertion of an attempt. The primary key and the index of open attempts of a job may refuse
-- it.
unfoldable pub insert_attempt : ReviewAttempt → StateStore → Result (ReviewAttempt × StateStore)
insert_attempt a s = do
  refuse (any (λ r. r.review_attempt_id =t a.review_attempt_id) s.attempts)
      (integrity_error "review_attempts.review_attempt_id")
  refuse (any (λ (r : ReviewAttempt). is_open r.status && r.job_id == a.job_id) s.attempts)
      (integrity_error "idx_review_attempts_open_job")
  ok (a, record s { attempts = s.attempts ++ a ∷ [] })

-- What is done with the open attempt of the pull request, if there is one.
unfoldable pub prepare_unless_open :
    ℕ
    → String
    → ℕ
    → ReviewContextRow
    → StateStore
    → Option ReviewAttempt
    → Result (ReviewAttempt × StateStore)
unfolding insert_attempt new_attempt
prepare_unless_open now attempt_id job_id content s (some a) =
    if a.job_id == job_id && a.content_id =t content.content_id
    then ok (a, s)
    else err (runtime_error "pull request already has an open review attempt")
prepare_unless_open now attempt_id job_id content s none = do
  refuse (any (is_unresolved_for content.repository_id content.pull_number) s.attempts)
      (runtime_error "pull request has an unresolved MAYBE_SENT review")
  insert_attempt (new_attempt now attempt_id job_id content) s

-- `attempt_id` is the fresh UUIDv7.
unfoldable pub prepare_review_attempt :
    ℕ → String → ℕ → String → String → StateStore → Result (ReviewAttempt × StateStore)
unfolding prepare_unless_open find_row has_unresolved_review_publication is_hex
    validate_review_job_context
prepare_review_attempt now attempt_id job_id content_id review_decision s = do
  require (is_hex 64 content_id) (value_error "content_id must be a lowercase SHA-256")
  require (review_decision =t "pass")
      (value_error "approval-capable review attempt requires a pass decision")
  job ← must (find_row (is_job job_id) s.jobs)
  content ← must (find_row (is_content content_id) s.contents)
  validate_review_job_context job content
  refuse (has_unresolved_review_publication content.repository_id content.pull_number s)
      (runtime_error "pull request has an unresolved generic MAYBE_SENT review")
  prepare_unless_open now attempt_id job_id content s
      (find_row (is_open_for content.repository_id content.pull_number) s.attempts)
