-- ===== src/Store/Attempts.antt =====
-- reviewer/state.py: the life of a review attempt, from its preparation over the publication of its
-- review on GitHub to its activation or invalidation. `is_github_timestamp` stands for the round
-- trip of a text through the standard library's `strptime` and `strftime`.
pub mod Prepare
pub mod Keeps
pub mod Publishing
use Prim.Native.String.{◌++◌ as text_append}
use dohwa_hermes_stack.Base.{
  ℕ, ◌≡◌, Bool, true, false, not, ◌&&◌, ◌||◌, Option, none, some, List, [], ◌∷◌, ◌++◌, String, ◌==◌,
  ◌=t◌, opt_eq, sql_eq, is_none, any, find_row, update_rows, count_rows, Result, ok, err, key_error,
  value_error, runtime_error, integrity_error, overflow_error, ltb, require, refuse, ◌>>=◌, ◌>>◌,
  if◌then◌else◌, Value, int, pos,
}
use dohwa_hermes_stack.Models.{
  ReviewState, queued, reviewing, waiting_ci, ready_to_merge, ReviewJob, state_in,
}
use dohwa_hermes_stack.Approval.Checks.{is_hex, max_int64}
use dohwa_hermes_stack.Approval.Status.{ReviewAttemptStatus}
use dohwa_hermes_stack.Store.Tables.{
  ReviewContextRow, ReviewAttempt, ReviewPublication, PublishState, StateStore, not_sent,
  maybe_sent, confirmed, is_open, ◌=p◌,
}
use dohwa_hermes_stack.Store.Ingest.{is_job}
use dohwa_hermes_stack.Store.Attempts.Prepare.{
  has_unresolved_review_publication, insert_attempt, is_content, is_open_for, is_unresolved_for,
  must, new_attempt, prepare_review_attempt, prepare_unless_open, reviewable_states,
  validate_review_job_context, ◌=r◌,
}

abbrev pub is_context : String → ReviewAttempt → Bool
is_context i a = a.review_context_id =t i

-- `raise RuntimeError` for a row that is not there.
abbrev pub must_have {ℓ} : {A : Type ℓ} → Option A → Result A
must_have none = err (runtime_error "review attempt dependencies are missing")
must_have (some a) = ok a

unfoldable pub get_review_attempt : String → StateStore → Option ReviewAttempt
unfolding find_row
get_review_attempt i s = find_row (is_context i) s.attempts

unfoldable pub get_review_attempt_publish_state : String → StateStore → Result PublishState
unfolding find_row
get_review_attempt_publish_state i s = do
  a ← must (find_row (is_context i) s.attempts)
  ok a.publish_state

-- An update that must meet one row, or the message's error is raised.
unfoldable pub update_attempt :
    (ReviewAttempt → Bool)
    → (ReviewAttempt → ReviewAttempt)
    → String
    → StateStore
    → Result StateStore
unfolding update_rows count_rows
update_attempt p f message s = do
  require (count_rows p s.attempts == 1) (runtime_error message)
  ok (record s { attempts = update_rows p f s.attempts })

abbrev pub sending : ℕ → ReviewAttempt → ReviewAttempt
sending now a = record a { publish_state = maybe_sent; publish_started_at = some now }

abbrev pub is_unsent : String → ReviewAttempt → Bool
is_unsent i a =
    is_context i a && (a.status =r ReviewAttemptStatus.prepared && a.publish_state =p not_sent)

unfoldable pub mark_review_attempt_publish_maybe_sent : ℕ → String → StateStore → Result StateStore
unfolding update_attempt find_row
mark_review_attempt_publish_maybe_sent now i s = do
  a ← must (find_row (is_context i) s.attempts)
  require (a.status =r ReviewAttemptStatus.prepared)
      (runtime_error "only a prepared review attempt can be published")
  require (a.publish_state =p not_sent)
      (runtime_error "review publish may already have been sent; reconcile marker instead")
  update_attempt (is_unsent i) (sending now) "review publish state CAS failed" s

abbrev pub activating : ℕ → ℕ → String → ReviewAttempt → ReviewAttempt
activating now review submitted_at a = record a {
  status = ReviewAttemptStatus.active;
  publish_state = confirmed;
  publish_confirmed_at = some now;
  github_review_id = some review;
  submitted_at = some submitted_at;
  activated_at = some now;
}

abbrev pub is_unconfirmed : String → ReviewAttempt → Bool
is_unconfirmed i a =
    is_context i a && (a.status =r ReviewAttemptStatus.prepared && a.publish_state =p maybe_sent)

-- The index of GitHub reviews refuses a review that another attempt of the repository has.
abbrev pub has_review : ℕ → ℕ → String → ReviewAttempt → Bool
has_review repository_id review i a =
    not (is_context i a)
    && (a.repository_id == repository_id && sql_eq ◌==◌ a.github_review_id (some review))

-- What is done with the attempt that is to be activated, after its context is validated.
unfoldable pub activate_row : ℕ → ℕ → String → ReviewAttempt → StateStore → Result StateStore
unfolding update_attempt
activate_row now review submitted_at a s =
    if a.status =r ReviewAttemptStatus.active
    then require
        (opt_eq ◌==◌ a.github_review_id (some review)
          && opt_eq ◌=t◌ a.submitted_at (some submitted_at))
        (runtime_error "active review attempt is bound to another review")
      >> ok s
    else do
      require (a.status =r ReviewAttemptStatus.prepared)
          (runtime_error "review attempt is terminal")
      require (a.publish_state =p maybe_sent)
          (runtime_error "review publish must be MAYBE_SENT before confirmation")
      refuse (ltb max_int64 review) overflow_error
      refuse (any (has_review a.repository_id review a.review_context_id) s.attempts)
          (integrity_error "idx_review_attempts_github_review")
      update_attempt (is_unconfirmed a.review_context_id) (activating now review submitted_at)
          "review attempt activation CAS failed" s

-- `isinstance(value, int) and value > 0`, without the Booleans.
abbrev pub positive_id : Value → Result ℕ
positive_id (int (pos n)) =
    if n == 0 then err (value_error "github_review_id must be a positive integer") else ok n
positive_id _ = err (value_error "github_review_id must be a positive integer")

module _ (is_github_timestamp : String → Bool) where
  unfoldable pub activate_review_attempt :
      ℕ → String → Value → String → StateStore → Result StateStore
  unfolding activate_row find_row validate_review_job_context
  activate_review_attempt now i github_review_id submitted_at s = do
    review ← positive_id github_review_id
    require (is_github_timestamp submitted_at)
        (value_error "submitted_at must be a canonical UTC second timestamp")
    a ← must (find_row (is_context i) s.attempts)
    job ← must_have (find_row (is_job a.job_id) s.jobs)
    content ← must_have (find_row (is_content a.content_id) s.contents)
    validate_review_job_context job content
    require (a.review_decision =t "pass")
        (runtime_error "review attempt is not bound to a pass decision")
    require (opt_eq ◌=t◌ job.review_decision (some "pass"))
        (runtime_error "review job decision is not pass")
    activate_row now review submitted_at a s

abbrev pub ending : ℕ → String → ReviewAttempt → ReviewAttempt
ending now reason a = record a {
  status = ReviewAttemptStatus.invalidated;
  invalidated_at = some now;
  invalidation_reason = some reason;
}

unfoldable pub invalidate_review_attempt : ℕ → String → String → StateStore → Result StateStore
unfolding update_attempt find_row
invalidate_review_attempt now i reason s = do
  refuse (reason =t "") (value_error "invalidation reason is required")
  a ← must (find_row (is_context i) s.attempts)
  if a.status =r ReviewAttemptStatus.invalidated
      then require (opt_eq ◌=t◌ a.invalidation_reason (some reason))
          (runtime_error "review attempt is already terminal")
        >> ok s
      else update_attempt (λ r. is_context i r && is_open r.status) (ending now reason)
          "review attempt invalidation CAS failed" s

abbrev pub attributing : ℕ → ℕ → String → ReviewAttempt → ReviewAttempt
attributing now review submitted_at a = record a {
  publish_state = confirmed;
  publish_confirmed_at = some now;
  github_review_id = some review;
  submitted_at = some submitted_at;
}

-- An invalidated attempt whose review may have been sent and is not known yet.
abbrev pub is_unattributed : ReviewAttempt → Bool
is_unattributed a =
    (a.status =r ReviewAttemptStatus.invalidated && a.publish_state =p maybe_sent)
    && (is_none a.github_review_id && is_none a.submitted_at)

abbrev pub is_attributed : ℕ → String → ReviewAttempt → Bool
is_attributed review submitted_at a =
    (a.status =r ReviewAttemptStatus.invalidated && a.publish_state =p confirmed)
    && (opt_eq ◌==◌ a.github_review_id (some review)
        && opt_eq ◌=t◌ a.submitted_at (some submitted_at))

-- The context must no longer be valid: `try: ... except RuntimeError: pass else: raise`.
abbrev pub must_fail : Result (Unit {0}) → Result (Unit {0})
must_fail (ok _) =
    err (runtime_error "review context remains valid; terminal attribution is forbidden")
must_fail (err e) = ok tt

-- What is done with the attempt whose review is to be attributed.
unfoldable pub attribute_row : ℕ → ℕ → String → ReviewAttempt → StateStore → Result StateStore
unfolding update_attempt validate_review_job_context find_row
attribute_row now review submitted_at a s = if is_attributed review submitted_at a then ok s else do
  require (is_unattributed a)
      (runtime_error "review attempt is not an invalidated unresolved publication")
  job ← must_have (find_row (is_job a.job_id) s.jobs)
  content ← must_have (find_row (is_content a.content_id) s.contents)
  must_fail (validate_review_job_context job content)
  refuse (ltb max_int64 review) overflow_error
  refuse (any (has_review a.repository_id review a.review_context_id) s.attempts)
      (integrity_error "idx_review_attempts_github_review")
  update_attempt (λ r. is_context a.review_context_id r && is_unattributed r)
      (attributing now review submitted_at) "review publication attribution CAS failed" s

module _ (is_github_timestamp : String → Bool) where
  unfoldable pub confirm_invalidated_review_attempt_publication :
      ℕ → String → Value → String → StateStore → Result StateStore
  unfolding attribute_row find_row
  confirm_invalidated_review_attempt_publication now i github_review_id submitted_at s = do
    review ← positive_id github_review_id
    require (is_github_timestamp submitted_at)
        (value_error "submitted_at must be a canonical UTC second timestamp")
    a ← must (find_row (is_context i) s.attempts)
    attribute_row now review submitted_at a s
