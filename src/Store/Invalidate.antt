-- ===== src/Store/Invalidate.antt =====
-- reviewer/state.py: the helpers that end the review attempts and the open approvals of jobs.
pub mod Effects
use Prim.Native.String.{◌++◌ as text_append}
use dohwa_hermes_stack.Base.{
  ℕ, ◌+◌, ◌≡◌, Bool, true, false, not, ◌&&◌, ◌||◌, Option, none, some, List, [], ◌∷◌, ◌++◌, map,
  String, ◌==◌, ◌=t◌, sql_eq, is_none, text_before, any, order_by, select, find_row, update_rows,
  count_rows, max_key, Result, ok, err, runtime_error, require, ◌>>=◌, ◌>>◌, if◌then◌else◌,
}
use dohwa_hermes_stack.Models.{
  ReviewState, waiting_ready, changes_required, human_review, failed, merged, obsolete, closed,
  ReviewJob, state_in, active_states,
}
use dohwa_hermes_stack.Approval.Status.{ReviewAttemptStatus, ApprovalStatus}
use dohwa_hermes_stack.Store.Tables.{
  ReviewAttempt, Approval, ApprovalTransition, StateStore, is_open, is_open_approval, ◌=a◌,
}

-- One turn of the loop of `_invalidate_open_approvals`, for a row whose approval is open.
invalidate_approval : Approval → String → ℕ → StateStore → Result StateStore
unfolding update_rows count_rows max_key
invalidate_approval row reason now s =
    let same = λ (a : Approval). a.approval_id =t row.approval_id && a.status =a row.status in
    let entries = select (λ (t : ApprovalTransition). t.approval_id =t row.approval_id) s.audit in
    require (count_rows same s.approvals == 1) (runtime_error "approval invalidation CAS failed")
    >> ok (record s {
      approvals =
          update_rows same
            (λ a. record a {
              status = ApprovalStatus.invalidated;
              invalidated_at = some now;
              invalidation_reason = some reason;
            })
            s.approvals;
      audit =
          s.audit
          ++ (record {
            approval_id = row.approval_id;
            sequence = max_key (λ t. t.sequence) entries + 1;
            from_status = some row.status;
            to_status = ApprovalStatus.invalidated;
            reason = some reason;
            recorded_at = now;
          })
            ∷ [];
    })

unfoldable pub invalidate_open_approvals :
    List Approval → String → ℕ → StateStore → Result StateStore
unfolding invalidate_approval
invalidate_open_approvals [] reason now s = ok s
invalidate_open_approvals (row ∷ rows) reason now s = do
  t ← (if is_open_approval row.status then invalidate_approval row reason now s else ok s)
  invalidate_open_approvals rows reason now t

-- `job_id IN (...)`.
unfoldable pub id_in : ℕ → List ℕ → Bool
id_in i ids = any (λ j. i == j) ids

-- `ORDER BY approval_id`.
abbrev pub approval_before : Approval → Approval → Bool
approval_before a b = text_before a.approval_id b.approval_id

-- The open approvals of the attempts of the jobs.
unfoldable pub approvals_of_jobs : List ℕ → StateStore → List Approval
unfolding order_by
approvals_of_jobs ids s = order_by approval_before (
    select
      (λ a.
        is_open_approval a.status
        && any
            (λ (r : ReviewAttempt).
              r.review_attempt_id =t a.review_attempt_id && id_in r.job_id ids)
            s.attempts)
      s.approvals)

abbrev pub end_attempt : String → ℕ → ReviewAttempt → ReviewAttempt
end_attempt reason now r = record r {
  status = ReviewAttemptStatus.invalidated;
  invalidated_at = some now;
  invalidation_reason = some reason;
}

unfoldable pub end_attempts_of_jobs : List ℕ → String → ℕ → StateStore → StateStore
unfolding update_rows
end_attempts_of_jobs ids reason now s = record s {
  attempts =
      update_rows (λ r. id_in r.job_id ids && is_open r.status) (end_attempt reason now) s.attempts;
}

unfoldable pub invalidate_job_attempts : List ℕ → String → ℕ → StateStore → Result StateStore
unfolding invalidate_open_approvals approvals_of_jobs end_attempts_of_jobs
invalidate_job_attempts [] reason now s = ok s
invalidate_job_attempts (i ∷ ids) reason now s = do
  t ← invalidate_open_approvals (approvals_of_jobs (i ∷ ids) s) reason now s
  ok (end_attempts_of_jobs (i ∷ ids) reason now t)

-- The states in which a job no longer stands behind its review.
abbrev pub left_states : List ReviewState
left_states =
    waiting_ready ∷ changes_required ∷ human_review ∷ failed ∷ merged ∷ obsolete ∷ closed ∷ []

unfoldable pub has_left : ReviewState → Bool
has_left state = state_in state left_states

-- The text of a state that stands in a reason.
abbrev pub state_name : ReviewState → String
state_name ReviewState.discovered = "DISCOVERED"
state_name ReviewState.waiting_ready = "WAITING_READY"
state_name ReviewState.queued = "QUEUED"
state_name ReviewState.reviewing = "REVIEWING"
state_name ReviewState.waiting_ci = "WAITING_CI"
state_name ReviewState.changes_required = "CHANGES_REQUIRED"
state_name ReviewState.human_review = "HUMAN_REVIEW"
state_name ReviewState.failed = "FAILED"
state_name ReviewState.ready_to_merge = "READY_TO_MERGE"
state_name ReviewState.merging = "MERGING"
state_name ReviewState.merged = "MERGED"
state_name ReviewState.obsolete = "OBSOLETE"
state_name ReviewState.closed = "CLOSED"

abbrev pub left_reason : ReviewState → String
left_reason s = text_append "JOB_" (state_name s)

unfoldable pub invalidate_if_job_left_review_context :
    ℕ → ReviewState → ℕ → StateStore → Result StateStore
unfolding invalidate_job_attempts has_left
invalidate_if_job_left_review_context job_id state now s =
    if has_left state then invalidate_job_attempts (job_id ∷ []) (left_reason state) now s else ok s

-- An active job of the pull request for another head.
abbrev pub is_other_head : String → ℕ → String → Option ℕ → ReviewJob → Bool
is_other_head repository pull_number head repository_id j =
    j.repository =t repository
    && (j.pull_number == pull_number
        && (not (j.head_sha =t head)
            && ((sql_eq ◌==◌ j.repository_id repository_id || is_none j.repository_id)
                && state_in j.state active_states)))

abbrev pub obsolete_job : ℕ → ReviewJob → ReviewJob
obsolete_job now j = record j { state = obsolete; finished_at = some now; updated_at = now }

unfoldable pub obsolete_other_heads :
    String → ℕ → String → Option ℕ → ℕ → StateStore → Result StateStore
unfolding invalidate_job_attempts update_rows
obsolete_other_heads repository pull_number head repository_id now s =
    let ids =
      map (λ j. j.id) (select (is_other_head repository pull_number head repository_id) s.jobs) in
    do
      t ← invalidate_job_attempts ids "JOB_OBSOLETE_NEW_HEAD" now s
      ok (record t { jobs = update_rows (λ j. id_in j.id ids) (obsolete_job now) t.jobs })
