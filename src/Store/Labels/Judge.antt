-- ===== src/Store/Labels/Judge.antt =====
-- reviewer/state.py: the part of `_apply_github_label_approval` that decides on the event of the
-- webhook: the reason to reject it, or the review that it approves.
use dohwa_hermes_stack.Base.{
  ℕ, Bool, true, false, not, ◌&&◌, Option, none, some, List, String, ◌==◌, ◌=t◌, opt_eq,
  text_before, any, find_row, Result, ok, err, value_error, type_error, ◌>>=◌, if◌then◌else◌, Value,
  int, pos, datetime,
}
use dohwa_hermes_stack.Models.{ReviewJob, WebhookEvent}
use dohwa_hermes_stack.Approval.Status.{ReviewAttemptStatus}
use dohwa_hermes_stack.Approval.Ttl.{
  ApprovalTtlDecision, valid, rejected_missing_github_date, rejected_request_rtt,
  rejected_monotonic_clock, expired_or_within_safety_margin, GithubClockObservation,
  ApprovalTtlEvaluation, is_valid, evaluate_approval_ttl,
}
use dohwa_hermes_stack.Store.Tables.{StateStore, ReviewAttempt, ReviewContextRow}
use dohwa_hermes_stack.Store.Tables.Signed.{TimelineItem}
use dohwa_hermes_stack.Store.Ingest.{is_job}
use dohwa_hermes_stack.Store.Attempts.Prepare.{is_content, ◌=r◌}
use dohwa_hermes_stack.Store.Labels.Timeline.{LabelFold, Snapshot, is_active, drop}

-- What the store is configured with: the label that approves, who may approve, and the expected
-- installation and policy.
pub record Settings : Type 0 where
  pub allowed_approver_ids : List ℕ
  pub expected_installation_id : ℕ
  pub expected_policy_version : String
  pub target_label : String

-- The first chain of reasons, which looks at the event and the timeline only.
unfoldable pub event_reason :
    Settings → WebhookEvent → List TimelineItem → TimelineItem → LabelFold → Option String
event_reason c e timeline i f =
    if opt_eq ◌=t◌ e.action (some "labeled") && not (opt_eq ◌=t◌ i.actor_type (some "User"))
    then some "ACTOR_NOT_USER"
    else if not (i.label_name =t c.target_label)
    then some "NON_TARGET_LABEL"
    else if not (opt_eq ◌==◌ e.installation_id (some c.expected_installation_id))
    then some "INSTALLATION_ID_MISMATCH"
    else if any (λ (x : TimelineItem). x.label_name =t c.target_label) (drop i.ordinal timeline)
    then some "NON_CURRENT_LABEL_EVENT"
    else if opt_eq ◌=t◌ e.action (some "labeled") && not (is_active f c.target_label)
    then some "LABEL_NOT_CURRENTLY_ACTIVE"
    else none

-- The review that an approval is bound to, and the evaluation of its time to live.
pub record Approved : Type 0 where
  pub attempt : ReviewAttempt
  pub content : ReviewContextRow
  pub job : ReviewJob
  pub ttl : ApprovalTtlEvaluation

-- A reason to reject, or nothing against the event: for a removed label, or with the review that a
-- new label approves.
pub data Verdict : Type 0 where
  refused : String → Verdict
  removes : Verdict
  approves : Approved → Verdict

abbrev pub is_attempt_of : ReviewAttemptStatus → Snapshot → ReviewAttempt → Bool
is_attempt_of status n a =
    a.repository_id == n.repository_id && (a.pull_number == n.pull_number && a.status =r status)

-- The signed commits are those of the content and of the job.
unfoldable pub is_signed_context : WebhookEvent → Snapshot → ReviewContextRow → ReviewJob → Bool
is_signed_context e n content job =
    (content.repository_id == n.repository_id && content.pull_number == n.pull_number)
    && ((opt_eq ◌=t◌ (some content.base_sha) e.base_sha
          && opt_eq ◌=t◌ (some content.head_sha) e.head_sha)
        && (opt_eq ◌=t◌ job.base_sha e.base_sha && opt_eq ◌=t◌ (some job.head_sha) e.head_sha))

-- `created_at <= attempt["submitted_at"]`; a missing time is no text.
abbrev pub not_after : String → Option String → Result Bool
not_after created_at none = err type_error
not_after created_at (some submitted_at) = ok (not (text_before submitted_at created_at))

abbrev pub is_allowed : Option ℕ → List ℕ → Bool
is_allowed none ids = false
is_allowed (some i) ids = any (λ k. k == i) ids

abbrev pub decision_value : ApprovalTtlDecision → String
decision_value valid = "VALID"
decision_value rejected_missing_github_date = "REJECTED_MISSING_GITHUB_DATE"
decision_value rejected_request_rtt = "REJECTED_REQUEST_RTT"
decision_value rejected_monotonic_clock = "REJECTED_MONOTONIC_CLOCK"
decision_value expired_or_within_safety_margin = "EXPIRED_OR_WITHIN_SAFETY_MARGIN"

-- `monotonic_ns()` must return a non-negative integer.
abbrev pub check_monotonic : Value → Result ℕ
check_monotonic (int (pos n)) = ok n
check_monotonic _ = err (value_error "monotonic_ns must return a non-negative integer")

-- `instant` stands for `datetime.strptime(text, "%Y-%m-%dT%H:%M:%SZ")` in UTC, in microseconds.
module _ (instant : String → Result ℕ) where
  unfoldable pub judge_ttl :
      GithubClockObservation
      → Value
      → TimelineItem
      → ReviewAttempt
      → ReviewContextRow
      → ReviewJob
      → Result Verdict
  unfolding evaluate_approval_ttl
  judge_ttl clock monotonic i attempt content job = do
    created ← instant i.created_at
    now ← check_monotonic monotonic
    ttl ← evaluate_approval_ttl (datetime true created) clock (int (pos now))
    ok (
        if is_valid ttl.decision
        then approves (record { attempt = attempt; content = content; job = job; ttl = ttl })
        else refused (decision_value ttl.decision))

  unfoldable pub judge_time :
      Settings
      → WebhookEvent
      → GithubClockObservation
      → Value
      → TimelineItem
      → ReviewAttempt
      → ReviewContextRow
      → ReviewJob
      → Result Verdict
  unfolding judge_ttl
  judge_time c e clock monotonic i attempt content job = do
    early ← not_after i.created_at attempt.submitted_at
    (if early
        then ok (refused "LABEL_NOT_AFTER_REVIEW")
        else if not (is_allowed e.sender_id c.allowed_approver_ids)
        then ok (refused "APPROVER_NOT_ALLOWED")
        else judge_ttl clock monotonic i attempt content job)

  unfoldable pub judge_review :
      Settings
      → WebhookEvent
      → Snapshot
      → GithubClockObservation
      → Value
      → TimelineItem
      → ReviewAttempt
      → Option ReviewContextRow
      → Option ReviewJob
      → Result Verdict
  unfolding is_signed_context judge_time
  judge_review c e n clock monotonic i attempt (some content) (some job) =
      if not (opt_eq ◌=t◌ job.review_decision (some "pass"))
      then ok (refused "REVIEW_JOB_DECISION_NOT_PASS")
      else if not (is_signed_context e n content job)
      then ok (refused "SIGNED_REVIEW_CONTEXT_MISMATCH")
      else if not (content.policy_version =t c.expected_policy_version)
      then ok (refused "POLICY_VERSION_MISMATCH")
      else judge_time c e clock monotonic i attempt content job
  judge_review c e n clock monotonic i attempt _ _ =
      ok (refused "REVIEW_CONTEXT_DEPENDENCY_MISSING")

  -- An attempt whose decision is not `pass` sets the reason REVIEW_DECISION_NOT_PASS and leaves the
  -- content unread; the chain then subscripts it, which raises.
  unfoldable pub judge_attempt :
      Settings
      → WebhookEvent
      → Snapshot
      → GithubClockObservation
      → Value
      → TimelineItem
      → StateStore
      → Option ReviewAttempt
      → Result Verdict
  unfolding judge_review find_row
  judge_attempt c e n clock monotonic i s none = ok (
      refused (
        if any (is_attempt_of ReviewAttemptStatus.prepared n) s.attempts
        then "LABEL_BEFORE_REVIEW"
        else "NO_ACTIVE_REVIEW_ATTEMPT"))
  judge_attempt c e n clock monotonic i s (some attempt) =
      if attempt.review_decision =t "pass"
      then judge_review c e n clock monotonic i attempt
          (find_row (is_content attempt.content_id) s.contents)
          (find_row (is_job attempt.job_id) s.jobs)
      else err type_error

  unfoldable pub judge :
      Settings
      → WebhookEvent
      → Snapshot
      → GithubClockObservation
      → Value
      → TimelineItem
      → LabelFold
      → StateStore
      → Result Verdict
  unfolding event_reason judge_attempt find_row
  judge c e n clock monotonic i f s = elim (event_reason c e n.timeline i f) [
    | some reason ↦ ok (refused reason)
    | none ↦
        if opt_eq ◌=t◌ e.action (some "labeled")
        then judge_attempt c e n clock monotonic i s
            (find_row (is_attempt_of ReviewAttemptStatus.active n) s.attempts)
        else ok removes
  ]
