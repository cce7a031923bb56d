-- ===== src/Store/Labels/Expire.antt =====
-- reviewer/state.py: `_expire_github_label_approvals`.
use dohwa_hermes_stack.Base.{
  ℕ, Bool, true, ◌&&◌, List, [], ◌∷◌, String, ◌==◌, ◌=t◌, any, select, order_by, Result, ok, ◌>>=◌,
  if◌then◌else◌, Value, int, pos, datetime,
}
use dohwa_hermes_stack.Models.{ReviewJob}
use dohwa_hermes_stack.Approval.Ttl.{
  ApprovalTtlDecision, expired_or_within_safety_margin, GithubClockObservation, is_valid,
  evaluate_approval_ttl,
}
use dohwa_hermes_stack.Store.Tables.{StateStore, Approval, ReviewAttempt, is_open_approval}
use dohwa_hermes_stack.Store.Invalidate.{approval_before, invalidate_open_approvals}
use dohwa_hermes_stack.Store.Labels.Judge.{decision_value, check_monotonic}

-- The attempt of the approval has a job of the repository.
abbrev pub is_reviewed_in : String → StateStore → Approval → Bool
is_reviewed_in repository s a =
    any
      (λ (r : ReviewAttempt).
        r.review_attempt_id =t a.review_attempt_id
        && any (λ (j : ReviewJob). j.id == r.job_id && j.repository =t repository) s.jobs)
      s.attempts

-- The open approvals of a pull request, `ORDER BY approval_id`. Attempt and job are found by their
-- primary keys, so the join gives each approval once.
unfoldable pub open_approvals_of : ℕ → String → ℕ → StateStore → List Approval
unfolding order_by
open_approvals_of repository_id repository pull_number s = order_by approval_before (
    select
      (λ (a : Approval).
        a.repository_id == repository_id
        && (a.pull_number == pull_number
            && (is_reviewed_in repository s a && is_open_approval a.status)))
      s.approvals)

abbrev pub expiry_reason : ApprovalTtlDecision → String
expiry_reason expired_or_within_safety_margin = "EXPIRED"
expiry_reason d = decision_value d

-- The loop over the open approvals. `monotonic` gives what `monotonic_ns()` returns at the row of each
-- approval.
unfoldable pub expire_rows :
    ℕ
    → GithubClockObservation
    → (String → Value)
    → List Approval
    → StateStore
    → Result (List (String × String) × StateStore)
unfolding invalidate_open_approvals evaluate_approval_ttl
expire_rows now clock monotonic [] s = ok ([], s)
expire_rows now clock monotonic (a ∷ rows) s = do
  n ← check_monotonic (monotonic a.approval_id)
  ttl ← evaluate_approval_ttl (datetime true a.event_created_at) clock (int (pos n))
  t ←
      (if is_valid ttl.decision
        then ok s
        else invalidate_open_approvals (a ∷ []) (expiry_reason ttl.decision) now s)
  rest ← expire_rows now clock monotonic rows t
  ok (
    if is_valid ttl.decision then rest.0 else (a.approval_id, expiry_reason ttl.decision) ∷ rest.0,
    rest.1,
  )

unfoldable pub expire_github_label_approvals :
    ℕ
    → ℕ
    → String
    → ℕ
    → GithubClockObservation
    → (String → Value)
    → StateStore
    → Result (List (String × String) × StateStore)
unfolding expire_rows open_approvals_of
expire_github_label_approvals now repository_id repository pull_number clock monotonic s =
    expire_rows now clock monotonic (open_approvals_of repository_id repository pull_number s) s
