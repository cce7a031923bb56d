-- ===== src/Store/Ingest/Targets.antt =====
-- reviewer/state.py: the state that an event asks for, which event may move a job, and what becomes
-- of the row of the job.
use dohwa_hermes_stack.Base.{
  ℕ, Bool, false, not, ◌&&◌, ◌||◌, Option, none, some, List, [], ◌∷◌, String, ◌=t◌, opt_eq,
  coalesce, is_some, any, if◌then◌else◌,
}
use dohwa_hermes_stack.Models.{
  ReviewState, discovered, waiting_ready, queued, merged, closed, ReviewJob, WebhookEvent, state_in,
  ◌=s◌, active_states, flag_truth,
}

-- `action in {...}`.
abbrev pub action_in : Option String → List String → Bool
action_in none names = false
action_in (some a) names = any (λ n. a =t n) names

abbrev pub action_is : Option String → String → Bool
action_is none name = false
action_is (some a) name = a =t name

unfoldable pub initial_state : WebhookEvent → ReviewState
initial_state e =
    if action_is e.action "closed"
    then if flag_truth e.is_merged then merged else closed
    else if action_is e.action "converted_to_draft" || flag_truth e.is_draft
    then waiting_ready
    else if action_in e.action
        ("opened" ∷ "reopened" ∷ "ready_for_review" ∷ "synchronize" ∷ "bootstrap_reconcile" ∷ [])
    then queued
    else discovered

unfoldable pub event_may_transition : Option String → ReviewState → ReviewState → Bool
event_may_transition action current target =
    if action_is action "ready_for_review"
    then current =s waiting_ready && target =s queued
    else if action_is action "reopened"
    then current =s closed && target =s queued
    else if action_is action "bootstrap_reconcile"
    then current =s closed && state_in target (queued ∷ waiting_ready ∷ [])
    else if action_is action "converted_to_draft"
    then state_in current active_states && not (current =s waiting_ready)
    else if action_is action "closed"
    then not (current =s merged)
    else current =s discovered

abbrev pub stamp_if : Bool → ℕ → Option ℕ
stamp_if b now = if b then some now else none

-- The inserted row of `review_jobs`.
unfoldable pub new_job : ℕ → WebhookEvent → String → ℕ → String → ReviewState → ℕ → ReviewJob
new_job now e repository pull_number head target id = record {
  id = id;
  repository_id = e.repository_id;
  repository = repository;
  pull_number = pull_number;
  base_sha = e.base_sha;
  head_sha = head;
  state = target;
  queued_at = stamp_if (target =s queued) now;
  started_at = none;
  finished_at = stamp_if (state_in target (closed ∷ merged ∷ [])) now;
  attempt_count = 0;
  review_decision = none;
  findings_hash = none;
  github_review_id = none;
  github_comment_id = none;
  discord_message_id = none;
  discord_thread_id = none;
  merge_sha = if target =s merged then e.merge_sha else none;
  last_error = none;
  retry_at = none;
  created_at = now;
  updated_at = now;
}

unfoldable pub base_changed : WebhookEvent → ReviewJob → Bool
base_changed e j =
    is_some e.base_sha
    && (not (opt_eq ◌=t◌ e.base_sha j.base_sha)
        && (not (state_in j.state (closed ∷ merged ∷ []))
            || action_in e.action ("reopened" ∷ "bootstrap_reconcile" ∷ [])))

abbrev pub replacement_state : ReviewState → ReviewState
replacement_state target = if target =s discovered then queued else target

-- A job whose base moved starts over.
unfoldable pub rebase_job : ℕ → WebhookEvent → ReviewState → ReviewJob → ReviewJob
rebase_job now e target j = record j {
  state = target;
  base_sha = e.base_sha;
  repository_id = coalesce j.repository_id e.repository_id;
  queued_at = stamp_if (target =s queued) now;
  started_at = none;
  finished_at = stamp_if (state_in target (closed ∷ merged ∷ [])) now;
  review_decision = none;
  findings_hash = none;
  github_review_id = none;
  github_comment_id = none;
  discord_message_id = none;
  discord_thread_id = none;
  merge_sha = none;
  last_error = none;
  retry_at = none;
  updated_at = now;
}

unfoldable pub move_job : ℕ → WebhookEvent → ReviewState → ReviewJob → ReviewJob
move_job now e target j = record j {
  state = target;
  base_sha = coalesce e.base_sha j.base_sha;
  repository_id = coalesce j.repository_id e.repository_id;
  queued_at = if target =s queued then some now else j.queued_at;
  finished_at =
      if state_in target (closed ∷ merged ∷ [])
      then some now
      else if state_in target (queued ∷ waiting_ready ∷ [])
      then none
      else j.finished_at;
  updated_at = now;
}
