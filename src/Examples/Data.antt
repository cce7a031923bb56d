-- ===== src/Examples/Data.antt =====
-- The rows and events that the examples share.
use dohwa_hermes_stack.Base.{null, ℕ, false, Option, none, some, List, [], ◌∷◌, String}
use dohwa_hermes_stack.Models.{ReviewState, ReviewJob, WebhookEvent}
use dohwa_hermes_stack.Approval.Status.{ReviewAttemptStatus}
use dohwa_hermes_stack.Store.Tables.{
  ReviewContextRow, ReviewAttempt, PublishState, OutboxRow, StateStore, empty_store,
}

abbrev pub base_sha : String
base_sha = "1111111111111111111111111111111111111111"

abbrev pub head_sha : String
head_sha = "2222222222222222222222222222222222222222"

abbrev pub event_at : String → String → WebhookEvent
event_at delivery action = record {
  delivery_id = delivery;
  event_name = "pull_request";
  action = some action;
  repository_id = some 7;
  repository = some "dohwa/hermes";
  installation_id = some 3;
  pull_number = some 12;
  base_sha = some base_sha;
  head_sha = some head_sha;
  is_draft = some false;
  is_merged = some false;
  merge_sha = none;
  label_id = none;
  label_node_id = none;
  label_name = none;
  sender_id = none;
  sender_node_id = none;
  sender_login = none;
  sender_type = none;
  pull_updated_at = none;
  payload_sha256 = none;
}

abbrev pub job_in : ℕ → ReviewState → ReviewJob
job_in id state = record {
  id = id;
  repository_id = some 7;
  repository = "dohwa/hermes";
  pull_number = 12;
  base_sha = some base_sha;
  head_sha = head_sha;
  state = state;
  queued_at = some 100;
  started_at = none;
  finished_at = none;
  attempt_count = 0;
  review_decision = some "pass";
  findings_hash = none;
  github_review_id = none;
  github_comment_id = none;
  discord_message_id = none;
  discord_thread_id = none;
  merge_sha = none;
  last_error = none;
  retry_at = none;
  created_at = 100;
  updated_at = 100;
}

abbrev pub context_id : String
context_id = "dohwa-review-context-attempt/v1:a1"

abbrev pub content : ReviewContextRow
content = record {
  content_id = "c1";
  algorithm_id = "dohwa-bot/review-context-content/v1";
  canonical_payload = [];
  repository_id = 7;
  pull_number = 12;
  base_sha = base_sha;
  head_sha = head_sha;
  merge_base_sha = base_sha;
  diff_sha256 = "d1";
  policy_version = "v1";
  created_at = 100;
}

abbrev pub attempt_in : PublishState → Option ℕ → ReviewAttempt
attempt_in publish_state started = record {
  review_attempt_id = "a1";
  review_context_id = context_id;
  job_id = 1;
  content_id = "c1";
  review_decision = "pass";
  repository_id = 7;
  pull_number = 12;
  status = ReviewAttemptStatus.prepared;
  publish_state = publish_state;
  publish_started_at = started;
  publish_confirmed_at = none;
  github_review_id = none;
  submitted_at = none;
  prepared_at = 100;
  activated_at = none;
  invalidated_at = none;
  invalidation_reason = none;
}

-- A store with one job and one attempt of it.
abbrev pub store_with : ReviewState → List ReviewAttempt → StateStore
store_with state attempts = record empty_store {
  jobs = job_in 1 state ∷ [];
  contents = content ∷ [];
  attempts = attempts;
}

abbrev pub outbox_row : ℕ → String → OutboxRow
outbox_row id delivery = record {
  id = id;
  delivery_id = delivery;
  action = "REMOVE_LABEL";
  repository = "dohwa/hermes";
  pull_number = 12;
  label_name = some "approved";
  approval_id = none;
  payload = null;
  created_at = 0;
  claimed_at = none;
  attempt_count = 0;
  delivered_at = none;
  retry_at = none;
  last_error = none;
}

abbrev pub outbox_store : StateStore
outbox_store = record empty_store { outbox = outbox_row 1 "d1" ∷ outbox_row 2 "d2" ∷ [] }
