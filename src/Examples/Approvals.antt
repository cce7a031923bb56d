-- ===== src/Examples/Approvals.antt =====
-- A label that approves a review, and the same delivery again.
use dohwa_hermes_stack.Base.{
  ℕ, ◌≡◌, refl, true, false, Option, none, some, List, [], ◌∷◌, String, ◌=t◌, Result, ok, err,
  value_error, if◌then◌else◌, int, pos, find_row,
}
use dohwa_hermes_stack.Models.{ReviewState, WebhookEvent, ReviewJob}
use dohwa_hermes_stack.Approval.Status.{ReviewAttemptStatus}
use dohwa_hermes_stack.Approval.Ttl.{GithubClockObservation, server_now_upper_bound}
use dohwa_hermes_stack.Store.Tables.{ReviewAttempt, StateStore, confirmed}
use dohwa_hermes_stack.Store.Tables.Signed.{TimelineItem, rejected}
use dohwa_hermes_stack.Store.Consistent.{fits, IsConsistent}
use dohwa_hermes_stack.Store.Ingest.{is_job}
use dohwa_hermes_stack.Store.Labels.Record.{LabelResult}
use dohwa_hermes_stack.Store.Labels.Timeline.{
  LabelFold, empty_fold, Snapshot, is_active, fold_timeline,
}
use dohwa_hermes_stack.Store.Labels.Judge.{Settings, is_attempt_of}
use dohwa_hermes_stack.Store.Labels.Accept.{Runtime}
use dohwa_hermes_stack.Store.Labels.Apply.{apply_github_label_approval}
use dohwa_hermes_stack.Store.Labels.Closed.{Decides, apply_github_label_approval-Decides}
use dohwa_hermes_stack.Store.Labels.Again.{IsAnswered, apply_github_label_approval_again}
use dohwa_hermes_stack.Store.Labels.Approves.{
  Approves, apply_github_label_approval-Approves, apply_github_label_approval_unsettled,
}
use dohwa_hermes_stack.Store.Labels.Generations.{added_count, last_adds, fold_timeline_counts}
use dohwa_hermes_stack.Examples.Data.{base_sha, head_sha, content, attempt_in, store_with}

abbrev digest : String
digest = "0123456789abcdef0123456789abcdef0123456789abcdef0123456789abcdef"

abbrev attempt_id : String
attempt_id = "01890a5d-ac96-774b-bcce-b302099a8057"

abbrev fresh : String
fresh = "01890a5d-ac96-774b-8cce-b302099a8058"

-- Two times, and the lower case of two actions.
abbrev seconds : String → Result ℕ
seconds t =
    if t =t "2024-05-01T10:00:00Z" then ok 1_000_000 else err (value_error "does not match format")

abbrev runtime : Runtime
runtime = record {
  instant = seconds;
  iso = λ t. "iso";
  github_time = λ t. "time";
  attestation_digest = λ v. digest;
}

abbrev lowered : String → String
lowered t = if t =t "LABELED" then "labeled" else "unlabeled"

abbrev item : TimelineItem
item = record {
  event_id = "e1";
  repository_id = 7;
  repository = "dohwa/hermes";
  pull_number = 12;
  label_node_id = "l1";
  label_name = "approved";
  action = "LABELED";
  actor_type = some "User";
  actor_github_user_id = some 5;
  actor_node_id = some "u1";
  actor_login = some "kim";
  created_at = "2024-05-01T10:00:00Z";
  ordinal = 1;
  predecessor_event_id = none;
}

abbrev snapshot : Snapshot
snapshot = record {
  repository_id = 7;
  repository = "dohwa/hermes";
  pull_number = 12;
  total_count = 1;
  timeline = item ∷ [];
}

abbrev labeled : WebhookEvent
labeled = record {
  delivery_id = "d1";
  event_name = "pull_request";
  action = some "labeled";
  repository_id = some 7;
  repository = some "dohwa/hermes";
  installation_id = some 3;
  pull_number = some 12;
  base_sha = some base_sha;
  head_sha = some head_sha;
  is_draft = some false;
  is_merged = some false;
  merge_sha = none;
  label_id = some 1;
  label_node_id = some "l1";
  label_name = some "approved";
  sender_id = some 5;
  sender_node_id = some "u1";
  sender_login = some "kim";
  sender_type = some "User";
  pull_updated_at = some "2024-05-01T10:00:00Z";
  payload_sha256 = some digest;
}

abbrev settings : Settings
settings = record {
  allowed_approver_ids = 4 ∷ 5 ∷ [];
  expected_installation_id = 3;
  expected_policy_version = "v1";
  target_label = "approved";
}

abbrev clock : GithubClockObservation
clock = record {
  github_date = some 2_000_000;
  request_started_monotonic_ns = 0;
  response_received_monotonic_ns = 1_000;
}

abbrev active_attempt : ReviewAttempt
active_attempt = record (attempt_in confirmed (some 110)) {
  review_attempt_id = attempt_id;
  review_context_id = "dohwa-review-context-attempt/v1:01890a5d-ac96-774b-bcce-b302099a8057";
  content_id = digest;
  status = ReviewAttemptStatus.active;
  publish_confirmed_at = some 120;
  github_review_id = some 9;
  submitted_at = some "2024-05-01T09:00:00Z";
  activated_at = some 120;
}

abbrev reviewed : StateStore
reviewed = record (store_with ReviewState.waiting_ci (active_attempt ∷ [])) {
  contents = record content { content_id = digest } ∷ [];
}

-- What a computation returns.
abbrev got {ℓ} : {A : Type ℓ} → Result A → A → A
got (ok a) other = a
got (err e) other = other

abbrev got_fold : Option LabelFold → LabelFold
got_fold none = empty_fold
got_fold (some f) = f

abbrev no_result : LabelResult
no_result = record {
  delivery_id = "";
  outcome = rejected;
  reason = none;
  event_id = none;
  approval_id = none;
  generation = none;
  attestation_digest = none;
  duplicate = true;
}

abbrev decision : Result (LabelResult × StateStore)
unfolding apply_github_label_approval server_now_upper_bound
decision =
    apply_github_label_approval runtime lowered 500 snapshot labeled settings clock
      (int (pos 2_000)) none none none none fresh reviewed

abbrev first : LabelResult × StateStore
unfolding apply_github_label_approval server_now_upper_bound
first = got decision (no_result, reviewed)

apply_github_label_approval-Decides_example : Decides labeled first.0 reviewed first.1
unfolding apply_github_label_approval server_now_upper_bound
apply_github_label_approval-Decides_example =
    apply_github_label_approval-Decides runtime lowered 500 snapshot labeled settings clock
      (int (pos 2_000)) none none none none fresh reviewed first refl

apply_github_label_approval_again_example :
    (again : LabelResult × StateStore) × (apply_github_label_approval runtime lowered 900 snapshot
        labeled settings clock
        (int (pos 3_000))
        none
        none
        none
        none
        ""
        first.1
      ≡ ok again)
    × IsAnswered first.0 again first.1
unfolding apply_github_label_approval server_now_upper_bound
apply_github_label_approval_again_example =
    apply_github_label_approval_again runtime lowered 500 900 snapshot snapshot labeled settings
      settings clock clock (int (pos 2_000)) (int (pos 3_000)) none none none none none fresh ""
      reviewed first refl refl

apply_github_label_approval-Approves_example :
    Approves runtime lowered 500 snapshot labeled settings clock reviewed first.1
unfolding apply_github_label_approval server_now_upper_bound
apply_github_label_approval-Approves_example =
    apply_github_label_approval-Approves runtime lowered snapshot settings clock (int (pos 2_000))
      fresh 500 labeled none none none none reviewed first refl (refl, λ e. cc)

apply_github_label_approval_unsettled_example :
    (a : ReviewAttempt) × (j : ReviewJob) × (find_row
        (is_attempt_of ReviewAttemptStatus.active snapshot)
        first.1.attempts
      ≡ some a)
    × (a.status ≡ ReviewAttemptStatus.active)
    × (find_row (is_job a.job_id) first.1.jobs ≡ some j)
    × (j.state ≡ ReviewState.human_review)
    × (fits j a ≡ false)
    × ¬ IsConsistent first.1
unfolding apply_github_label_approval server_now_upper_bound
apply_github_label_approval_unsettled_example =
    apply_github_label_approval_unsettled runtime lowered snapshot settings clock (int (pos 2_000))
      fresh 500 labeled none none none none reviewed first refl (refl, λ e. cc)

abbrev unlabeled_item : TimelineItem
unlabeled_item = record item {
  event_id = "e2";
  action = "UNLABELED";
  ordinal = 2;
  predecessor_event_id = some "e1";
}

abbrev relabeled_item : TimelineItem
relabeled_item = record item { event_id = "e3"; ordinal = 3; predecessor_event_id = some "e2" }

abbrev three : List TimelineItem
three = item ∷ unlabeled_item ∷ relabeled_item ∷ []

abbrev folded : LabelFold
unfolding fold_timeline
folded = got_fold (fold_timeline 1 three empty_fold)

fold_timeline_counts_example :
    (folded.generations "approved" ≡ added_count "approved" three)
    × (is_active folded "approved" ≡ last_adds "approved" false three)
unfolding fold_timeline
fold_timeline_counts_example = fold_timeline_counts "approved" three folded refl
