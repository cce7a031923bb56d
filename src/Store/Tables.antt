-- ===== src/Store/Tables.antt =====
-- reviewer/state.py: the tables of the state store, each as the list of its rows. The times of jobs
-- and attempts are counts of microseconds: the texts of `_timestamp` have one fixed layout, in
-- which the order of the texts is the order of the times. Outbox times are counts of seconds,
-- but for `created_at`, which is stored only.
pub mod Signed
pub mod Plans
use dohwa_hermes_stack.Base.{ℕ, Bool, true, false, Option, List, [], String, ◌==◌, Value}
use dohwa_hermes_stack.Models.{ReviewJob}
use dohwa_hermes_stack.Approval.Status.{ReviewAttemptStatus, ApprovalStatus}
use dohwa_hermes_stack.Store.Tables.Plans.{MergeDescriptorRow, CiRequestPlan}
use dohwa_hermes_stack.Store.Tables.Signed.{ReconciliationRow, LabelEventRow, EvidenceRow}

-- A row of `webhook_deliveries`.
pub record WebhookDelivery : Type 0 where
  pub delivery_id : String
  pub event_name : String
  pub action : Option String
  pub repository : Option String
  pub pull_number : Option ℕ
  pub head_sha : Option String
  pub job_id : Option ℕ
  pub received_at : ℕ

-- A row of `review_context_contents`.
pub record ReviewContextRow : Type 0 where
  pub content_id : String
  pub algorithm_id : String
  pub canonical_payload : List ℕ
  pub repository_id : ℕ
  pub pull_number : ℕ
  pub base_sha : String
  pub head_sha : String
  pub merge_base_sha : String
  pub diff_sha256 : String
  pub policy_version : String
  pub created_at : ℕ

pub data PublishState : Type 0 where
  not_sent maybe_sent confirmed : PublishState

-- A row of `review_attempts`.
pub record ReviewAttempt : Type 0 where
  pub review_attempt_id : String
  pub review_context_id : String
  pub job_id : ℕ
  pub content_id : String
  pub review_decision : String
  pub repository_id : ℕ
  pub pull_number : ℕ
  pub status : ReviewAttemptStatus
  pub publish_state : PublishState
  pub publish_started_at : Option ℕ
  pub publish_confirmed_at : Option ℕ
  pub github_review_id : Option ℕ
  pub submitted_at : Option String
  pub prepared_at : ℕ
  pub activated_at : Option ℕ
  pub invalidated_at : Option ℕ
  pub invalidation_reason : Option String

-- A row of `review_publications`.
pub record ReviewPublication : Type 0 where
  pub marker : String
  pub job_id : ℕ
  pub event : String
  pub publish_state : PublishState
  pub github_review_id : Option ℕ
  pub publish_started_at : ℕ
  pub publish_confirmed_at : Option ℕ

-- A row of `approvals`.
pub record Approval : Type 0 where
  pub approval_id : String
  pub status : ApprovalStatus
  pub repository_id : ℕ
  pub pull_number : ℕ
  pub review_context_id : String
  pub review_attempt_id : String
  pub content_id : String
  pub label_event_id : String
  pub webhook_delivery_id : String
  pub approver_github_user_id : ℕ
  pub generation : ℕ
  pub event_created_at : ℕ
  pub accepted_at : ℕ
  pub expires_at : ℕ
  pub attestation_digest : String
  pub invalidated_at : Option ℕ
  pub invalidation_reason : Option String

-- A row of `approval_transition_audit`.
pub record ApprovalTransition : Type 0 where
  pub approval_id : String
  pub sequence : ℕ
  pub from_status : Option ApprovalStatus
  pub to_status : ApprovalStatus
  pub reason : Option String
  pub recorded_at : ℕ

-- A row of `approval_outbox`.
pub record OutboxRow : Type 0 where
  pub id : ℕ
  pub delivery_id : String
  pub action : String
  pub repository : String
  pub pull_number : ℕ
  pub label_name : Option String
  pub approval_id : Option String
  -- the JSON document that the text of the column encodes
  pub payload : Value
  pub created_at : ℕ
  pub claimed_at : Option ℕ
  pub attempt_count : ℕ
  pub delivered_at : Option ℕ
  pub retry_at : Option ℕ
  pub last_error : Option String

pub record StateStore : Type 0 where
  pub jobs : List ReviewJob
  pub deliveries : List WebhookDelivery
  pub contents : List ReviewContextRow
  pub attempts : List ReviewAttempt
  pub publications : List ReviewPublication
  pub approvals : List Approval
  pub audit : List ApprovalTransition
  pub outbox : List OutboxRow
  pub reconciliations : List ReconciliationRow
  pub label_events : List LabelEventRow
  pub evidence : List EvidenceRow
  pub descriptors : List MergeDescriptorRow
  pub requests : List CiRequestPlan

-- The store that `_migrate` creates.
abbrev pub empty_store : StateStore
empty_store = record {
  jobs = [];
  deliveries = [];
  contents = [];
  attempts = [];
  publications = [];
  approvals = [];
  audit = [];
  outbox = [];
  reconciliations = [];
  label_events = [];
  evidence = [];
  descriptors = [];
  requests = [];
}

-- `status IN ('PREPARED', 'ACTIVE')`, `status IN ('PENDING', 'ACTIVE')`.
abbrev pub is_open : ReviewAttemptStatus → Bool
is_open ReviewAttemptStatus.invalidated = false
is_open _ = true

abbrev pub is_open_approval : ApprovalStatus → Bool
is_open_approval ApprovalStatus.pending = true
is_open_approval ApprovalStatus.active = true
is_open_approval _ = false

abbrev publish_index : PublishState → ℕ
publish_index not_sent = 0
publish_index maybe_sent = 1
publish_index confirmed = 2

infix 50 ◌=p◌ ◌=a◌
abbrev pub ◌=p◌ : PublishState → PublishState → Bool
a =p b = publish_index a == publish_index b

abbrev approval_index : ApprovalStatus → ℕ
approval_index ApprovalStatus.pending = 0
approval_index ApprovalStatus.active = 1
approval_index ApprovalStatus.consumed = 2
approval_index ApprovalStatus.invalidated = 3

abbrev pub ◌=a◌ : ApprovalStatus → ApprovalStatus → Bool
a =a b = approval_index a == approval_index b
