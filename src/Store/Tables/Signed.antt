-- ===== src/Store/Tables/Signed.antt =====
-- reviewer/state.py: the rows of the label timeline, of the signed evidence of a label webhook and of
-- the queue of approval reconciliations.
use dohwa_hermes_stack.Base.{ℕ, Bool, ◌&&◌, Option, String, ◌==◌, ◌=t◌, opt_eq}
use dohwa_hermes_stack.Models.{WebhookEvent}

-- An event of a label timeline, in the form in which the approval adapter hands it over.
pub record TimelineItem : Type 0 where
  pub event_id : String
  pub repository_id : ℕ
  pub repository : String
  pub pull_number : ℕ
  pub label_node_id : String
  pub label_name : String
  pub action : String
  pub actor_type : Option String
  pub actor_github_user_id : Option ℕ
  pub actor_node_id : Option String
  pub actor_login : Option String
  pub created_at : String
  pub ordinal : ℕ
  pub predecessor_event_id : Option String

pub data Disposition : Type 0 where
  order_only_no_approval signed_approval_candidate rejected_ambiguous : Disposition

-- A row of `github_label_events`: the immutable fields of the event, and what the store adds.
pub record LabelEventRow : Type 0 where
  pub item : TimelineItem
  pub generation : ℕ
  pub disposition : Disposition
  pub recorded_at : ℕ

-- The columns of a signed webhook that the evidence and the queue share, with the keys of the pull
-- request.
pub record SignedLabel : Type 0 where
  pub payload_sha256 : Option String
  pub repository : Option String
  pub installation_id : Option ℕ
  pub action : Option String
  pub label_id : Option ℕ
  pub label_node_id : Option String
  pub label_name : Option String
  pub sender_type : Option String
  pub sender_github_user_id : Option ℕ
  pub sender_node_id : Option String
  pub sender_login : Option String
  pub signed_base_sha : Option String
  pub signed_head_sha : Option String
  pub pull_updated_at : Option String

abbrev pub signed_of : WebhookEvent → SignedLabel
signed_of e = record {
  payload_sha256 = e.payload_sha256;
  repository = e.repository;
  installation_id = e.installation_id;
  action = e.action;
  label_id = e.label_id;
  label_node_id = e.label_node_id;
  label_name = e.label_name;
  sender_type = e.sender_type;
  sender_github_user_id = e.sender_id;
  sender_node_id = e.sender_node_id;
  sender_login = e.sender_login;
  signed_base_sha = e.base_sha;
  signed_head_sha = e.head_sha;
  pull_updated_at = e.pull_updated_at;
}

-- The comparison column by column.
unfoldable pub same_signed : SignedLabel → SignedLabel → Bool
same_signed a b =
    (opt_eq ◌=t◌ a.payload_sha256 b.payload_sha256 && opt_eq ◌=t◌ a.repository b.repository)
    && ((opt_eq ◌==◌ a.installation_id b.installation_id && opt_eq ◌=t◌ a.action b.action)
        && ((opt_eq ◌==◌ a.label_id b.label_id && opt_eq ◌=t◌ a.label_node_id b.label_node_id)
            && ((opt_eq ◌=t◌ a.label_name b.label_name && opt_eq ◌=t◌ a.sender_type b.sender_type)
                && ((opt_eq ◌==◌ a.sender_github_user_id b.sender_github_user_id
                      && opt_eq ◌=t◌ a.sender_node_id b.sender_node_id)
                    && ((opt_eq ◌=t◌ a.sender_login b.sender_login
                          && opt_eq ◌=t◌ a.signed_base_sha b.signed_base_sha)
                        && (opt_eq ◌=t◌ a.signed_head_sha b.signed_head_sha
                            && opt_eq ◌=t◌ a.pull_updated_at b.pull_updated_at))))))

pub data Outcome : Type 0 where
  accepted rejected : Outcome

-- A row of `github_label_webhook_evidence`.
pub record EvidenceRow : Type 0 where
  pub delivery_id : String
  pub repository_id : Option ℕ
  pub pull_number : Option ℕ
  pub signed : SignedLabel
  pub event_id : Option String
  pub review_context_id : Option String
  pub outcome : Outcome
  pub rejection_reason : Option String
  pub received_at : ℕ

-- A row of `approval_reconciliation_queue`.
pub record ReconciliationRow : Type 0 where
  pub id : ℕ
  pub delivery_id : String
  pub event_name : String
  pub repository_id : ℕ
  pub pull_number : ℕ
  pub signed : SignedLabel
  pub is_draft : Option Bool
  pub is_merged : Option Bool
  pub merge_sha : Option String
  pub expected_policy_version : String
  pub received_at : ℕ
  pub deadline_at : ℕ
  pub claimed_at : Option ℕ
  pub lease_expires_at : Option ℕ
  pub attempt_count : ℕ
  pub retry_at : Option ℕ
  pub completed_at : Option ℕ
  pub last_error : Option String
