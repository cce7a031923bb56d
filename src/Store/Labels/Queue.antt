-- ===== src/Store/Labels/Queue.antt =====
-- reviewer/state.py: the entry of a signed webhook into the queue of approval reconciliations, its
-- completion, and its rejection after the deadline. `is_github_timestamp` stands for the round trip of
-- a text through the standard library's `strptime` and `strftime`.
use dohwa_hermes_stack.Base.{
  ℕ, ◌+◌, ◌*◌, Bool, true, false, not, ◌&&◌, ◌||◌, Option, none, some, [], ◌∷◌, ◌++◌, String, ◌==◌,
  ◌=t◌, opt_eq, is_none, ltb, leb, all, length, find_row, max_key, Result, ok, err, value_error,
  runtime_error, require, refuse, ◌>>=◌, ◌>>◌, if◌then◌else◌, codes, text_length,
}
use dohwa_hermes_stack.Models.{WebhookEvent}
use dohwa_hermes_stack.Approval.Checks.{is_hex}
use dohwa_hermes_stack.Store.Tables.{StateStore}
use dohwa_hermes_stack.Store.Tables.Signed.{ReconciliationRow, EvidenceRow, signed_of}
use dohwa_hermes_stack.Store.Ingest.Targets.{action_in}
use dohwa_hermes_stack.Store.Reconciliations.{is_reconciliation, owns_reconciliation}
use dohwa_hermes_stack.Store.Labels.Record.{
  Claim, LabelResult, same_identity, must_row, is_evidence, complete_in_transaction, reject,
}
use dohwa_hermes_stack.Store.Labels.Apply.{evidence_result}

abbrev is_filled : Option String → Bool
is_filled none = false
is_filled (some s) = not (s =t "")

abbrev is_positive : Option ℕ → Bool
is_positive none = false
is_positive (some n) = ltb 0 n

abbrev is_sha : ℕ → Option String → Bool
is_sha n none = false
is_sha n (some s) = is_hex n s

abbrev is_optional_sha : Option String → Bool
is_optional_sha none = true
is_optional_sha (some s) = is_hex 40 s

abbrev is_stamped : (String → Bool) → Option String → Bool
is_stamped is_github_timestamp none = false
is_stamped is_github_timestamp (some s) = is_github_timestamp s

-- `_require_approval_reconciliation_event`.
unfoldable pub require_event : (String → Bool) → WebhookEvent → Result (Unit {0})
unfolding is_hex
require_event is_github_timestamp e = do
  require
      ((e.event_name =t "pull_request" && action_in e.action ("labeled" ∷ "unlabeled" ∷ []))
        && ((not (e.delivery_id =t "")
              && all is_filled (
                  e.repository ∷ e.base_sha ∷ e.head_sha ∷ e.label_node_id ∷ e.label_name
                  ∷ e.sender_node_id ∷ e.sender_login ∷ e.sender_type ∷ e.pull_updated_at
                  ∷ e.payload_sha256 ∷ []))
            && (all is_positive (
                  e.repository_id ∷ e.installation_id ∷ e.pull_number ∷ e.label_id ∷ e.sender_id
                  ∷ [])
                && ((is_sha 64 e.payload_sha256 && is_sha 40 e.base_sha)
                    && (is_sha 40 e.head_sha && is_optional_sha e.merge_sha)))))
      (value_error "webhook lacks complete signed approval reconciliation evidence")
  require (is_stamped is_github_timestamp e.pull_updated_at)
      (value_error "pull_updated_at must be a canonical GitHub timestamp")

-- `[A-Za-z0-9._-]{1,64}`.
abbrev is_policy_code : ℕ → Bool
is_policy_code c =
    ((leb b'A' c && leb c b'Z') || (leb b'a' c && leb c b'z'))
    || ((leb b'0' c && leb c b'9') || (c == b'.' || (c == b'_' || c == b'-')))

unfoldable pub is_policy_version : String → Bool
is_policy_version s =
    leb 1 (length (codes s)) && (leb (length (codes s)) 64 && all is_policy_code (codes s))

abbrev pub number_of : Option ℕ → ℕ
number_of none = 0
number_of (some n) = n

-- The new row of the queue, due at once.
abbrev pub queued_row : ℕ → ℕ → ℕ → String → WebhookEvent → ReconciliationRow
queued_row id now window policy_version e = record {
  id = id;
  delivery_id = e.delivery_id;
  event_name = e.event_name;
  repository_id = number_of e.repository_id;
  pull_number = number_of e.pull_number;
  signed = signed_of e;
  is_draft = e.is_draft;
  is_merged = e.is_merged;
  merge_sha = e.merge_sha;
  expected_policy_version = policy_version;
  received_at = now;
  deadline_at = now + window * 1_000_000;
  claimed_at = none;
  lease_expires_at = none;
  attempt_count = 0;
  retry_at = some now;
  completed_at = none;
  last_error = none;
}

abbrev pub is_queued : String → ReconciliationRow → Bool
is_queued i r = r.delivery_id =t i

-- What is known of the delivery: a row of the queue, or its evidence.
unfoldable pub enqueue_unless :
    ℕ
    → ℕ
    → String
    → WebhookEvent
    → StateStore
    → Option ReconciliationRow
    → Option EvidenceRow
    → Result (Bool × StateStore)
unfolding same_identity max_key
enqueue_unless now window policy_version e s (some row) _ = do
  require (opt_eq ◌=t◌ row.signed.payload_sha256 e.payload_sha256)
      (runtime_error "webhook delivery or payload identity conflicts")
  require (same_identity row e) (runtime_error "webhook delivery signed identity conflicts")
  ok (false, s)
enqueue_unless now window policy_version e s none (some terminal) = do
  require (opt_eq ◌=t◌ terminal.signed.payload_sha256 e.payload_sha256)
      (runtime_error "webhook delivery or payload identity conflicts")
  ok (false, s)
enqueue_unless now window policy_version e s none none = ok (
  true,
  record s {
    reconciliations =
        s.reconciliations
        ++ queued_row (max_key (λ (r : ReconciliationRow). r.id) s.reconciliations + 1) now window
            policy_version e
          ∷ [];
  },
)

unfoldable pub enqueue_approval_reconciliation :
    (String → Bool) → ℕ → WebhookEvent → String → ℕ → StateStore → Result (Bool × StateStore)
unfolding require_event is_policy_version enqueue_unless find_row
enqueue_approval_reconciliation is_github_timestamp now e policy_version window s = do
  require_event is_github_timestamp e
  require (is_policy_version policy_version) (value_error "expected_policy_version is invalid")
  require (leb 1 window && leb window 3_600)
      (value_error "window_seconds must be an integer from 1 to 3600")
  enqueue_unless now window policy_version e s
      (find_row (is_queued e.delivery_id) s.reconciliations)
      (find_row (is_evidence e.delivery_id) s.evidence)

unfoldable pub complete_approval_reconciliation : ℕ → Claim → StateStore → Result StateStore
unfolding complete_in_transaction find_row
complete_approval_reconciliation now c s = do
  row ← must_row (find_row (is_reconciliation c.reconciliation_id) s.reconciliations)
  (if is_none row.completed_at then complete_in_transaction now c row none s else ok s)

-- `_approval_reconciliation_event_from_row`.
abbrev pub event_from_row : ReconciliationRow → WebhookEvent
event_from_row r = record {
  delivery_id = r.delivery_id;
  event_name = r.event_name;
  action = r.signed.action;
  repository_id = some r.repository_id;
  repository = r.signed.repository;
  installation_id = r.signed.installation_id;
  pull_number = some r.pull_number;
  base_sha = r.signed.signed_base_sha;
  head_sha = r.signed.signed_head_sha;
  is_draft = r.is_draft;
  is_merged = r.is_merged;
  merge_sha = r.merge_sha;
  label_id = r.signed.label_id;
  label_node_id = r.signed.label_node_id;
  label_name = r.signed.label_name;
  sender_id = r.signed.sender_github_user_id;
  sender_node_id = r.signed.sender_node_id;
  sender_login = r.signed.sender_login;
  sender_type = r.signed.sender_type;
  pull_updated_at = r.signed.pull_updated_at;
  payload_sha256 = r.signed.payload_sha256;
}

-- `_approval_evidence_result`.
unfoldable pub approval_evidence_result : String → Bool → StateStore → Result LabelResult
unfolding evidence_result find_row
approval_evidence_result delivery_id duplicate s =
    elim (find_row (is_evidence delivery_id) s.evidence) [
      | none ↦ err (runtime_error "completed approval reconciliation has no terminal evidence")
      | some r ↦ ok (evidence_result s duplicate r)
    ]

-- `_record_rejected_approval_reconciliation`. The reconciliation is completed by its caller, so the
-- rejection is recorded for a ticket without a claim.
unfoldable pub record_rejected :
    ℕ → WebhookEvent → String → Bool → ℕ → StateStore → Result (LabelResult × StateStore)
unfolding evidence_result reject find_row
record_rejected now e reason affects received_at s =
    elim (find_row (is_evidence e.delivery_id) s.evidence) [
      | some r ↦
          require (opt_eq ◌=t◌ r.signed.payload_sha256 e.payload_sha256)
            (runtime_error "webhook delivery or payload identity conflicts")
          >> ok (evidence_result s true r, s)
      | none ↦
          reject (record { now = now; webhook = e; received_at = received_at; claimed = none })
            reason none none affects s
    ]

-- `_require_reconciliation_reason`, and the two reasons of a timeout.
abbrev pub is_timeout_reason : String → Bool
is_timeout_reason r =
    r =t "TIMELINE_EVENT_VISIBILITY_TIMEOUT" || r =t "RECONCILIATION_DEADLINE_EXCEEDED"

unfoldable pub reject_timed_out_row :
    ℕ → Claim → String → Bool → StateStore → ReconciliationRow → Result (LabelResult × StateStore)
unfolding record_rejected complete_in_transaction
reject_timed_out_row now c reason affects s row = do
  require (owns_reconciliation c.claimed_at c.attempt_count row)
      (runtime_error "approval reconciliation claim ownership changed")
  refuse (ltb now row.deadline_at)
      (runtime_error "approval reconciliation deadline has not expired")
  r ← record_rejected now (event_from_row row) reason affects row.received_at s
  t ← complete_in_transaction now c row (some reason) r.1
  ok (r.0, t)

unfoldable pub reject_timed_out_approval_reconciliation :
    ℕ → Claim → String → Bool → StateStore → Result (LabelResult × StateStore)
unfolding reject_timed_out_row approval_evidence_result find_row
reject_timed_out_approval_reconciliation now c reason affects s = do
  refuse (reason =t "" || ltb 2_000 (text_length reason))
      (value_error "reconciliation rejection reason is required")
  require (is_timeout_reason reason) (value_error "unsupported reconciliation timeout reason")
  row ← must_row (find_row (is_reconciliation c.reconciliation_id) s.reconciliations)
  (if is_none row.completed_at
      then reject_timed_out_row now c reason affects s row
      else approval_evidence_result row.delivery_id true s >>= λ r. ok (r, s))
