-- ===== src/Store/Labels/Record.antt =====
-- reviewer/state.py: the inner functions of `_apply_github_label_approval` that complete the
-- reconciliation, record the evidence, move the job to a person and reject, with the methods of the
-- store that share them.
use dohwa_hermes_stack.Base.{
  ℕ, ◌+◌, Bool, true, false, not, ◌&&◌, Option, none, some, [], ◌∷◌, ◌++◌, String, ◌==◌, ◌=t◌,
  opt_eq, sql_eq, is_none, ltb, any, find_row, first_row, update_rows, count_rows, max_key, Result,
  ok, err, value_error, runtime_error, key_error, integrity_error, require, refuse, ◌>>=◌, ◌>>◌,
  if◌then◌else◌, Value, null, str, object, end, field,
}
use dohwa_hermes_stack.Models.{
  human_review, ReviewJob, WebhookEvent, ReviewState, ◌=s◌, state_in, allowed_transitions,
}
use dohwa_hermes_stack.Approval.Checks.{is_hex}
use dohwa_hermes_stack.Store.Tables.{StateStore, OutboxRow}
use dohwa_hermes_stack.Store.Tables.Signed.{
  ReconciliationRow, EvidenceRow, Outcome, rejected, signed_of, same_signed,
}
use dohwa_hermes_stack.Store.Ingest.{is_job}
use dohwa_hermes_stack.Store.Invalidate.{invalidate_job_attempts}
use dohwa_hermes_stack.Store.Reconciliations.{
  is_reconciliation, owns_reconciliation, is_owned_reconciliation,
}

-- The three claim fields of a reconciliation.
pub record Claim : Type 0 where
  pub reconciliation_id : ℕ
  pub claimed_at : ℕ
  pub attempt_count : ℕ

-- The claim fields are given together, and are positive.
unfoldable pub claim_of : Option ℕ → Option ℕ → Option ℕ → Result (Option Claim)
claim_of none none none = ok none
claim_of (some i) (some claimed_at) (some n) = do
  refuse (i == 0) (value_error "reconciliation_id must be a positive integer")
  refuse (n == 0) (value_error "reconciliation_attempt_count must be a positive integer")
  ok (some (record { reconciliation_id = i; claimed_at = claimed_at; attempt_count = n }))
claim_of _ _ _ = err (value_error "approval reconciliation claim fields must be provided together")

-- What a decision is made about: the time of the transaction, the webhook, when its evidence was
-- received, and the claimed row of the queue, if the decision is made for one.
pub record Ticket : Type 0 where
  pub now : ℕ
  pub webhook : WebhookEvent
  pub received_at : ℕ
  pub claimed : Option (Claim × ReconciliationRow)

-- The result of a decision.
pub record LabelResult : Type 0 where
  pub delivery_id : String
  pub outcome : Outcome
  pub reason : Option String
  pub event_id : Option String
  pub approval_id : Option String
  pub generation : Option ℕ
  pub attestation_digest : Option String
  pub duplicate : Bool

abbrev opt_bool : Option Bool → Option ℕ
opt_bool none = none
opt_bool (some true) = some 1
opt_bool (some false) = some 0

-- `_approval_reconciliation_identity(event)` against the columns of a row.
unfoldable pub same_identity : ReconciliationRow → WebhookEvent → Bool
unfolding same_signed
same_identity r e =
    same_signed r.signed (signed_of e)
    && ((r.event_name =t e.event_name
          && (opt_eq ◌==◌ (some r.repository_id) e.repository_id
              && opt_eq ◌==◌ (some r.pull_number) e.pull_number))
        && (opt_eq ◌==◌ (opt_bool r.is_draft) (opt_bool e.is_draft)
            && (opt_eq ◌==◌ (opt_bool r.is_merged) (opt_bool e.is_merged)
                && opt_eq ◌=t◌ r.merge_sha e.merge_sha)))

abbrev pub must_row : Option ReconciliationRow → Result ReconciliationRow
must_row none = err (key_error "unknown approval reconciliation row")
must_row (some r) = ok r

-- `fromisoformat(str(row["lease_expires_at"]))`.
abbrev pub lease_of : Option ℕ → Result ℕ
lease_of none = err (value_error "Invalid isoformat string")
lease_of (some t) = ok t

-- The row of the queue that a decision is made for, with the checks of its claim.
unfoldable pub open_claim :
    ℕ → WebhookEvent → StateStore → Option Claim → Result (Option (Claim × ReconciliationRow))
unfolding find_row same_identity
open_claim now e s none = ok none
open_claim now e s (some c) = do
  row ← must_row (find_row (is_reconciliation c.reconciliation_id) s.reconciliations)
  require (is_none row.completed_at) (runtime_error "approval reconciliation is already terminal")
  require (owns_reconciliation c.claimed_at c.attempt_count row)
      (runtime_error "approval reconciliation claim ownership changed")
  require (same_identity row e) (runtime_error "approval reconciliation signed identity conflicts")
  require (ltb now row.deadline_at) (runtime_error "approval reconciliation deadline expired")
  lease ← lease_of row.lease_expires_at
  require (ltb now lease) (runtime_error "approval reconciliation claim lease expired")
  ok (some (c, row))

abbrev pub is_evidence : String → EvidenceRow → Bool
is_evidence i r = r.delivery_id =t i

-- The evidence has the signed identity of the row of the queue.
unfoldable pub is_terminal_for : ReconciliationRow → EvidenceRow → Bool
unfolding same_signed
is_terminal_for row e =
    same_signed e.signed row.signed
    && (opt_eq ◌==◌ e.repository_id (some row.repository_id)
        && opt_eq ◌==◌ e.pull_number (some row.pull_number))

abbrev pub has_terminal : ReconciliationRow → Option EvidenceRow → Bool
has_terminal row none = false
has_terminal row (some e) = is_terminal_for row e

abbrev pub completed : ℕ → Option String → ReconciliationRow → ReconciliationRow
completed now error r = record r {
  completed_at = some now;
  claimed_at = none;
  lease_expires_at = none;
  retry_at = none;
  last_error = error;
}

unfoldable pub complete_in_transaction :
    ℕ → Claim → ReconciliationRow → Option String → StateStore → Result StateStore
unfolding find_row is_terminal_for update_rows count_rows
complete_in_transaction now c row error s = do
  require (owns_reconciliation c.claimed_at c.attempt_count row)
      (runtime_error "approval reconciliation claim ownership changed")
  require (has_terminal row (find_row (is_evidence row.delivery_id) s.evidence))
      (runtime_error "approval reconciliation requires matching terminal evidence")
  require
      (count_rows (is_owned_reconciliation row.id c.claimed_at c.attempt_count) s.reconciliations
        == 1)
      (runtime_error "approval reconciliation completion CAS failed")
  ok (record s {
    reconciliations =
        update_rows (is_owned_reconciliation row.id c.claimed_at c.attempt_count)
          (completed now error) s.reconciliations;
  })

-- `complete_reconciliation()`.
unfoldable pub complete_claim :
    ℕ → Option (Claim × ReconciliationRow) → StateStore → Result StateStore
unfolding complete_in_transaction
complete_claim now none s = ok s
complete_claim now (some (c, row)) s = complete_in_transaction now c row none s

-- `SELECT * FROM review_jobs ... ORDER BY id DESC LIMIT 1`, the job that a webhook speaks of.
abbrev pub is_job_of : WebhookEvent → ReviewJob → Bool
is_job_of e j =
    (sql_eq ◌==◌ j.repository_id e.repository_id && sql_eq ◌=t◌ (some j.repository) e.repository)
    && (sql_eq ◌==◌ (some j.pull_number) e.pull_number && sql_eq ◌=t◌ (some j.head_sha) e.head_sha)

abbrev pub job_after : ReviewJob → ReviewJob → Bool
job_after a b = ltb b.id a.id

abbrev pub hand_over : ℕ → String → ReviewJob → ReviewJob
hand_over now reason j = record j {
  state = human_review;
  finished_at = some now;
  last_error = some reason;
  retry_at = none;
  updated_at = now;
}

abbrev pub may_be_handed_over : ReviewState → Bool
may_be_handed_over state =
    not (state =s human_review) && state_in human_review (allowed_transitions state)

unfoldable pub move_row_to_human : ℕ → String → StateStore → Option ReviewJob → Result StateStore
unfolding update_rows invalidate_job_attempts
move_row_to_human now reason s none = ok s
move_row_to_human now reason s (some j) =
    if may_be_handed_over j.state
    then invalidate_job_attempts (j.id ∷ []) reason now
        (record s { jobs = update_rows (is_job j.id) (hand_over now reason) s.jobs })
    else ok s

unfoldable pub move_job_to_human : ℕ → WebhookEvent → String → StateStore → Result StateStore
unfolding move_row_to_human first_row
move_job_to_human now e reason s =
    move_row_to_human now reason s (first_row job_after (is_job_of e) s.jobs)

abbrev pub is_payload : Option String → Bool
is_payload none = false
is_payload (some s) = is_hex 64 s

abbrev pub is_event_taken : Option String → EvidenceRow → Bool
is_event_taken event_id r = sql_eq ◌=t◌ r.event_id event_id

-- The insertion of evidence, which its keys and its CHECK constraints may refuse.
unfoldable pub insert_evidence : EvidenceRow → StateStore → Result StateStore
unfolding is_hex
insert_evidence row s = do
  require (is_payload row.signed.payload_sha256)
      (integrity_error "github_label_webhook_evidence.payload_sha256")
  refuse (any (is_evidence row.delivery_id) s.evidence)
      (integrity_error "github_label_webhook_evidence.delivery_id")
  refuse (any (is_event_taken row.event_id) s.evidence)
      (integrity_error "idx_github_label_evidence_event")
  ok (record s { evidence = s.evidence ++ row ∷ [] })

abbrev pub evidence_of :
    Ticket → Option String → Option String → Outcome → Option String → EvidenceRow
evidence_of k event_id review_context_id outcome reason = record {
  delivery_id = k.webhook.delivery_id;
  repository_id = k.webhook.repository_id;
  pull_number = k.webhook.pull_number;
  signed = signed_of k.webhook;
  event_id = event_id;
  review_context_id = review_context_id;
  outcome = outcome;
  rejection_reason = reason;
  received_at = k.received_at;
}

-- `record_evidence(...)`, which completes the reconciliation too.
unfoldable pub record_evidence :
    Ticket
    → Option String
    → Option String
    → Outcome
    → Option String
    → StateStore
    → Result StateStore
unfolding insert_evidence complete_claim
record_evidence k event_id review_context_id outcome reason s = do
  t ← insert_evidence (evidence_of k event_id review_context_id outcome reason) s
  complete_claim k.now k.claimed t

-- A new row of `approval_outbox`.
abbrev pub outgoing :
    ℕ → Option String → String → String → String → ℕ → Option String → Value → ℕ → OutboxRow
outgoing id approval_id delivery_id action repository pull_number label_name payload now = record {
  id = id;
  delivery_id = delivery_id;
  action = action;
  repository = repository;
  pull_number = pull_number;
  label_name = label_name;
  approval_id = approval_id;
  payload = payload;
  created_at = now;
  claimed_at = none;
  attempt_count = 0;
  delivered_at = none;
  retry_at = none;
  last_error = none;
}

-- The insertion of a notice. Columns that are NOT NULL and the unique pair of delivery and action may
-- refuse it.
unfoldable pub insert_outbox :
    Option String
    → String
    → String
    → Option String
    → Option ℕ
    → Option String
    → Value
    → ℕ
    → StateStore
    → Result StateStore
unfolding max_key
insert_outbox approval_id delivery_id action (some repository) (some pull_number) label_name payload
      now s =
    do
      refuse (any (λ (r : OutboxRow). r.delivery_id =t delivery_id && r.action =t action) s.outbox)
          (integrity_error "approval_outbox.delivery_id, approval_outbox.action")
      ok (record s {
        outbox =
            s.outbox
            ++ outgoing (max_key (λ (r : OutboxRow). r.id) s.outbox + 1) approval_id delivery_id
                action repository pull_number label_name payload now
              ∷ [];
      })
insert_outbox _ _ _ _ _ _ _ _ _ =
    err (integrity_error "NOT NULL constraint failed: approval_outbox")

abbrev opt_text : Option String → Value
opt_text none = null
opt_text (some s) = str s

abbrev pub rejection_payload : String → WebhookEvent → Value
rejection_payload reason e = object (
    field "reason" (str reason) (
      field "sender_type" (opt_text e.sender_type)
        (field "webhook_action" (opt_text e.action) end)))

abbrev pub rejection : Ticket → String → Option String → Option ℕ → LabelResult
rejection k reason event_id generation = record {
  delivery_id = k.webhook.delivery_id;
  outcome = rejected;
  reason = some reason;
  event_id = event_id;
  approval_id = none;
  generation = generation;
  attestation_digest = none;
  duplicate = false;
}

-- `reject(...)`: the evidence, a notice, and the job of the webhook handed to a person if the
-- decision affects what is current.
unfoldable pub reject :
    Ticket
    → String
    → Option String
    → Option ℕ
    → Bool
    → StateStore
    → Result (LabelResult × StateStore)
unfolding record_evidence insert_outbox move_job_to_human
reject k reason event_id generation affects_current s = do
  t ← record_evidence k event_id none rejected (some reason) s
  u ←
      insert_outbox none k.webhook.delivery_id "DISCORD_REPORT" k.webhook.repository
        k.webhook.pull_number k.webhook.label_name (rejection_payload reason k.webhook) k.now t
  v ← (if affects_current then move_job_to_human k.now k.webhook reason u else ok u)
  ok (rejection k reason event_id generation, v)
