-- ===== src/Store/Labels/Accept.antt =====
-- reviewer/state.py: the part of `_apply_github_label_approval` that writes a decision: the events of
-- the timeline, and for an approval its row, its three transitions, the job and the two notices.
use dohwa_hermes_stack.Base.{
  ℕ, ◌+◌, Bool, false, ◌&&◌, ◌||◌, Option, none, some, List, [], ◌∷◌, ◌++◌, String, ◌==◌, ◌=t◌, any,
  select, order_by, update_rows, ltb, leb, Result, ok, value_error, integrity_error, require,
  refuse, ◌>>=◌, ◌>>◌, if◌then◌else◌, Value, str, int, pos, object, end, field, codes, decimal_text,
}
use Prim.Native.String.{◌++◌ as text_append}
use dohwa_hermes_stack.Models.{human_review, ReviewJob}
use dohwa_hermes_stack.Approval.Checks.{positive_int, ascii_token, is_hex, is_hex_code}
use dohwa_hermes_stack.Approval.Status.{ApprovalStatus}
use dohwa_hermes_stack.Approval.Ttl.{approval_ttl}
use dohwa_hermes_stack.Store.Tables.{
  StateStore, Approval, ApprovalTransition, is_open_approval, ◌=a◌,
}
use dohwa_hermes_stack.Store.Tables.Signed.{
  TimelineItem, Disposition, order_only_no_approval, LabelEventRow, accepted,
}
use dohwa_hermes_stack.Store.Ingest.{is_job}
use dohwa_hermes_stack.Store.Invalidate.{approval_before, invalidate_open_approvals}
use dohwa_hermes_stack.Store.Labels.Record.{Ticket, LabelResult, insert_outbox}
use dohwa_hermes_stack.Store.Labels.Timeline.{LabelFold, Snapshot, event_generation}
use dohwa_hermes_stack.Store.Labels.Judge.{Approved}

abbrev pub clashes : TimelineItem → LabelEventRow → Bool
clashes i r =
    r.item.event_id =t i.event_id
    || (r.item.repository_id == i.repository_id
        && (r.item.pull_number == i.pull_number && r.item.ordinal == i.ordinal))

-- The insertion of an event, which the keys of the table and its CHECK constraints may refuse.
unfoldable pub insert_event : ℕ → Disposition → ℕ → TimelineItem → StateStore → Result StateStore
insert_event generation disposition now i s = do
  require (ltb 0 i.repository_id && (ltb 0 i.pull_number && ltb 0 i.ordinal))
      (integrity_error "CHECK constraint failed: github_label_events")
  refuse (any (clashes i) s.label_events) (integrity_error "github_label_events")
  ok (record s {
    label_events =
        s.label_events
        ++ (record {
          item = i;
          generation = generation;
          disposition = disposition;
          recorded_at = now;
        })
          ∷ [];
  })

-- The active approvals that rest on a generation of the label.
unfoldable pub approvals_of_generation : Snapshot → ℕ → StateStore → List Approval
unfolding order_by
approvals_of_generation n generation s = order_by approval_before (
    select
      (λ (a : Approval).
        a.repository_id == n.repository_id
        && (a.pull_number == n.pull_number
            && (a.generation == generation && a.status =a ApprovalStatus.active)))
      s.approvals)

-- One turn of the loop over the new events.
unfoldable pub write_event :
    Ticket
    → Snapshot
    → String
    → LabelFold
    → Disposition
    → TimelineItem
    → TimelineItem
    → StateStore
    → Result StateStore
unfolding insert_event approvals_of_generation invalidate_open_approvals event_generation
write_event k n target f disposition candidate i s = do
  t ←
      insert_event (event_generation f i.event_id)
        (if i.event_id =t candidate.event_id then disposition else order_only_no_approval) k.now i s
  (if i.label_name =t target && i.action =t "UNLABELED"
      then invalidate_open_approvals (approvals_of_generation n (event_generation f i.event_id) t)
          "LABEL_REMOVED" k.now t
      else ok t)

unfoldable pub write_events :
    Ticket
    → Snapshot
    → String
    → LabelFold
    → Disposition
    → TimelineItem
    → List TimelineItem
    → StateStore
    → Result StateStore
unfolding write_event
write_events k n target f disposition candidate [] s = ok s
write_events k n target f disposition candidate (i ∷ is) s = do
  t ← write_event k n target f disposition candidate i s
  write_events k n target f disposition candidate is t

-- A lowercase hexadecimal digit, and the form of `str(uuid.UUID(value))` of version 7:
-- `8-4-4-4-12` digits, the version 7 at its place, and the variant 8, 9, a or b at its.
abbrev is_uuid7_code : ℕ → ℕ → Bool
is_uuid7_code place c =
    if place == 8 || (place == 13 || (place == 18 || place == 23))
    then c == b'-'
    else if place == 14
    then c == b'7'
    else if place == 19
    then c == b'8' || (c == b'9' || (c == b'a' || c == b'b'))
    else is_hex_code c

abbrev is_uuid7_from : ℕ → List ℕ → Bool
is_uuid7_from place [] = place == 36
is_uuid7_from place (c ∷ cs) =
    ltb place 36 && (is_uuid7_code place c && is_uuid7_from (place + 1) cs)

unfoldable pub is_uuid7 : String → Bool
is_uuid7 s = is_uuid7_from 0 (codes s)

-- The constructor of `Approval`, with its checks. The row has the digest in addition.
unfoldable pub new_approval : Approval → Result Approval
unfolding is_uuid7 positive_int is_hex ascii_token
new_approval a = do
  require (is_uuid7 a.approval_id) (value_error "approval_id must be a canonical UUIDv7")
  _ ← positive_int (int (pos a.repository_id))
  _ ← positive_int (int (pos a.pull_number))
  require (is_uuid7 a.review_attempt_id)
      (value_error "review_attempt_id must be a canonical UUIDv7")
  require
      (a.review_context_id =t text_append "dohwa-review-context-attempt/v1:" a.review_attempt_id)
      (value_error "review_context_id does not bind review_attempt_id")
  require (is_hex 64 a.content_id) (value_error "content_id must be a lowercase SHA-256")
  _ ← ascii_token 256 (str a.label_event_id)
  _ ← ascii_token 256 (str a.webhook_delivery_id)
  _ ← positive_int (int (pos a.approver_github_user_id))
  _ ← positive_int (int (pos a.generation))
  refuse (ltb a.accepted_at a.event_created_at) (value_error "accepted_at precedes label event")
  require (a.expires_at == a.event_created_at + approval_ttl)
      (value_error "expires_at must be derived from the label event")
  ok a

abbrev pub collides : Approval → Approval → Bool
collides a b =
    (b.approval_id =t a.approval_id || b.label_event_id =t a.label_event_id)
    || ((b.webhook_delivery_id =t a.webhook_delivery_id
          || b.attestation_digest =t a.attestation_digest)
        || (b.review_context_id =t a.review_context_id && is_open_approval b.status))

-- The insertion of a pending approval. The unique columns, and the index of open approvals of a
-- context, may refuse it.
unfoldable pub insert_approval : Approval → StateStore → Result StateStore
insert_approval a s = do
  refuse (any (collides a) s.approvals) (integrity_error "approvals")
  ok (record s { approvals = s.approvals ++ a ∷ [] })

abbrev pub entry :
    String → ℕ → Option ApprovalStatus → ApprovalStatus → Option String → ℕ → ApprovalTransition
entry id sequence from_status to_status reason now = record {
  approval_id = id;
  sequence = sequence;
  from_status = from_status;
  to_status = to_status;
  reason = reason;
  recorded_at = now;
}

abbrev pub gates_unavailable : String
gates_unavailable = "ATOMIC_SERVER_GATES_UNAVAILABLE"

-- `UPDATE approvals SET status = 'ACTIVE' WHERE approval_id = ? AND status = 'PENDING'`.
unfoldable pub activate_approval : String → StateStore → StateStore
unfolding update_rows
activate_approval id s = record s {
  approvals =
      update_rows (λ (a : Approval). a.approval_id =t id && a.status =a ApprovalStatus.pending)
        (λ a. record a { status = ApprovalStatus.active }) s.approvals;
}

-- `UPDATE approvals SET status = 'INVALIDATED', ... WHERE approval_id = ? AND status = 'ACTIVE'`.
unfoldable pub close_approval : ℕ → String → StateStore → StateStore
unfolding update_rows
close_approval now id s = record s {
  approvals =
      update_rows (λ (a : Approval). a.approval_id =t id && a.status =a ApprovalStatus.active)
        (λ a. record a {
          status = ApprovalStatus.invalidated;
          invalidated_at = some now;
          invalidation_reason = some gates_unavailable;
        })
        s.approvals;
}

-- The approval is inserted as pending, made active and invalidated, with an entry for each step.
unfoldable pub pass_through : ℕ → Approval → StateStore → Result StateStore
unfolding insert_approval activate_approval close_approval
pass_through now a s = do
  t ← insert_approval a s
  let u = close_approval now a.approval_id (activate_approval a.approval_id t)
  refuse
      (any (λ (x : ApprovalTransition). x.approval_id =t a.approval_id && leb x.sequence 3) s.audit)
      (integrity_error "approval_transition_audit.approval_id, approval_transition_audit.sequence")
  ok (record u {
    audit =
        s.audit
        ++ entry a.approval_id 1 none ApprovalStatus.pending none now
          ∷ entry a.approval_id 2 (some ApprovalStatus.pending) ApprovalStatus.active none now
          ∷ entry a.approval_id 3 (some ApprovalStatus.active) ApprovalStatus.invalidated
              (some gates_unavailable) now
          ∷ [];
  })

abbrev pub stop_job : ℕ → ReviewJob → ReviewJob
stop_job now j = record j {
  state = human_review;
  finished_at = some now;
  last_error = some gates_unavailable;
  retry_at = none;
  updated_at = now;
}

-- The payload of `_approval_attestation_digest`. The times are the texts that the store writes.
abbrev pub attestation_payload : Approval → String → String → String → Value
attestation_payload a event_created_at accepted_at expires_at = object (
    field "accepted_at" (str accepted_at) (
      field "approval_id" (str a.approval_id) (
        field "approver_github_user_id_decimal" (str (decimal_text a.approver_github_user_id)) (
          field "content_id" (str a.content_id) (
            field "event_created_at" (str event_created_at) (
              field "expires_at" (str expires_at) (
                field "generation_decimal" (str (decimal_text a.generation)) (
                  field "label_event_id" (str a.label_event_id) (
                    field "pull_number_decimal" (str (decimal_text a.pull_number)) (
                      field "repository_id_decimal" (str (decimal_text a.repository_id)) (
                        field "review_attempt_id" (str a.review_attempt_id) (
                          field "review_context_id" (str a.review_context_id) (
                            field "schema" (str "dohwa-approval-attestation/v1") (
                              field "source" (str "github_label") (
                                field "source_version" (str "approval-ttl/v1") (
                                  field "webhook_delivery_id" (str a.webhook_delivery_id)
                                    end))))))))))))))))

-- The payload of the two notices of an approval.
abbrev pub approval_payload : Approval → Value
approval_payload a = object (
    field "approval_id" (str a.approval_id) (
      field "generation" (int (pos a.generation)) (
        field "label_event_id" (str a.label_event_id) (
          field "reason" (str gates_unavailable) (
            field "repository_id" (int (pos a.repository_id))
              (field "review_context_id" (str a.review_context_id) end))))))

-- The integer of a webhook's sender, which an allowed approver has.
abbrev pub sender_of : Option ℕ → ℕ
sender_of none = 0
sender_of (some i) = i

-- The pending approval, before its digest is known.
abbrev pub draft : Ticket → Snapshot → String → ℕ → ℕ → TimelineItem → Approved → Approval
draft k n approval_id generation created i v = record {
  approval_id = approval_id;
  status = ApprovalStatus.pending;
  repository_id = n.repository_id;
  pull_number = n.pull_number;
  review_context_id = v.attempt.review_context_id;
  review_attempt_id = v.attempt.review_attempt_id;
  content_id = v.attempt.content_id;
  label_event_id = i.event_id;
  webhook_delivery_id = k.webhook.delivery_id;
  approver_github_user_id = sender_of k.webhook.sender_id;
  generation = generation;
  event_created_at = created;
  accepted_at = created;
  expires_at = v.ttl.expires_at;
  attestation_digest = "";
  invalidated_at = none;
  invalidation_reason = none;
}

abbrev pub acceptance :
    Ticket → TimelineItem → ℕ → Option String → Option String → Option String → LabelResult
acceptance k i generation reason approval_id digest = record {
  delivery_id = k.webhook.delivery_id;
  outcome = accepted;
  reason = reason;
  event_id = some i.event_id;
  approval_id = approval_id;
  generation = some generation;
  attestation_digest = digest;
  duplicate = false;
}

-- The standard library's functions on times and digests: `strptime` of a GitHub time, in UTC and in
-- microseconds; `isoformat` with microseconds and `strftime` to a GitHub time; and the SHA-256 of
-- the attestation domain and the canonical JSON of a document, in hexadecimal.
pub record Runtime : Type 0 where
  pub instant : String → Result ℕ
  pub iso : ℕ → String
  pub github_time : ℕ → String
  pub attestation_digest : Value → String

module _ (p : Runtime) where
  open p use {instant, iso, github_time, attestation_digest}

  unfoldable pub attested : TimelineItem → Approval → Approval
  attested i a = record a {
    attestation_digest =
        attestation_digest
          (attestation_payload a i.created_at (iso a.accepted_at) (github_time a.expires_at));
  }

  -- The effects of an approval, after its evidence is recorded.
  unfoldable pub write_approval :
      Ticket
      → Snapshot
      → String
      → String
      → ℕ
      → TimelineItem
      → Approved
      → StateStore
      → Result (LabelResult × StateStore)
  unfolding attested new_approval pass_through insert_outbox update_rows
  write_approval k n target approval_id generation i v s = do
    created ← instant i.created_at
    drafted ← new_approval (draft k n approval_id generation created i v)
    let a = attested i drafted
    t ← pass_through k.now a s
    let u = record t { jobs = update_rows (is_job v.job.id) (stop_job k.now) t.jobs }
    w ←
        insert_outbox (some approval_id) k.webhook.delivery_id "REMOVE_LABEL" (some n.repository)
          (some n.pull_number) (some target) (approval_payload a) k.now u
    x ←
        insert_outbox (some approval_id) k.webhook.delivery_id "DISCORD_REPORT" (some n.repository)
          (some n.pull_number) none (approval_payload a) k.now w
    ok (
      acceptance k i generation (some gates_unavailable) (some approval_id)
          (some a.attestation_digest),
      x,
    )
