-- ===== src/Store/Labels/Apply.antt =====
-- reviewer/state.py: `_apply_github_label_approval`, from its parts.
use dohwa_hermes_stack.Base.{
  ℕ, Bool, true, not, ◌&&◌, Option, none, some, String, ◌==◌, ◌=t◌, opt_eq, find_row, length,
  Result, ok, err, value_error, runtime_error, assertion_error, require, ◌>>=◌, ◌>>◌, if◌then◌else◌,
  Value,
}
use dohwa_hermes_stack.Models.{WebhookEvent}
use dohwa_hermes_stack.Approval.Ttl.{GithubClockObservation}
use dohwa_hermes_stack.Store.Tables.{StateStore, Approval}
use dohwa_hermes_stack.Store.Tables.Signed.{
  TimelineItem, signed_approval_candidate, rejected_ambiguous, EvidenceRow, accepted,
}
use dohwa_hermes_stack.Store.Labels.Record.{
  claim_of, Ticket, LabelResult, open_claim, is_evidence, complete_claim, record_evidence, reject,
}
use dohwa_hermes_stack.Store.Labels.Timeline.{
  LabelFold, event_generation, take, drop, Reading, turned_away, found, recorded_generation,
  Snapshot, stored_events, read_timeline,
}
use dohwa_hermes_stack.Store.Labels.Judge.{Settings, Verdict, refused, removes, approves, judge}
use dohwa_hermes_stack.Store.Labels.Accept.{write_events, acceptance, Runtime, write_approval}

-- `previous["rejection_reason"] or previous["approval_reason"]`: an empty text is no reason.
abbrev pub or_reason : Option String → Option String → Option String
or_reason (some r) other = if r =t "" then other else some r
or_reason none other = other

abbrev pub reason_of : Option Approval → Option String
reason_of none = none
reason_of (some a) = a.invalidation_reason

abbrev pub id_of : Option Approval → Option String
id_of none = none
id_of (some a) = some a.approval_id

abbrev pub digest_of : Option Approval → Option String
digest_of none = none
digest_of (some a) = some a.attestation_digest

abbrev pub generation_of : Option String → StateStore → Option ℕ
generation_of none s = none
generation_of (some event_id) s = recorded_generation event_id s

abbrev pub is_approval_of : String → Approval → Bool
is_approval_of delivery_id a = a.webhook_delivery_id =t delivery_id

-- What was decided before: the evidence, left-joined with the approval of the delivery.
unfoldable pub evidence_result : StateStore → Bool → EvidenceRow → LabelResult
unfolding find_row recorded_generation
evidence_result s duplicate r =
    let a = find_row (is_approval_of r.delivery_id) s.approvals in
    record {
      delivery_id = r.delivery_id;
      outcome = r.outcome;
      reason = or_reason r.rejection_reason (reason_of a);
      event_id = r.event_id;
      approval_id = id_of a;
      generation = generation_of r.event_id s;
      attestation_digest = digest_of a;
      duplicate = duplicate;
    }

-- A delivery that was decided before.
unfoldable pub answer_again : Ticket → EvidenceRow → StateStore → Result (LabelResult × StateStore)
unfolding complete_claim evidence_result
answer_again k r s = do
  require (opt_eq ◌=t◌ r.signed.payload_sha256 k.webhook.payload_sha256)
      (runtime_error "webhook delivery or payload identity conflicts")
  t ← complete_claim k.now k.claimed s
  ok (evidence_result t true r, t)

-- `reason not in {"NON_CURRENT_LABEL_EVENT", "LABEL_BEFORE_REVIEW"}`.
abbrev pub affects_current : String → Bool
affects_current reason =
    not (reason =t "NON_CURRENT_LABEL_EVENT") && not (reason =t "LABEL_BEFORE_REVIEW")

module _ (p : Runtime) where
  -- The decision is written. The new events of the timeline go up to the event of the webhook.
  unfoldable pub settle :
      Ticket
      → Snapshot
      → Settings
      → String
      → TimelineItem
      → LabelFold
      → StateStore
      → Verdict
      → Result (LabelResult × StateStore)
  unfolding write_events record_evidence reject write_approval event_generation stored_events
  settle k n c fresh i f s (refused reason) = do
    t ←
        write_events k n c.target_label f rejected_ambiguous i
          (drop (length (stored_events n.repository_id n.pull_number s))
            (take i.ordinal n.timeline))
          s
    reject k reason (some i.event_id) (some (event_generation f i.event_id))
        (affects_current reason) t
  settle k n c fresh i f s removes = do
    t ←
        write_events k n c.target_label f signed_approval_candidate i
          (drop (length (stored_events n.repository_id n.pull_number s))
            (take i.ordinal n.timeline))
          s
    u ← record_evidence k (some i.event_id) none accepted none t
    (if opt_eq ◌=t◌ k.webhook.action (some "unlabeled")
        then ok (acceptance k i (event_generation f i.event_id) none none none, u)
        else err assertion_error)
  settle k n c fresh i f s (approves v) = do
    t ←
        write_events k n c.target_label f signed_approval_candidate i
          (drop (length (stored_events n.repository_id n.pull_number s))
            (take i.ordinal n.timeline))
          s
    u ← record_evidence k (some i.event_id) (some v.attempt.review_context_id) accepted none t
    write_approval p k n c.target_label fresh (event_generation f i.event_id) i v u

  unfoldable pub decide_reading :
      Ticket
      → Snapshot
      → Settings
      → GithubClockObservation
      → Value
      → String
      → StateStore
      → Reading
      → Result (LabelResult × StateStore)
  unfolding settle judge reject
  decide_reading k n c clock monotonic fresh s (turned_away reason generation affects) =
      reject k reason none generation affects s
  decide_reading k n c clock monotonic fresh s (found i f) = do
    verdict ← judge p.instant c k.webhook n clock monotonic i f s
    settle k n c fresh i f s verdict

  unfoldable pub decide :
      (String → String)
      → Ticket
      → Snapshot
      → Settings
      → GithubClockObservation
      → Value
      → String
      → StateStore
      → Result (LabelResult × StateStore)
  unfolding decide_reading answer_again read_timeline find_row
  decide lower k n c clock monotonic fresh s =
      elim (find_row (is_evidence k.webhook.delivery_id) s.evidence) [
        | some r ↦ answer_again k r s
        | none ↦ decide_reading k n c clock monotonic fresh s (read_timeline lower k.webhook n s)
      ]

  abbrev pub received : ℕ → Option ℕ → ℕ
  received now none = now
  received now (some t) = t

  -- `evidence_received_at` is a time, so its form needs no check. `fresh` is the new UUIDv7.
  unfoldable pub apply_github_label_approval :
      (String → String)
      → ℕ
      → Snapshot
      → WebhookEvent
      → Settings
      → GithubClockObservation
      → Value
      → Option ℕ
      → Option ℕ
      → Option ℕ
      → Option ℕ
      → String
      → StateStore
      → Result (LabelResult × StateStore)
  unfolding claim_of open_claim decide
  apply_github_label_approval lower now n e c clock monotonic received_at id claimed_at
        attempt_count fresh s =
      do
        require (n.total_count == length n.timeline)
            (value_error "timeline count does not match its immutable snapshot")
        claim ← claim_of id claimed_at attempt_count
        claimed ← open_claim now e s claim
        decide lower
            (record {
              now = now;
              webhook = e;
              received_at = received now received_at;
              claimed = claimed;
            })
            n c clock monotonic fresh s
