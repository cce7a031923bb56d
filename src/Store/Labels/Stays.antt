-- ===== src/Store/Labels/Stays.antt =====
-- Label decisions without a new approval, the queue of reconciliations and the expiry of approvals
-- keep the invariant of the state store.
use dohwa_hermes_stack.Base.{
  ℕ, ◌≡◌, sym, ap, subst, ◌∙◌, Bool, true, false, ◌&&◌, ◌||◌, Option, none, some, List, [], ◌∷◌,
  String, ◌⊎◌, arith, ◌==◌, ◌=t◌, opt_eq, find_row, length, leb, ltb, is_none, ok, require_ok,
  refuse_ok, >>=-eq-ok, if◌then◌else◌, if_ok, Option-cases, inl, inr, Value, int, pos, datetime,
  text_length,
}
use dohwa_hermes_stack.Models.{WebhookEvent}
use dohwa_hermes_stack.Approval.Ttl.{GithubClockObservation, is_valid, evaluate_approval_ttl}
use dohwa_hermes_stack.Store.Tables.{StateStore, Approval}
use dohwa_hermes_stack.Store.Tables.Signed.{
  TimelineItem, EvidenceRow, ReconciliationRow, accepted, signed_approval_candidate,
  rejected_ambiguous,
}
use dohwa_hermes_stack.Store.Invalidate.{invalidate_open_approvals}
use dohwa_hermes_stack.Store.Invalidate.Effects.{invalidate_open_approvals-SameWork}
use dohwa_hermes_stack.Store.Consistent.{IsConsistent}
use dohwa_hermes_stack.Store.Reconciliations.{is_reconciliation, owns_reconciliation}
use dohwa_hermes_stack.Store.Labels.Record.{
  Claim, claim_of, Ticket, LabelResult, open_claim, must_row, same_identity, is_evidence,
  complete_in_transaction, complete_claim, record_evidence,
}
use dohwa_hermes_stack.Store.Labels.Timeline.{
  LabelFold, event_generation, take, drop, Reading, turned_away, found, Snapshot, stored_events,
  read_timeline,
}
use dohwa_hermes_stack.Store.Labels.Judge.{
  Settings, Verdict, refused, removes, approves, judge, check_monotonic,
}
use dohwa_hermes_stack.Store.Labels.Accept.{write_events, Runtime}
use dohwa_hermes_stack.Store.Labels.Apply.{
  answer_again, affects_current, settle, decide_reading, decide, received,
  apply_github_label_approval,
}
use dohwa_hermes_stack.Store.Labels.Expire.{
  open_approvals_of, expiry_reason, expire_rows, expire_github_label_approvals,
}
use dohwa_hermes_stack.Store.Labels.Queue.{
  require_event, is_policy_version, is_queued, enqueue_unless, enqueue_approval_reconciliation,
  complete_approval_reconciliation, event_from_row, approval_evidence_result, record_rejected,
  is_timeout_reason, reject_timed_out_row, reject_timed_out_approval_reconciliation,
}
use dohwa_hermes_stack.Store.Labels.Effects.{
  complete_in_transaction-Quiet, complete_claim-Quiet, write_events-Quiet,
}
use dohwa_hermes_stack.Store.Labels.Decided.{record_evidence-Records}
use dohwa_hermes_stack.Store.Labels.Closed.{write_approval-Stops}
use dohwa_hermes_stack.Store.Labels.Keeps.{same-IsConsistent, ok-IsConsistent, reject-IsConsistent}

-- The result names no new approval.
abbrev pub NamesNone : LabelResult → Type 0
NamesNone r = (r.duplicate ≡ true) ⊎ (r.approval_id ≡ none)

module _ (p : Runtime) (lower : String → String) (n : Snapshot) (c : Settings)
    (clock : GithubClockObservation) (m : Value) (fresh : String) where
  settle-IsConsistent :
      (k : Ticket) (i : TimelineItem) (f : LabelFold) (s : StateStore) (v : Verdict)
      (r : LabelResult × StateStore)
      → settle p k n c fresh i f s v ≡ ok r
      → NamesNone r.0
      → IsConsistent s
      → IsConsistent r.1
  unfolding settle
  settle-IsConsistent k i f s (refused reason) r h w inv =
      let new =
        drop (length (stored_events n.repository_id n.pull_number s)) (take i.ordinal n.timeline) in
      let (t, x, h1) =
        >>=-eq-ok (write_events k n c.target_label f rejected_ambiguous i new s) _ h in
      let q = write_events-Quiet k n c.target_label f rejected_ambiguous i new s t x in
      reject-IsConsistent k reason (some i.event_id) (some (event_generation f i.event_id))
        (affects_current reason) t r h1 (same-IsConsistent s t q.jobs q.attempts inv)
  settle-IsConsistent k i f s removes r h w inv =
      let new =
        drop (length (stored_events n.repository_id n.pull_number s)) (take i.ordinal n.timeline) in
      let (t, x, h1) =
        >>=-eq-ok (write_events k n c.target_label f signed_approval_candidate i new s) _ h in
      let q = write_events-Quiet k n c.target_label f signed_approval_candidate i new s t x in
      let (u, y, h2) = >>=-eq-ok (record_evidence k (some i.event_id) none accepted none t) _ h1 in
      let (_, jobs, attempts) =
        record_evidence-Records k (some i.event_id) none accepted none t u y in
      let same : u ≡ r.1 = ground arith in
      subst IsConsistent same (same-IsConsistent s u (jobs ∙ q.jobs) (attempts ∙ q.attempts) inv)
  settle-IsConsistent k i f s (approves v) r h w inv =
      let new =
        drop (length (stored_events n.repository_id n.pull_number s)) (take i.ordinal n.timeline) in
      let (t, x, h1) =
        >>=-eq-ok (write_events k n c.target_label f signed_approval_candidate i new s) _ h in
      let (u, y, h2) =
        >>=-eq-ok
          (record_evidence k (some i.event_id) (some v.attempt.review_context_id) accepted none t) _
          h1 in
      let (_, digest, e) =
        write_approval-Stops p k n c.target_label fresh (event_generation f i.event_id) i v u r
          h2 in
      let new_one = ap (λ z. z.duplicate) e in
      let named = ap (λ z. z.approval_id) e in
      elim w [ inl old ↦ absurd (ground arith) | inr nothing ↦ absurd (ground arith) ]

  answer_again-IsConsistent :
      (k : Ticket) (row : EvidenceRow) (s : StateStore) (r : LabelResult × StateStore)
      → answer_again k row s ≡ ok r
      → IsConsistent s
      → IsConsistent r.1
  unfolding answer_again
  answer_again-IsConsistent k row s r h inv =
      let (_, h1) =
        require_ok (opt_eq ◌=t◌ row.signed.payload_sha256 k.webhook.payload_sha256) _ _ h in
      let (t, x, h2) = >>=-eq-ok (complete_claim k.now k.claimed s) _ h1 in
      let q = complete_claim-Quiet k.now k.claimed s t x in
      let same : t ≡ r.1 = ground arith in
      subst IsConsistent same (same-IsConsistent s t q.jobs q.attempts inv)

  decide_reading-IsConsistent :
      (k : Ticket) (s : StateStore) (x : Reading) (r : LabelResult × StateStore)
      → decide_reading p k n c clock m fresh s x ≡ ok r
      → NamesNone r.0
      → IsConsistent s
      → IsConsistent r.1
  unfolding decide_reading
  decide_reading-IsConsistent k s (turned_away reason generation affects) r h w inv =
      reject-IsConsistent k reason none generation affects s r h inv
  decide_reading-IsConsistent k s (found i f) r h w inv =
      let (v, _, h1) = >>=-eq-ok (judge p.instant c k.webhook n clock m i f s) _ h in
      settle-IsConsistent k i f s v r h1 w inv

  decide-IsConsistent :
      (k : Ticket) (s : StateStore) (r : LabelResult × StateStore)
      → decide p lower k n c clock m fresh s ≡ ok r
      → NamesNone r.0
      → IsConsistent s
      → IsConsistent r.1
  unfolding decide
  decide-IsConsistent k s r h w inv =
      elim (Option-cases (find_row (is_evidence k.webhook.delivery_id) s.evidence)) [
        | inl e ↦
            decide_reading-IsConsistent k s (read_timeline lower k.webhook n s) r (ground arith) w
              inv
        | inr (row, e) ↦ answer_again-IsConsistent k row s r (ground arith) inv
      ]

  pub apply_github_label_approval-IsConsistent :
      (now : ℕ) (e : WebhookEvent) (received_at id claimed_at attempt_count : Option ℕ)
      (s : StateStore) (r : LabelResult × StateStore)
      → apply_github_label_approval p lower now n e c clock m received_at id claimed_at
          attempt_count fresh s
        ≡ ok r
      → NamesNone r.0
      → IsConsistent s
      → IsConsistent r.1
  unfolding apply_github_label_approval
  apply_github_label_approval-IsConsistent now e received_at id claimed_at attempt_count s r h w
        inv =
      let (_, h1) = require_ok (n.total_count == length n.timeline) _ _ h in
      let (claim, _, h2) = >>=-eq-ok (claim_of id claimed_at attempt_count) _ h1 in
      let (claimed, _, h3) = >>=-eq-ok (open_claim now e s claim) _ h2 in
      decide-IsConsistent
        (record {
          now = now;
          webhook = e;
          received_at = received p now received_at;
          claimed = claimed;
        })
        s r h3 w inv

unchanged-IsConsistent :
    (s : StateStore) (r : Bool × StateStore)
    → ok (false, s) ≡ ok r
    → IsConsistent s
    → IsConsistent r.1
unchanged-IsConsistent s r h inv = let same : s ≡ r.1 = ground arith in subst IsConsistent same inv

enqueue_unless-IsConsistent :
    (now window : ℕ) (policy : String) (e : WebhookEvent) (s : StateStore)
    (x : Option ReconciliationRow) (y : Option EvidenceRow) (r : Bool × StateStore)
    → enqueue_unless now window policy e s x y ≡ ok r
    → IsConsistent s
    → IsConsistent r.1
unfolding enqueue_unless
enqueue_unless-IsConsistent now window policy e s (some row) y r h inv =
    let (_, h1) = require_ok (opt_eq ◌=t◌ row.signed.payload_sha256 e.payload_sha256) _ _ h in
    let (_, h2) = require_ok (same_identity row e) _ _ h1 in unchanged-IsConsistent s r h2 inv
enqueue_unless-IsConsistent now window policy e s none (some row) r h inv =
    let (_, h1) = require_ok (opt_eq ◌=t◌ row.signed.payload_sha256 e.payload_sha256) _ _ h in
    unchanged-IsConsistent s r h1 inv
enqueue_unless-IsConsistent now window policy e s none none r h inv =
    same-IsConsistent s r.1 (ground arith) (ground arith) inv

pub enqueue_approval_reconciliation-IsConsistent :
    (is_github_timestamp : String → Bool) (now : ℕ) (e : WebhookEvent) (policy : String)
    (window : ℕ) (s : StateStore) (r : Bool × StateStore)
    → enqueue_approval_reconciliation is_github_timestamp now e policy window s ≡ ok r
    → IsConsistent s
    → IsConsistent r.1
unfolding enqueue_approval_reconciliation
enqueue_approval_reconciliation-IsConsistent is_github_timestamp now e policy window s r h inv =
    let (_, _, h1) = >>=-eq-ok (require_event is_github_timestamp e) _ h in
    let (_, h2) = require_ok (is_policy_version policy) _ _ h1 in
    let (_, h3) = require_ok (leb 1 window && leb window 3_600) _ _ h2 in
    enqueue_unless-IsConsistent now window policy e s
      (find_row (is_queued e.delivery_id) s.reconciliations)
      (find_row (is_evidence e.delivery_id) s.evidence) r h3 inv

pub complete_approval_reconciliation-IsConsistent :
    (now : ℕ) (c : Claim) (s t : StateStore)
    → complete_approval_reconciliation now c s ≡ ok t
    → IsConsistent s
    → IsConsistent t
unfolding complete_approval_reconciliation
complete_approval_reconciliation-IsConsistent now c s t h inv =
    let (row, _, h1) =
      >>=-eq-ok (must_row (find_row (is_reconciliation c.reconciliation_id) s.reconciliations)) _
        h in
    if_ok (is_none row.completed_at) (complete_in_transaction now c row none s) (ok s) h1
      (λ _ x.
        let q = complete_in_transaction-Quiet now c row none s t x in
        same-IsConsistent s t q.jobs q.attempts inv)
      (λ _ x. ok-IsConsistent s t x inv)

record_rejected-IsConsistent :
    (now : ℕ) (e : WebhookEvent) (reason : String) (affects : Bool) (received_at : ℕ)
    (s : StateStore) (r : LabelResult × StateStore)
    → record_rejected now e reason affects received_at s ≡ ok r
    → IsConsistent s
    → IsConsistent r.1
unfolding record_rejected
record_rejected-IsConsistent now e reason affects received_at s r h inv =
    elim (Option-cases (find_row (is_evidence e.delivery_id) s.evidence)) [
      | inl x ↦
          reject-IsConsistent
            (record { now = now; webhook = e; received_at = received_at; claimed = none }) reason
            none none affects s r (ground arith) inv
      | inr (row, x) ↦ same-IsConsistent s r.1 (ground arith) (ground arith) inv
    ]

pub reject_timed_out_approval_reconciliation-IsConsistent :
    (now : ℕ) (c : Claim) (reason : String) (affects : Bool) (s : StateStore)
    (r : LabelResult × StateStore)
    → reject_timed_out_approval_reconciliation now c reason affects s ≡ ok r
    → IsConsistent s
    → IsConsistent r.1
unfolding reject_timed_out_approval_reconciliation reject_timed_out_row
reject_timed_out_approval_reconciliation-IsConsistent now c reason affects s r h inv =
    let (_, h1) = refuse_ok (reason =t "" || ltb 2_000 (text_length reason)) _ _ h in
    let (_, h2) = require_ok (is_timeout_reason reason) _ _ h1 in
    let (row, _, h3) =
      >>=-eq-ok (must_row (find_row (is_reconciliation c.reconciliation_id) s.reconciliations)) _
        h2 in
    if_ok (is_none row.completed_at) (reject_timed_out_row now c reason affects s row) _ h3
      (λ _ x.
        let (_, x1) = require_ok (owns_reconciliation c.claimed_at c.attempt_count row) _ _ x in
        let (_, x2) = refuse_ok (ltb now row.deadline_at) _ _ x1 in
        let (q, recorded, x3) =
          >>=-eq-ok (record_rejected now (event_from_row row) reason affects row.received_at s) _
            x2 in
        let (t, completed, x4) =
          >>=-eq-ok (complete_in_transaction now c row (some reason) q.1) _ x3 in
        let w = complete_in_transaction-Quiet now c row (some reason) q.1 t completed in
        let there =
          record_rejected-IsConsistent now (event_from_row row) reason affects row.received_at s q
            recorded inv in
        let same : t ≡ r.1 = ground arith in
        subst IsConsistent same (same-IsConsistent q.1 t w.jobs w.attempts there))
      (λ _ x.
        let (q, _, x1) = >>=-eq-ok (approval_evidence_result row.delivery_id true s) _ x in
        same-IsConsistent s r.1 (ground arith) (ground arith) inv)

expire_rows-same :
    (now : ℕ) (clock : GithubClockObservation) (monotonic : String → Value) (rows : List Approval)
    (s : StateStore) (r : List (String × String) × StateStore)
    → expire_rows now clock monotonic rows s ≡ ok r
    → (r.1.jobs ≡ s.jobs) × (r.1.attempts ≡ s.attempts)
unfolding expire_rows
expire_rows-same now clock monotonic [] s r h = (ground arith, ground arith)
expire_rows-same now clock monotonic (a ∷ rows) s r h =
    let (m, _, h1) = >>=-eq-ok (check_monotonic (monotonic a.approval_id)) _ h in
    let (ttl, _, h2) =
      >>=-eq-ok (evaluate_approval_ttl (datetime true a.event_created_at) clock (int (pos m))) _
        h1 in
    let (t, x, h3) =
      >>=-eq-ok
        (if is_valid ttl.decision
          then ok s
          else invalidate_open_approvals (a ∷ []) (expiry_reason ttl.decision) now s)
        _ h2 in
    let (rest, y, h4) = >>=-eq-ok (expire_rows now clock monotonic rows t) _ h3 in
    let (jobs, attempts) = expire_rows-same now clock monotonic rows t rest y in
    let first : (t.jobs ≡ s.jobs) × (t.attempts ≡ s.attempts) =
      if_ok (is_valid ttl.decision) (ok s)
        (invalidate_open_approvals (a ∷ []) (expiry_reason ttl.decision) now s) x
        (λ _ z. (ground arith, ground arith))
        (λ _ z.
          let w =
            invalidate_open_approvals-SameWork (a ∷ []) (expiry_reason ttl.decision) now s t z in
          (w.jobs, w.attempts)) in
    let last : rest.1 ≡ r.1 = ground arith in
    (
      ap (λ z. z.jobs) (sym last) ∙ jobs ∙ first.0,
      ap (λ z. z.attempts) (sym last) ∙ attempts ∙ first.1,
    )

pub expire_github_label_approvals-IsConsistent :
    (now repository_id : ℕ) (repository : String) (pull_number : ℕ) (clock : GithubClockObservation)
    (monotonic : String → Value) (s : StateStore) (r : List (String × String) × StateStore)
    → expire_github_label_approvals now repository_id repository pull_number clock monotonic s
      ≡ ok r
    → IsConsistent s
    → IsConsistent r.1
unfolding expire_github_label_approvals
expire_github_label_approvals-IsConsistent now repository_id repository pull_number clock monotonic
      s r h inv =
    let (jobs, attempts) =
      expire_rows-same now clock monotonic
        (open_approvals_of repository_id repository pull_number s) s r h in
    same-IsConsistent s r.1 jobs attempts inv
