-- ===== src/Store/Labels/Approves.antt =====
-- An approval: what stands behind it, and how it leaves the job and the attempt.
use dohwa_hermes_stack.Base.{
  ℕ, ◌≡◌, ◌≢◌, refl, sym, ap, ◌∙◌, Bool, true, false, not, Option, none, some, List, [], ◌∷◌,
  String, arith, ◌==◌, ◌=t◌, opt_eq, select, find_row, find_row_passes, find_row-All,
  find_row-update, update_rows, length, ltb, ok, require_ok, >>=-eq-ok, if◌then◌else◌, Option-cases,
  inl, inr, Value, All,
}
use dohwa_hermes_stack.Models.{ReviewState, WebhookEvent, ReviewJob}
use dohwa_hermes_stack.Approval.Status.{ReviewAttemptStatus}
use dohwa_hermes_stack.Approval.Ttl.{GithubClockObservation}
use dohwa_hermes_stack.Store.Tables.{StateStore, ReviewAttempt}
use dohwa_hermes_stack.Store.Tables.Signed.{
  TimelineItem, EvidenceRow, accepted, signed_approval_candidate, rejected_ambiguous,
}
use dohwa_hermes_stack.Store.Ingest.{is_job}
use dohwa_hermes_stack.Store.Invalidate.{has_left}
use dohwa_hermes_stack.Store.Consistent.{fits, IsConsistent}
use dohwa_hermes_stack.Store.Labels.Record.{
  claim_of, Ticket, LabelResult, open_claim, is_evidence, complete_claim, record_evidence,
}
use dohwa_hermes_stack.Store.Labels.Timeline.{
  LabelFold, event_generation, take, drop, Reading, turned_away, found, Snapshot, stored_events,
  is_match, agrees, is_snapshot_of, fold_timeline, empty_fold, read_candidate, read_matches,
  read_timeline,
}
use dohwa_hermes_stack.Store.Labels.Judge.{
  Settings, Approved, Verdict, refused, removes, approves, is_attempt_of, judge,
}
use dohwa_hermes_stack.Store.Labels.Accept.{write_events, stop_job, Runtime}
use dohwa_hermes_stack.Store.Labels.Apply.{
  evidence_result, answer_again, affects_current, settle, decide_reading, decide, received,
  apply_github_label_approval,
}
use dohwa_hermes_stack.Store.Labels.Effects.{write_events-Quiet}
use dohwa_hermes_stack.Store.Labels.Decided.{record_evidence-Records, reject-Records}
use dohwa_hermes_stack.Store.Labels.Closed.{write_approval-Stops}
use dohwa_hermes_stack.Store.Labels.Sound.{Warrants, judge-Warrants}

-- The result is a new decision that names an approval.
abbrev pub IsApproval : LabelResult → Type 0
IsApproval r = (r.duplicate ≡ false) × (r.approval_id ≢ none)

-- An approval of the event `i`, which alone matches the webhook in the timeline. The job is handed to
-- a person, and the attempts are as they were.
pub record Approves (p : Runtime) (lower : String → String) (now : ℕ) (n : Snapshot)
    (e : WebhookEvent) (c : Settings) (clock : GithubClockObservation) (s t : StateStore)
    : Type 0 where
  pub event : TimelineItem
  pub approved : Approved
  pub matched : select (is_match lower e) n.timeline ≡ event ∷ []
  pub warrants : Warrants p.instant c e n clock event s approved
  pub attempts : t.attempts ≡ s.attempts
  pub jobs : t.jobs ≡ update_rows (is_job approved.job.id) (stop_job now) s.jobs

-- What a reading finds is the only match.
read_matches-found :
    (stored : _) (timeline : List TimelineItem) (s : StateStore) (xs : List TimelineItem)
    (i : TimelineItem) (f : LabelFold)
    → read_matches stored timeline s xs ≡ found i f
    → xs ≡ i ∷ []
unfolding read_matches read_candidate
read_matches-found stored timeline s [] i f h = absurd (cc)
read_matches-found stored timeline s (x ∷ []) i f h =
    ground (arith, Option-cases (fold_timeline 1 timeline empty_fold))
read_matches-found stored timeline s (x ∷ y ∷ xs) i f h = absurd (cc)

read_timeline-found :
    (lower : String → String) (e : WebhookEvent) (n : Snapshot) (s : StateStore) (i : TimelineItem)
    (f : LabelFold)
    → read_timeline lower e n s ≡ found i f
    → select (is_match lower e) n.timeline ≡ i ∷ []
unfolding read_timeline
read_timeline-found lower e n s i f h =
    let stored = stored_events n.repository_id n.pull_number s in
    passed (not (is_snapshot_of e n)) (ltb (length n.timeline) (length stored))
      (not (agrees stored n.timeline)) h
  where
    passed :
        (a b d : Bool)
        → (if a
            then turned_away "SNAPSHOT_IDENTITY_MISMATCH" none true
            else if b
            then turned_away "TIMELINE_PREFIX_ROLLBACK" none true
            else if d
            then turned_away "TIMELINE_PREFIX_MISMATCH" none true
            else read_matches
                (stored_events n.repository_id n.pull_number s)
                n.timeline
                s
                (select (is_match lower e) n.timeline))
          ≡ found i f
        → select (is_match lower e) n.timeline ≡ i ∷ []
    passed true b d h = absurd (cc)
    passed false true d h = absurd (cc)
    passed false false true h = absurd (cc)
    passed false false false h = read_matches-found _ n.timeline s _ i f h

unfit :
    (a : ReviewAttempt) (j : ReviewJob) (now : ℕ) (n : Snapshot)
    → j.id ≡ a.job_id
    → is_attempt_of ReviewAttemptStatus.active n a ≡ true
    → (fits (stop_job now j) a ≡ false) × (a.status ≡ ReviewAttemptStatus.active)
unfolding has_left
unfit a j now n same active = (ground arith, ground arith)

module _ (p : Runtime) (lower : String → String) (n : Snapshot) (c : Settings)
    (clock : GithubClockObservation) (m : Value) (fresh : String) where
  settle-approval :
      (k : Ticket) (i : TimelineItem) (f : LabelFold) (s : StateStore) (v : Verdict)
      (r : LabelResult × StateStore)
      → settle p k n c fresh i f s v ≡ ok r
      → IsApproval r.0
      → (a : Approved) × (v ≡ approves a)
        × (r.1.attempts ≡ s.attempts)
        × (r.1.jobs ≡ update_rows (is_job a.job.id) (stop_job k.now) s.jobs)
  unfolding settle
  settle-approval k i f s (refused reason) r h w =
      let new =
        drop (length (stored_events n.repository_id n.pull_number s)) (take i.ordinal n.timeline) in
      let (t, _, h1) =
        >>=-eq-ok (write_events k n c.target_label f rejected_ambiguous i new s) _ h in
      let (_, same) =
        reject-Records k reason (some i.event_id) (some (event_generation f i.event_id))
          (affects_current reason) t r h1 in
      absurd (w.1 (ap (λ x. x.approval_id) same))
  settle-approval k i f s removes r h w =
      let new =
        drop (length (stored_events n.repository_id n.pull_number s)) (take i.ordinal n.timeline) in
      let (t, _, h1) =
        >>=-eq-ok (write_events k n c.target_label f signed_approval_candidate i new s) _ h in
      let (u, _, h2) = >>=-eq-ok (record_evidence k (some i.event_id) none accepted none t) _ h1 in
      let nothing : r.0.approval_id ≡ none = ground arith in absurd (w.1 nothing)
  settle-approval k i f s (approves a) r h w =
      let new =
        drop (length (stored_events n.repository_id n.pull_number s)) (take i.ordinal n.timeline) in
      let (t, written, h1) =
        >>=-eq-ok (write_events k n c.target_label f signed_approval_candidate i new s) _ h in
      let q = write_events-Quiet k n c.target_label f signed_approval_candidate i new s t written in
      let context = some a.attempt.review_context_id in
      let (u, recorded, h2) =
        >>=-eq-ok (record_evidence k (some i.event_id) context accepted none t) _ h1 in
      let (_, jobs, attempts) =
        record_evidence-Records k (some i.event_id) context accepted none t u recorded in
      let (stops, _, _) =
        write_approval-Stops p k n c.target_label fresh (event_generation f i.event_id) i a u r
          h2 in
      (
        a,
        refl,
        stops.attempts ∙ attempts ∙ q.attempts,
        stops.jobs ∙ ap (update_rows (is_job a.job.id) (stop_job k.now)) (jobs ∙ q.jobs),
      )

  answer_again-duplicate :
      (k : Ticket) (row : EvidenceRow) (s : StateStore) (r : LabelResult × StateStore)
      → answer_again k row s ≡ ok r
      → r.0.duplicate ≡ true
  unfolding answer_again evidence_result
  answer_again-duplicate k row s r h =
      let (_, h1) =
        require_ok (opt_eq ◌=t◌ row.signed.payload_sha256 k.webhook.payload_sha256) _ _ h in
      let (t, _, h2) = >>=-eq-ok (complete_claim k.now k.claimed s) _ h1 in ground arith

  decide_reading-Approves :
      (k : Ticket) (s : StateStore) (r : LabelResult × StateStore) (x : Reading)
      → read_timeline lower k.webhook n s ≡ x
      → decide_reading p k n c clock m fresh s x ≡ ok r
      → IsApproval r.0
      → Approves p lower k.now n k.webhook c clock s r.1
  unfolding decide_reading
  decide_reading-Approves k s r (turned_away reason generation affects) x h w =
      let (_, same) = reject-Records k reason none generation affects s r h in
      absurd (w.1 (ap (λ z. z.approval_id) same))
  decide_reading-Approves k s r (found i f) x h w =
      let (v, judged, h1) = >>=-eq-ok (judge p.instant c k.webhook n clock m i f s) _ h in
      let (a, is_approved, attempts, jobs) = settle-approval k i f s v r h1 w in
      record {
        event = i;
        approved = a;
        matched = read_timeline-found lower k.webhook n s i f x;
        warrants =
            judge-Warrants p.instant clock m i a c k.webhook n f s (judged ∙ ap ok is_approved);
        attempts = attempts;
        jobs = jobs;
      }

  decide-Approves :
      (k : Ticket) (s : StateStore) (r : LabelResult × StateStore)
      → decide p lower k n c clock m fresh s ≡ ok r
      → IsApproval r.0
      → Approves p lower k.now n k.webhook c clock s r.1
  unfolding decide
  decide-Approves k s r h w =
      elim (Option-cases (find_row (is_evidence k.webhook.delivery_id) s.evidence)) [
        | inr (row, e) ↦
            let same = answer_again-duplicate k row s r (ground arith) in
            absurd (ground (arith, w.0))
        | inl e ↦
            decide_reading-Approves k s r (read_timeline lower k.webhook n s) refl (ground arith) w
      ]

  -- A new decision that names an approval: exactly one event of the timeline matches the webhook; it
  -- adds the target label, is by a user and came with the expected installation; the pull request
  -- has an active review attempt that passed, whose job passed too; the signed commits are those of
  -- the reviewed content and of the job, under the expected policy; the sender is an allowed approver;
  -- the label came after the review, and its time to live was evaluated as valid. The job is then
  -- handed to a person, and the attempts stay as they were.
  pub apply_github_label_approval-Approves :
      (now : ℕ) (e : WebhookEvent) (received_at id claimed_at attempt_count : Option ℕ)
      (s : StateStore) (r : LabelResult × StateStore)
      → apply_github_label_approval p lower now n e c clock m received_at id claimed_at
          attempt_count fresh s
        ≡ ok r
      → IsApproval r.0
      → Approves p lower now n e c clock s r.1
  unfolding apply_github_label_approval
  apply_github_label_approval-Approves now e received_at id claimed_at attempt_count s r h w =
      let (_, h1) = require_ok (n.total_count == length n.timeline) _ _ h in
      let (claim, _, h2) = >>=-eq-ok (claim_of id claimed_at attempt_count) _ h1 in
      let (claimed, _, h3) = >>=-eq-ok (open_claim now e s claim) _ h2 in
      decide-Approves
        (record {
          now = now;
          webhook = e;
          received_at = received p now received_at;
          claimed = claimed;
        })
        s r h3 w

  -- After an approval the attempt of the snapshot's head is still active although its job is in
  -- HUMAN_REVIEW, a state in which the job has left its review: the attempt does not fit the job, and
  -- the store is not consistent.
  pub apply_github_label_approval_unsettled :
      (now : ℕ) (e : WebhookEvent) (received_at id claimed_at attempt_count : Option ℕ)
      (s : StateStore) (r : LabelResult × StateStore)
      → apply_github_label_approval p lower now n e c clock m received_at id claimed_at
          attempt_count fresh s
        ≡ ok r
      → IsApproval r.0
      → (a : ReviewAttempt) × (j : ReviewJob) × (find_row
            (is_attempt_of ReviewAttemptStatus.active n)
            r.1.attempts
          ≡ some a)
        × (a.status ≡ ReviewAttemptStatus.active)
        × (find_row (is_job a.job_id) r.1.jobs ≡ some j)
        × (j.state ≡ ReviewState.human_review)
        × (fits j a ≡ false)
        × ¬ IsConsistent r.1
  apply_github_label_approval_unsettled now e received_at id claimed_at attempt_count s r h w =
      let a =
        apply_github_label_approval-Approves now e received_at id claimed_at attempt_count s r h
          w in
      let v = a.approved in
      let at_job = find_row_passes (is_job v.attempt.job_id) s.jobs a.warrants.job in
      let same_id : v.job.id ≡ v.attempt.job_id = ground arith in
      let attempt_found =
        ap (find_row (is_attempt_of ReviewAttemptStatus.active n)) a.attempts
        ∙ a.warrants.attempt in
      let job_found : find_row (is_job v.job.id) r.1.jobs ≡ some (stop_job now v.job) =
        ap (find_row (is_job v.job.id)) a.jobs
        ∙ find_row-update (is_job v.job.id) (stop_job now) (λ j q. q) s.jobs v.job
            (ap (λ x. find_row (is_job x) s.jobs) same_id ∙ a.warrants.job) in
      let active =
        find_row_passes (is_attempt_of ReviewAttemptStatus.active n) s.attempts
          a.warrants.attempt in
      let unfitting = unfit v.attempt v.job now n same_id active in
      (
        v.attempt,
        stop_job now v.job,
        attempt_found,
        unfitting.1,
        ap (λ x. find_row (is_job x) r.1.jobs) (sym same_id) ∙ job_found,
        refl,
        unfitting.0,
        λ consistent.
            let fit =
              find_row-All (λ (x : ReviewAttempt). fits (stop_job now v.job) x ≡ true)
                (is_attempt_of ReviewAttemptStatus.active n) r.1.attempts attempt_found
                (find_row-All (λ (j : ReviewJob). All (λ x. fits j x ≡ true) r.1.attempts)
                  (is_job v.job.id) r.1.jobs job_found consistent.no_stale) in
            cc (fit, unfitting.0),
      )
