-- ===== src/Store/Labels/Closed.antt =====
-- The whole of a label decision is fail-closed and final: whatever the timeline, the webhook and the
-- settings, it opens no approval and leaves evidence that decides its delivery.
use dohwa_hermes_stack.Base.{
  ℕ, ◌≡◌, refl, sym, ap, subst, ◌∙◌, Bool, true, Option, none, some, String, arith, ◌==◌, ◌=t◌,
  opt_eq, opt_eq-text, update_rows, find_row, find_row_passes, =t_iff, length, ok, require_ok,
  >>=-eq-ok, ok_injective, Option-cases, inl, inr, Value,
}
use dohwa_hermes_stack.Models.{WebhookEvent}
use dohwa_hermes_stack.Approval.Ttl.{GithubClockObservation}
use dohwa_hermes_stack.Store.Tables.{StateStore, Approval}
use dohwa_hermes_stack.Store.Tables.Signed.{
  TimelineItem, Outcome, EvidenceRow, accepted, rejected, signed_approval_candidate,
  rejected_ambiguous,
}
use dohwa_hermes_stack.Store.Ingest.{is_job}
use dohwa_hermes_stack.Store.Invalidate.Effects.{NoneOpen}
use dohwa_hermes_stack.Store.Labels.Record.{
  claim_of, Ticket, LabelResult, open_claim, is_evidence, complete_claim, evidence_of,
  record_evidence, insert_outbox, reject,
}
use dohwa_hermes_stack.Store.Labels.Timeline.{
  LabelFold, event_generation, take, drop, Reading, turned_away, found, Snapshot, stored_events,
  read_timeline,
}
use dohwa_hermes_stack.Store.Labels.Judge.{
  Settings, Approved, Verdict, refused, removes, approves, judge,
}
use dohwa_hermes_stack.Store.Labels.Accept.{
  write_events, new_approval, pass_through, stop_job, approval_payload, draft, acceptance, Runtime,
  attested, write_approval, gates_unavailable,
}
use dohwa_hermes_stack.Store.Labels.Apply.{
  evidence_result, answer_again, affects_current, settle, decide_reading, decide, received,
  apply_github_label_approval,
}
use dohwa_hermes_stack.Store.Labels.Effects.{
  Quiet-trans, complete_claim-Quiet, insert_outbox-Quiet, write_events-Quiet, pass_through-Quiet,
}
use dohwa_hermes_stack.Store.Labels.Decided.{
  Records, find_evidence-append, record_evidence-Records, reject-Records,
}

-- The delivery is decided: its evidence is of the same payload and has the outcome and the event of
-- the result. No approval is opened.
pub record Decides (e : WebhookEvent) (r : LabelResult) (s t : StateStore) : Type 0 where
  pub row : EvidenceRow
  pub is_found : find_row (is_evidence e.delivery_id) t.evidence ≡ some row
  pub payload : row.signed.payload_sha256 ≡ e.payload_sha256
  pub outcome : row.outcome ≡ r.outcome
  pub event_id : row.event_id ≡ r.event_id
  pub delivery_id : r.delivery_id ≡ e.delivery_id
  pub opens_none : NoneOpen s.approvals → NoneOpen t.approvals

-- What records evidence of the result, between two parts of the decision, decides the delivery.
Records-Decides :
    (k : Ticket) (event_id context : Option String) (outcome : Outcome) (reason : Option String)
    (r : LabelResult) (s t u : StateStore)
    → (NoneOpen s.approvals → NoneOpen t.approvals)
    → Records (evidence_of k event_id context outcome reason) t u
    → r.outcome ≡ outcome
    → r.event_id ≡ event_id
    → r.delivery_id ≡ k.webhook.delivery_id
    → Decides k.webhook r s u
Records-Decides k event_id context outcome reason r s t u before w o i d = record {
  row = evidence_of k event_id context outcome reason;
  is_found = rw w.evidence (
      find_evidence-append k.webhook.delivery_id t.evidence
        (evidence_of k event_id context outcome reason) refl w.fresh);
  payload = refl;
  outcome = sym o;
  event_id = sym i;
  delivery_id = d;
  opens_none = λ c. w.opens_none (before c);
}

-- What follows quietly on a decision keeps it.
Decides-after :
    (e : WebhookEvent) (q r : LabelResult) (s t u : StateStore)
    → Decides e q s t
    → u.evidence ≡ t.evidence
    → (NoneOpen t.approvals → NoneOpen u.approvals)
    → r.outcome ≡ q.outcome
    → r.event_id ≡ q.event_id
    → r.delivery_id ≡ q.delivery_id
    → Decides e r s u
Decides-after e q r s t u d same after o i n = record {
  row = d.row;
  is_found = ap (find_row (is_evidence e.delivery_id)) same ∙ d.is_found;
  payload = d.payload;
  outcome = d.outcome ∙ sym o;
  event_id = d.event_id ∙ sym i;
  delivery_id = n ∙ d.delivery_id;
  opens_none = λ c. after (d.opens_none c);
}

answer_again-Decides :
    (k : Ticket) (row : EvidenceRow) (s : StateStore) (r : LabelResult × StateStore)
    → find_row (is_evidence k.webhook.delivery_id) s.evidence ≡ some row
    → answer_again k row s ≡ ok r
    → Decides k.webhook r.0 s r.1
unfolding answer_again evidence_result
answer_again-Decides k row s r is_row h =
    let (same, h1) =
      require_ok (opt_eq ◌=t◌ row.signed.payload_sha256 k.webhook.payload_sha256) _ _ h in
    let (t, p, h2) = >>=-eq-ok (complete_claim k.now k.claimed s) _ h1 in
    let w = complete_claim-Quiet k.now k.claimed s t p in
    let e : (evidence_result t true row, t) ≡ r = ground arith in
    let id =
      (=t_iff row.delivery_id k.webhook.delivery_id).0
        (find_row_passes (is_evidence k.webhook.delivery_id) s.evidence is_row) in
    subst (λ x. Decides k.webhook x.0 s x.1) e
      (record {
        row = row;
        is_found = ap (find_row (is_evidence k.webhook.delivery_id)) w.evidence ∙ is_row;
        payload = (opt_eq-text row.signed.payload_sha256 k.webhook.payload_sha256).0 same;
        outcome = refl;
        event_id = refl;
        delivery_id = id;
        opens_none = w.opens_none;
      })

reject-Decides :
    (k : Ticket) (reason : String) (event_id : Option String) (generation : Option ℕ)
    (affects : Bool) (s t : StateStore) (r : LabelResult × StateStore)
    → (NoneOpen s.approvals → NoneOpen t.approvals)
    → reject k reason event_id generation affects t ≡ ok r
    → Decides k.webhook r.0 s r.1
reject-Decides k reason event_id generation affects s t r before h =
    let (w, same) = reject-Records k reason event_id generation affects t r h in
    Records-Decides k event_id none rejected (some reason) r.0 s t r.1 before w
      (ap (λ x. x.outcome) same) (ap (λ x. x.event_id) same) (ap (λ x. x.delivery_id) same)

-- The constructor of an approval returns what it checks.
pub new_approval_same : (a b : Approval) → new_approval a ≡ ok b → a ≡ b
unfolding new_approval
new_approval_same a b h = ground arith

module _ (p : Runtime) where
  -- An approval that is written is invalidated at once, its job is handed to a person, and the
  -- attempts stay as they are.
  pub record Stops (k : Ticket) (v : Approved) (s t : StateStore) : Type 0 where
    pub evidence : t.evidence ≡ s.evidence
    pub attempts : t.attempts ≡ s.attempts
    pub jobs : t.jobs ≡ update_rows (is_job v.job.id) (stop_job k.now) s.jobs
    pub opens_none : NoneOpen s.approvals → NoneOpen t.approvals

  pub write_approval-Stops :
      (k : Ticket) (n : Snapshot) (target fresh : String) (generation : ℕ) (i : TimelineItem)
      (v : Approved) (s : StateStore) (r : LabelResult × StateStore)
      → write_approval p k n target fresh generation i v s ≡ ok r
      → Stops k v s r.1
        × (digest : String) × (r.0
            ≡ acceptance k i generation (some gates_unavailable) (some fresh) (some digest))
  unfolding write_approval
  write_approval-Stops k n target fresh generation i v s r h =
      let (created, _, h1) = >>=-eq-ok (p.instant i.created_at) _ h in
      let (drafted, made, h2) =
        >>=-eq-ok (new_approval (draft k n fresh generation created i v)) _ h1 in
      let same = new_approval_same (draft k n fresh generation created i v) drafted made in
      let a = attested p i drafted in
      let (t, passed, h3) = >>=-eq-ok (pass_through k.now a s) _ h2 in
      let w = pass_through-Quiet k.now a (ap (λ x. x.status) (sym same)) s t passed in
      let u = record t { jobs = update_rows (is_job v.job.id) (stop_job k.now) t.jobs } in
      let (x, removed, h4) =
        >>=-eq-ok
          (insert_outbox (some fresh) k.webhook.delivery_id "REMOVE_LABEL" (some n.repository)
            (some n.pull_number) (some target) (approval_payload a) k.now u)
          _ h3 in
      let (y, told, h5) =
        >>=-eq-ok
          (insert_outbox (some fresh) k.webhook.delivery_id "DISCORD_REPORT" (some n.repository)
            (some n.pull_number) none (approval_payload a) k.now x)
          _ h4 in
      let ux =
        insert_outbox-Quiet (some fresh) k.webhook.delivery_id "REMOVE_LABEL" (some n.repository)
          (some n.pull_number) (some target) (approval_payload a) k.now u x removed in
      let xy =
        insert_outbox-Quiet (some fresh) k.webhook.delivery_id "DISCORD_REPORT" (some n.repository)
          (some n.pull_number) none (approval_payload a) k.now x y told in
      let uy = Quiet-trans u x y ux xy in
      let e : (
        acceptance k i generation (some gates_unavailable) (some fresh) (some a.attestation_digest),
        y,
      )
          ≡ r =
        ok_injective h5 in
      (
        subst (λ z. Stops k v s z.1) e
            (record {
              evidence = uy.evidence ∙ w.evidence;
              attempts = uy.attempts ∙ w.attempts;
              jobs = uy.jobs ∙ ap (update_rows (is_job v.job.id) (stop_job k.now)) w.jobs;
              opens_none = λ c. uy.opens_none (w.opens_none c);
            }),
        a.attestation_digest,
        sym (ap (λ z. z.0) e),
      )

  pub settle-Decides :
      (k : Ticket) (n : Snapshot) (c : Settings) (fresh : String) (i : TimelineItem) (f : LabelFold)
      (s : StateStore) (v : Verdict) (r : LabelResult × StateStore)
      → settle p k n c fresh i f s v ≡ ok r
      → Decides k.webhook r.0 s r.1
  unfolding settle
  settle-Decides k n c fresh i f s (refused reason) r h =
      let new =
        drop (length (stored_events n.repository_id n.pull_number s)) (take i.ordinal n.timeline) in
      let (t, w, h1) =
        >>=-eq-ok (write_events k n c.target_label f rejected_ambiguous i new s) _ h in
      let q = write_events-Quiet k n c.target_label f rejected_ambiguous i new s t w in
      reject-Decides k reason (some i.event_id) (some (event_generation f i.event_id))
        (affects_current reason) s t r q.opens_none h1
  settle-Decides k n c fresh i f s removes r h =
      let new =
        drop (length (stored_events n.repository_id n.pull_number s)) (take i.ordinal n.timeline) in
      let (t, w, h1) =
        >>=-eq-ok (write_events k n c.target_label f signed_approval_candidate i new s) _ h in
      let q = write_events-Quiet k n c.target_label f signed_approval_candidate i new s t w in
      let (u, recorded, h2) =
        >>=-eq-ok (record_evidence k (some i.event_id) none accepted none t) _ h1 in
      let (x, _, _) = record_evidence-Records k (some i.event_id) none accepted none t u recorded in
      let e : (acceptance k i (event_generation f i.event_id) none none none, u) ≡ r =
        ground arith in
      subst (λ z. Decides k.webhook z.0 s z.1) e
        (Records-Decides k (some i.event_id) none accepted none
          (acceptance k i (event_generation f i.event_id) none none none) s t u q.opens_none x refl
          refl refl)
  settle-Decides k n c fresh i f s (approves v) r h =
      let new =
        drop (length (stored_events n.repository_id n.pull_number s)) (take i.ordinal n.timeline) in
      let (t, w, h1) =
        >>=-eq-ok (write_events k n c.target_label f signed_approval_candidate i new s) _ h in
      let q = write_events-Quiet k n c.target_label f signed_approval_candidate i new s t w in
      let context = some v.attempt.review_context_id in
      let (u, recorded, h2) =
        >>=-eq-ok (record_evidence k (some i.event_id) context accepted none t) _ h1 in
      let (x, _, _) =
        record_evidence-Records k (some i.event_id) context accepted none t u recorded in
      let generation = event_generation f i.event_id in
      let (stops, digest, e) =
        write_approval-Stops k n c.target_label fresh generation i v u r h2 in
      let result = acceptance k i generation (some gates_unavailable) (some fresh) (some digest) in
      Decides-after k.webhook result r.0 s u r.1
        (Records-Decides k (some i.event_id) context accepted none result s t u q.opens_none x refl
          refl refl)
        stops.evidence stops.opens_none (ap (λ z. z.outcome) e) (ap (λ z. z.event_id) e)
        (ap (λ z. z.delivery_id) e)

  decide_reading-Decides :
      (k : Ticket) (n : Snapshot) (c : Settings) (clock : GithubClockObservation) (m : Value)
      (fresh : String) (s : StateStore) (x : Reading) (r : LabelResult × StateStore)
      → decide_reading p k n c clock m fresh s x ≡ ok r
      → Decides k.webhook r.0 s r.1
  unfolding decide_reading
  decide_reading-Decides k n c clock m fresh s (turned_away reason generation affects) r h =
      reject-Decides k reason none generation affects s s r (λ z. z) h
  decide_reading-Decides k n c clock m fresh s (found i f) r h =
      let (v, _, h1) = >>=-eq-ok (judge p.instant c k.webhook n clock m i f s) _ h in
      settle-Decides k n c fresh i f s v r h1

  decide-Decides :
      (lower : String → String) (k : Ticket) (n : Snapshot) (c : Settings)
      (clock : GithubClockObservation) (m : Value) (fresh : String) (s : StateStore)
      (r : LabelResult × StateStore)
      → decide p lower k n c clock m fresh s ≡ ok r
      → Decides k.webhook r.0 s r.1
  unfolding decide
  decide-Decides lower k n c clock m fresh s r h =
      elim (Option-cases (find_row (is_evidence k.webhook.delivery_id) s.evidence)) [
        | inl e ↦
            decide_reading-Decides k n c clock m fresh s (read_timeline lower k.webhook n s) r
              (ground arith)
        | inr (row, e) ↦ answer_again-Decides k row s r e (ground arith)
      ]

  -- A label decision that succeeds, whatever the timeline, the webhook, the settings, the clock and
  -- the claim, opens no approval where none was open, and leaves evidence of the same payload, with
  -- the outcome and the event of its result, by which the delivery is decided.
  pub apply_github_label_approval-Decides :
      (lower : String → String) (now : ℕ) (n : Snapshot) (e : WebhookEvent) (c : Settings)
      (clock : GithubClockObservation) (m : Value)
      (received_at id claimed_at attempt_count : Option ℕ) (fresh : String) (s : StateStore)
      (r : LabelResult × StateStore)
      → apply_github_label_approval p lower now n e c clock m received_at id claimed_at
          attempt_count fresh s
        ≡ ok r
      → Decides e r.0 s r.1
  unfolding apply_github_label_approval
  apply_github_label_approval-Decides lower now n e c clock m received_at id claimed_at
        attempt_count fresh s r h =
      let (_, h1) = require_ok (n.total_count == length n.timeline) _ _ h in
      let (claim, _, h2) = >>=-eq-ok (claim_of id claimed_at attempt_count) _ h1 in
      let (claimed, _, h3) = >>=-eq-ok (open_claim now e s claim) _ h2 in
      decide-Decides lower
        (record {
          now = now;
          webhook = e;
          received_at = received p now received_at;
          claimed = claimed;
        })
        n c clock m fresh s r h3
