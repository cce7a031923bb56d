-- ===== src/Store/Labels/Decided.antt =====
-- A decision leaves its evidence, which decides the delivery for good, and opens no approval.
use dohwa_hermes_stack.Base.{
  ℕ, ◌≡◌, refl, sym, ap, subst, ◌∙◌, Bool, false, Option, none, some, List, [], ◌∷◌, ◌++◌, String,
  arith, ◌=t◌, eq_refl, any, update_rows, find_row, first_row, ok, require_ok, refuse_ok, >>=-eq-ok,
  if◌then◌else◌, if_ok,
}
use dohwa_hermes_stack.Models.{ReviewJob, WebhookEvent}
use dohwa_hermes_stack.Store.Tables.{StateStore}
use dohwa_hermes_stack.Store.Tables.Signed.{EvidenceRow, Outcome, rejected}
use dohwa_hermes_stack.Store.Ingest.{is_job}
use dohwa_hermes_stack.Store.Invalidate.{invalidate_job_attempts}
use dohwa_hermes_stack.Store.Invalidate.Effects.{NoneOpen, invalidate_job_attempts-ClosesAttempts}
use dohwa_hermes_stack.Store.Labels.Record.{
  Ticket, LabelResult, is_evidence, hand_over, may_be_handed_over, move_row_to_human,
  move_job_to_human, job_after, is_job_of, is_payload, is_event_taken, insert_evidence, evidence_of,
  record_evidence, insert_outbox, rejection, rejection_payload, reject,
}
use dohwa_hermes_stack.Store.Labels.Effects.{complete_claim-Quiet, insert_outbox-Quiet}

-- The evidence grows by one row, the first of its delivery, and no approval is opened.
pub record Records (row : EvidenceRow) (s t : StateStore) : Type 0 where
  pub fresh : any (is_evidence row.delivery_id) s.evidence ≡ false
  pub evidence : t.evidence ≡ s.evidence ++ row ∷ []
  pub opens_none : NoneOpen s.approvals → NoneOpen t.approvals

-- The row that is added for a new delivery is the one that is found for it.
pub find_evidence-append :
    (id : String) (xs : List EvidenceRow) (row : EvidenceRow)
    → row.delivery_id ≡ id
    → any (is_evidence id) xs ≡ false
    → find_row (is_evidence id) (xs ++ row ∷ []) ≡ some row
unfolding find_row
find_evidence-append id [] row e h = ground (arith, eq_refl id, ap (λ x. x =t id) e)
find_evidence-append id (x ∷ xs) row e h = ground (arith, find_evidence-append id xs row e)

-- The insertion of evidence changes nothing else.
pub record Inserts (row : EvidenceRow) (s t : StateStore) : Type 0 where
  pub fresh : any (is_evidence row.delivery_id) s.evidence ≡ false
  pub evidence : t.evidence ≡ s.evidence ++ row ∷ []
  pub jobs : t.jobs ≡ s.jobs
  pub attempts : t.attempts ≡ s.attempts
  pub approvals : t.approvals ≡ s.approvals

insert_evidence-Inserts :
    (row : EvidenceRow) (s t : StateStore) → insert_evidence row s ≡ ok t → Inserts row s t
unfolding insert_evidence
insert_evidence-Inserts row s t h =
    let (_, h1) = require_ok (is_payload row.signed.payload_sha256) _ _ h in
    let (new, h2) = refuse_ok (any (is_evidence row.delivery_id) s.evidence) _ _ h1 in
    let (_, h3) = refuse_ok (any (is_event_taken row.event_id) s.evidence) _ _ h2 in
    record {
      fresh = new;
      evidence = ground arith;
      jobs = ground arith;
      attempts = ground arith;
      approvals = ground arith;
    }

-- Recording evidence leaves the jobs and the attempts alone.
pub record_evidence-Records :
    (k : Ticket) (event_id context : Option String) (outcome : Outcome) (reason : Option String)
    (s t : StateStore)
    → record_evidence k event_id context outcome reason s ≡ ok t
    → Records (evidence_of k event_id context outcome reason) s t
      × (t.jobs ≡ s.jobs)
      × (t.attempts ≡ s.attempts)
unfolding record_evidence
record_evidence-Records k event_id context outcome reason s t h =
    let row = evidence_of k event_id context outcome reason in
    let (u, p, q) = >>=-eq-ok (insert_evidence row s) _ h in
    let i = insert_evidence-Inserts row s u p in
    let w = complete_claim-Quiet k.now k.claimed u t q in
    (
      record {
        fresh = i.fresh;
        evidence = w.evidence ∙ i.evidence;
        opens_none = λ c. w.opens_none (subst NoneOpen (sym i.approvals) c);
      },
      w.jobs ∙ i.jobs,
      w.attempts ∙ i.attempts,
    )

-- The evidence is the same, and no approval is opened.
pub record Spares (s t : StateStore) : Type 0 where
  pub evidence : t.evidence ≡ s.evidence
  pub opens_none : NoneOpen s.approvals → NoneOpen t.approvals

Spares-refl : (s t : StateStore) → ok s ≡ ok t → Spares s t
Spares-refl s t h =
    let same : s ≡ t = ground arith in
    subst (Spares s) same (record { evidence = refl; opens_none = λ c. c })

move_row_to_human-Spares :
    (now : ℕ) (reason : String) (s t : StateStore) (j : Option ReviewJob)
    → move_row_to_human now reason s j ≡ ok t
    → Spares s t
unfolding move_row_to_human
move_row_to_human-Spares now reason s t none h = Spares-refl s t h
move_row_to_human-Spares now reason s t (some j) h =
    let moved = record s { jobs = update_rows (is_job j.id) (hand_over now reason) s.jobs } in
    if_ok (may_be_handed_over j.state) (invalidate_job_attempts (j.id ∷ []) reason now moved) (ok s)
      h
      (λ _ x.
        let w = invalidate_job_attempts-ClosesAttempts (j.id ∷ []) reason now moved t x in
        record { evidence = w.evidence; opens_none = w.opens_none })
      (λ _ x. Spares-refl s t x)

move_job_to_human-Spares :
    (now : ℕ) (e : WebhookEvent) (reason : String) (s t : StateStore)
    → move_job_to_human now e reason s ≡ ok t
    → Spares s t
unfolding move_job_to_human
move_job_to_human-Spares now e reason s t h =
    move_row_to_human-Spares now reason s t (first_row job_after (is_job_of e) s.jobs) h

-- A rejection records its evidence, opens no approval, and answers with its reason.
pub reject-Records :
    (k : Ticket) (reason : String) (event_id : Option String) (generation : Option ℕ)
    (affects : Bool) (s : StateStore) (r : LabelResult × StateStore)
    → reject k reason event_id generation affects s ≡ ok r
    → Records (evidence_of k event_id none rejected (some reason)) s r.1
      × (r.0 ≡ rejection k reason event_id generation)
unfolding reject
reject-Records k reason event_id generation affects s r h =
    let (t, p, h1) = >>=-eq-ok (record_evidence k event_id none rejected (some reason) s) _ h in
    let (u, q, h2) =
      >>=-eq-ok
        (insert_outbox none k.webhook.delivery_id "DISCORD_REPORT" k.webhook.repository
          k.webhook.pull_number k.webhook.label_name (rejection_payload reason k.webhook) k.now t)
        _ h1 in
    let (v, m, h3) =
      >>=-eq-ok (if affects then move_job_to_human k.now k.webhook reason u else ok u) _ h2 in
    let (w, _, _) = record_evidence-Records k event_id none rejected (some reason) s t p in
    let x =
      insert_outbox-Quiet none k.webhook.delivery_id "DISCORD_REPORT" k.webhook.repository
        k.webhook.pull_number k.webhook.label_name (rejection_payload reason k.webhook) k.now t u
        q in
    let y : Spares u v =
      if_ok affects (move_job_to_human k.now k.webhook reason u) (ok u) m
        (λ _ z. move_job_to_human-Spares k.now k.webhook reason u v z) (λ _ z. Spares-refl u v z) in
    let same : (rejection k reason event_id generation, v) ≡ r = ground arith in
    (
      subst (λ z. Records (evidence_of k event_id none rejected (some reason)) s z.1) same
          (record {
            fresh = w.fresh;
            evidence = y.evidence ∙ x.evidence ∙ w.evidence;
            opens_none = λ c. y.opens_none (x.opens_none (w.opens_none c));
          }),
      sym (ap (λ z. z.0) same),
    )
