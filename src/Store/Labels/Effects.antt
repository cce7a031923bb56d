-- ===== src/Store/Labels/Effects.antt =====
-- What the parts of a label decision change in the store.
use dohwa_hermes_stack.Base.{
  ℕ, ◌≡◌, refl, sym, subst, ◌∙◌, Bool, false, not, ◌&&◌, Option, none, some, List, [], ◌∷◌, ◌++◌,
  String, arith, ◌==◌, ◌=t◌, eq_refl, leb, ltb, any, All, All-append, All-imp, update_rows,
  update_rows-All, count_rows, find_row, ok, require_ok, refuse_ok, >>=-eq-ok, if◌then◌else◌, if_ok,
  Value,
}
use dohwa_hermes_stack.Approval.Status.{ApprovalStatus}
use dohwa_hermes_stack.Store.Tables.{
  StateStore, Approval, ApprovalTransition, OutboxRow, is_open_approval, ◌=a◌,
}
use dohwa_hermes_stack.Store.Tables.Signed.{
  TimelineItem, Disposition, ReconciliationRow, order_only_no_approval,
}
use dohwa_hermes_stack.Store.Invalidate.{invalidate_open_approvals}
use dohwa_hermes_stack.Store.Invalidate.Effects.{
  NoneOpen, invalidate_open_approvals-SameWork, invalidate_open_approvals-NoneOpen,
}
use dohwa_hermes_stack.Store.Reconciliations.{owns_reconciliation, is_owned_reconciliation}
use dohwa_hermes_stack.Store.Labels.Record.{
  Claim, Ticket, complete_in_transaction, complete_claim, has_terminal, is_evidence, insert_outbox,
}
use dohwa_hermes_stack.Store.Labels.Timeline.{LabelFold, Snapshot, event_generation}
use dohwa_hermes_stack.Store.Labels.Accept.{
  clashes, insert_event, approvals_of_generation, write_event, write_events, collides,
  insert_approval, activate_approval, close_approval, pass_through, gates_unavailable,
}

-- The evidence, the jobs, the attempts and the contents are the same, and no approval is opened.
pub record Quiet (s t : StateStore) : Type 0 where
  pub evidence : t.evidence ≡ s.evidence
  pub jobs : t.jobs ≡ s.jobs
  pub attempts : t.attempts ≡ s.attempts
  pub contents : t.contents ≡ s.contents
  pub opens_none : NoneOpen s.approvals → NoneOpen t.approvals

pub Quiet-refl : (s t : StateStore) → ok s ≡ ok t → Quiet s t
Quiet-refl s t h =
    let same : s ≡ t = ground arith in
    subst (Quiet s) same (record {
      evidence = refl;
      jobs = refl;
      attempts = refl;
      contents = refl;
      opens_none = λ c. c;
    })

pub Quiet-trans : (s t u : StateStore) → Quiet s t → Quiet t u → Quiet s u
Quiet-trans s t u p q = record {
  evidence = q.evidence ∙ p.evidence;
  jobs = q.jobs ∙ p.jobs;
  attempts = q.attempts ∙ p.attempts;
  contents = q.contents ∙ p.contents;
  opens_none = λ c. q.opens_none (p.opens_none c);
}

-- A store with other rows in tables that no review reads.
Quiet-same :
    (s t : StateStore)
    → t.evidence ≡ s.evidence
    → t.jobs ≡ s.jobs
    → t.attempts ≡ s.attempts
    → t.contents ≡ s.contents
    → t.approvals ≡ s.approvals
    → Quiet s t
Quiet-same s t e j a c p = record {
  evidence = e;
  jobs = j;
  attempts = a;
  contents = c;
  opens_none = subst NoneOpen (sym p);
}

pub complete_in_transaction-Quiet :
    (now : ℕ) (c : Claim) (row : ReconciliationRow) (error : Option String) (s t : StateStore)
    → complete_in_transaction now c row error s ≡ ok t
    → Quiet s t
unfolding complete_in_transaction
complete_in_transaction-Quiet now c row error s t h =
    let (_, h1) = require_ok (owns_reconciliation c.claimed_at c.attempt_count row) _ _ h in
    let (_, h2) =
      require_ok (has_terminal row (find_row (is_evidence row.delivery_id) s.evidence)) _ _ h1 in
    let (_, h3) =
      require_ok
        (count_rows (is_owned_reconciliation row.id c.claimed_at c.attempt_count) s.reconciliations
          == 1)
        _ _ h2 in
    Quiet-same s t (ground arith) (ground arith) (ground arith) (ground arith) (ground arith)

pub complete_claim-Quiet :
    (now : ℕ) (claimed : Option (Claim × ReconciliationRow)) (s t : StateStore)
    → complete_claim now claimed s ≡ ok t
    → Quiet s t
unfolding complete_claim
complete_claim-Quiet now none s t h = Quiet-refl s t h
complete_claim-Quiet now (some (c, row)) s t h = complete_in_transaction-Quiet now c row none s t h

pub insert_outbox-Quiet :
    (approval_id : Option String) (delivery_id action : String) (repository : Option String)
    (pull_number : Option ℕ) (label_name : Option String) (payload : Value) (now : ℕ)
    (s t : StateStore)
    → insert_outbox approval_id delivery_id action repository pull_number label_name payload now s
      ≡ ok t
    → Quiet s t
unfolding insert_outbox
insert_outbox-Quiet a d action (some r) (some n) l p now s t h =
    let (_, h1) =
      refuse_ok (any (λ (r : OutboxRow). r.delivery_id =t d && r.action =t action) s.outbox) _ _
        h in
    Quiet-same s t (ground arith) (ground arith) (ground arith) (ground arith) (ground arith)
insert_outbox-Quiet a d action none n l p now s t h = absurd (cc)
insert_outbox-Quiet a d action (some r) none l p now s t h = absurd (cc)

insert_event-Quiet :
    (g : ℕ) (d : Disposition) (now : ℕ) (i : TimelineItem) (s t : StateStore)
    → insert_event g d now i s ≡ ok t
    → Quiet s t
unfolding insert_event
insert_event-Quiet g d now i s t h =
    let (_, h1) =
      require_ok (ltb 0 i.repository_id && (ltb 0 i.pull_number && ltb 0 i.ordinal)) _ _ h in
    let (_, h2) = refuse_ok (any (clashes i) s.label_events) _ _ h1 in
    Quiet-same s t (ground arith) (ground arith) (ground arith) (ground arith) (ground arith)

invalidate_open_approvals-Quiet :
    (rows : List Approval) (reason : String) (now : ℕ) (s t : StateStore)
    → invalidate_open_approvals rows reason now s ≡ ok t
    → Quiet s t
invalidate_open_approvals-Quiet rows reason now s t h =
    let w = invalidate_open_approvals-SameWork rows reason now s t h in
    record {
      evidence = w.evidence;
      jobs = w.jobs;
      attempts = w.attempts;
      contents = w.contents;
      opens_none = invalidate_open_approvals-NoneOpen rows reason now s t h;
    }

-- Rows that may be open only with one identity and status.
abbrev OpenOnly : String → ApprovalStatus → Approval → Type 0
OpenOnly id status x =
    (is_open_approval x.status && not (x.approval_id =t id && x.status =a status)) ≡ false

abbrev has_status : String → ApprovalStatus → Approval → Bool
has_status id status x = x.approval_id =t id && x.status =a status

abbrev closed : ℕ → Approval → Approval
closed now x = record x {
  status = ApprovalStatus.invalidated;
  invalidated_at = some now;
  invalidation_reason = some gates_unavailable;
}

activated-OpenOnly :
    (id : String) (xs : List Approval)
    → All (OpenOnly id ApprovalStatus.pending) xs
    → All (OpenOnly id ApprovalStatus.active) (
        update_rows
          (has_status id ApprovalStatus.pending)
          (λ x. record x { status = ApprovalStatus.active })
          xs)
activated-OpenOnly id xs a =
    update_rows-All (OpenOnly id ApprovalStatus.pending) (OpenOnly id ApprovalStatus.active)
      (has_status id ApprovalStatus.pending) (λ x. record x { status = ApprovalStatus.active })
      (λ x p q. ground arith) (λ x p q. ground arith) xs a

closed-NoneOpen :
    (now : ℕ) (id : String) (xs : List Approval)
    → All (OpenOnly id ApprovalStatus.active) xs
    → NoneOpen (update_rows (has_status id ApprovalStatus.active) (closed now) xs)
closed-NoneOpen now id xs a =
    update_rows-All (OpenOnly id ApprovalStatus.active)
      (λ (x : Approval). is_open_approval x.status ≡ false) (has_status id ApprovalStatus.active)
      (closed now) (λ x p q. refl) (λ x p q. ground arith) xs a

module _ (now : ℕ) (a : Approval) (pending : a.status ≡ ApprovalStatus.pending) where
  -- An approval passes through its three states and ends invalidated.
  pub pass_through-Quiet : (s t : StateStore) → pass_through now a s ≡ ok t → Quiet s t
  unfolding pass_through insert_approval activate_approval close_approval
  pass_through-Quiet s t h =
      let (u, p, q) = >>=-eq-ok (insert_approval a s) _ h in
      let (_, p1) = refuse_ok (any (collides a) s.approvals) _ _ p in
      let u_is : ok (record s { approvals = s.approvals ++ a ∷ [] }) ≡ ok u = p1 in
      let (_, q1) =
        refuse_ok
          (any (λ (x : ApprovalTransition). x.approval_id =t a.approval_id && leb x.sequence 3)
            s.audit)
          _ _ q in
      let id = a.approval_id in
      let all = s.approvals ++ a ∷ [] in
      let opened =
        update_rows (has_status id ApprovalStatus.pending)
          (λ x. record x { status = ApprovalStatus.active }) all in
      let e : t.approvals ≡ update_rows (has_status id ApprovalStatus.active) (closed now) opened =
        ground arith in
      record {
        evidence = ground arith;
        jobs = ground arith;
        attempts = ground arith;
        contents = ground arith;
        opens_none = λ c. rw e (
            closed-NoneOpen now id opened (
              activated-OpenOnly id all (
                All-append (OpenOnly id ApprovalStatus.pending) s.approvals (a ∷ [])
                  (All-imp _ _ (λ x q. ground arith) s.approvals c)
                  (ground (arith, eq_refl a.approval_id), tt))));
      }

module _ (k : Ticket) (n : Snapshot) (target : String) (f : LabelFold) (d : Disposition)
    (candidate : TimelineItem) where
  write_event-Quiet :
      (i : TimelineItem) (s t : StateStore)
      → write_event k n target f d candidate i s ≡ ok t
      → Quiet s t
  unfolding write_event
  write_event-Quiet i s t h =
      let (u, p, q) =
        >>=-eq-ok
          (insert_event (event_generation f i.event_id)
            (if i.event_id =t candidate.event_id then d else order_only_no_approval) k.now i s)
          _ h in
      Quiet-trans s u t (insert_event-Quiet _ _ k.now i s u p) (
        if_ok (i.label_name =t target && i.action =t "UNLABELED")
          (invalidate_open_approvals (approvals_of_generation n (event_generation f i.event_id) u)
            "LABEL_REMOVED" k.now u)
          (ok u) q
          (λ _ x.
            invalidate_open_approvals-Quiet
              (approvals_of_generation n (event_generation f i.event_id) u) "LABEL_REMOVED" k.now u
              t x)
          (λ _ x. Quiet-refl u t x))

  pub write_events-Quiet :
      (is : List TimelineItem) (s t : StateStore)
      → write_events k n target f d candidate is s ≡ ok t
      → Quiet s t
  unfolding write_events
  write_events-Quiet [] s t h = Quiet-refl s t h
  write_events-Quiet (i ∷ is) s t h =
      let (u, p, q) = >>=-eq-ok (write_event k n target f d candidate i s) _ h in
      Quiet-trans s u t (write_event-Quiet i s u p) (write_events-Quiet is u t q)
