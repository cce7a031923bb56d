-- ===== src/Store/Invalidate/Effects.antt =====
-- What the invalidation of attempts and approvals changes, and what it leaves alone.
use dohwa_hermes_stack.Base.{
  ℕ, ◌≡◌, refl, ap, subst, some, All, ◌==◌, ◌=t◌, count_rows, update_rows-All, require_ok, Bool,
  true, false, ◌&&◌, List, [], ◌∷◌, String, arith, update_rows, ok, >>=-eq-ok, if◌then◌else◌,
  Bool-cases, inl, inr,
}
use dohwa_hermes_stack.Models.{ReviewState}
use dohwa_hermes_stack.Approval.Status.{ApprovalStatus}
use dohwa_hermes_stack.Store.Tables.{
  ReviewAttempt, Approval, StateStore, is_open, is_open_approval, ◌=a◌,
}
use dohwa_hermes_stack.Store.Invalidate.{
  invalidate_approval, invalidate_open_approvals, approvals_of_jobs, id_in, end_attempt,
  invalidate_job_attempts, has_left, left_reason, invalidate_if_job_left_review_context,
}

-- The tables that no invalidation of an approval touches.
pub record SameWork (s t : StateStore) : Type 0 where
  pub jobs : t.jobs ≡ s.jobs
  pub deliveries : t.deliveries ≡ s.deliveries
  pub contents : t.contents ≡ s.contents
  pub attempts : t.attempts ≡ s.attempts
  pub publications : t.publications ≡ s.publications
  pub outbox : t.outbox ≡ s.outbox
  pub reconciliations : t.reconciliations ≡ s.reconciliations
  pub evidence : t.evidence ≡ s.evidence
  pub label_events : t.label_events ≡ s.label_events

invalidate_approval-SameWork :
    (row : Approval) (reason : String) (now : ℕ) (s t : StateStore)
    → invalidate_approval row reason now s ≡ ok t
    → SameWork s t
unfolding invalidate_approval
invalidate_approval-SameWork row reason now s t h = ground arith

SameWork-refl : (s t : StateStore) → ok s ≡ ok t → SameWork s t
SameWork-refl s t e = ground arith

SameWork-trans : (s t u : StateStore) → SameWork s t → SameWork t u → SameWork s u
SameWork-trans s t u p q = ground arith

turn-SameWork :
    (b : Bool) (row : Approval) (reason : String) (now : ℕ) (s t : StateStore)
    → (if b then invalidate_approval row reason now s else ok s) ≡ ok t
    → SameWork s t
turn-SameWork true row reason now s t h = invalidate_approval-SameWork row reason now s t h
turn-SameWork false row reason now s t h = SameWork-refl s t h

pub invalidate_open_approvals-SameWork :
    (rows : List Approval) (reason : String) (now : ℕ) (s t : StateStore)
    → invalidate_open_approvals rows reason now s ≡ ok t
    → SameWork s t
unfolding invalidate_open_approvals
invalidate_open_approvals-SameWork [] reason now s t h = SameWork-refl s t h
invalidate_open_approvals-SameWork (row ∷ rows) reason now s t h =
    let (u, p, q) =
      >>=-eq-ok (if is_open_approval row.status then invalidate_approval row reason now s else ok s)
        _ h in
    SameWork-trans s u t (turn-SameWork (is_open_approval row.status) row reason now s u p)
      (invalidate_open_approvals-SameWork rows reason now u t q)

-- The attempts after the invalidation of the attempts of some jobs.
abbrev pub ended : List ℕ → String → ℕ → List ReviewAttempt → List ReviewAttempt
ended ids reason now =
    update_rows (λ r. id_in r.job_id ids && is_open r.status) (end_attempt reason now)

ended_none : (reason : String) (now : ℕ) (xs : List ReviewAttempt) → ended [] reason now xs ≡ xs
unfolding update_rows id_in
ended_none reason now [] = refl
ended_none reason now (x ∷ xs) = ap (◌∷◌ x) (ended_none reason now xs)

pub record EndsAttempts (ids : List ℕ) (reason : String) (now : ℕ) (s t : StateStore) : Type 0 where
  pub jobs : t.jobs ≡ s.jobs
  pub deliveries : t.deliveries ≡ s.deliveries
  pub attempts : t.attempts ≡ ended ids reason now s.attempts

-- The invalidation of the attempts of jobs ends exactly their open attempts, and leaves the jobs
-- and the deliveries alone.
pub invalidate_job_attempts-EndsAttempts :
    (ids : List ℕ) (reason : String) (now : ℕ) (s t : StateStore)
    → invalidate_job_attempts ids reason now s ≡ ok t
    → EndsAttempts ids reason now s t
unfolding invalidate_job_attempts
invalidate_job_attempts-EndsAttempts [] reason now s t h =
    ground (arith, ended_none reason now s.attempts)
invalidate_job_attempts-EndsAttempts (i ∷ ids) reason now s t h =
    let (u, p, q) =
      >>=-eq-ok (invalidate_open_approvals (approvals_of_jobs (i ∷ ids) s) reason now s) _ h in
    let w = invalidate_open_approvals-SameWork (approvals_of_jobs (i ∷ ids) s) reason now s u p in
    ground (arith, w)

-- The same for one job, where its state asks for it.
pub record Settles (k : ℕ) (state : ReviewState) (now : ℕ) (s t : StateStore) : Type 0 where
  pub jobs : t.jobs ≡ s.jobs
  pub deliveries : t.deliveries ≡ s.deliveries
  pub attempts :
      t.attempts
      ≡ (if has_left state then ended (k ∷ []) (left_reason state) now s.attempts else s.attempts)

pub invalidate_if_job_left_review_context-Settles :
    (k : ℕ) (state : ReviewState) (now : ℕ) (s t : StateStore)
    → invalidate_if_job_left_review_context k state now s ≡ ok t
    → Settles k state now s t
unfolding invalidate_if_job_left_review_context
invalidate_if_job_left_review_context-Settles k state now s t h =
    elim (Bool-cases (has_left state)) [
      | inl l ↦
          let e =
            invalidate_job_attempts-EndsAttempts (k ∷ []) (left_reason state) now s t (rw l at h) in
          record { jobs = e.jobs; deliveries = e.deliveries; attempts = rw l e.attempts }
      | inr n ↦
          let e : ok s ≡ ok t = rw n at h in
          record { jobs = ground arith; deliveries = ground arith; attempts = rw n (ground arith) }
    ]

-- No approval is open.
abbrev pub NoneOpen : List Approval → Type 0
NoneOpen = All (λ (a : Approval). is_open_approval a.status ≡ false)

invalidate_approval-NoneOpen :
    (row : Approval) (reason : String) (now : ℕ) (s t : StateStore)
    → invalidate_approval row reason now s ≡ ok t
    → NoneOpen s.approvals
    → NoneOpen t.approvals
unfolding invalidate_approval
invalidate_approval-NoneOpen row reason now s t h c =
    let same = λ (a : Approval). a.approval_id =t row.approval_id && a.status =a row.status in
    let close = λ (a : Approval). record a {
      status = ApprovalStatus.invalidated;
      invalidated_at = some now;
      invalidation_reason = some reason;
    } in
    let (_, h1) = require_ok (count_rows same s.approvals == 1) _ _ h in
    let e : t.approvals ≡ update_rows same close s.approvals = ground arith in
    rw e (
      update_rows-All (λ (a : Approval). is_open_approval a.status ≡ false)
        (λ (a : Approval). is_open_approval a.status ≡ false) same close (λ a p q. refl)
        (λ a p q. p) s.approvals c)

-- An invalidation of approvals opens none.
pub invalidate_open_approvals-NoneOpen :
    (rows : List Approval) (reason : String) (now : ℕ) (s t : StateStore)
    → invalidate_open_approvals rows reason now s ≡ ok t
    → NoneOpen s.approvals
    → NoneOpen t.approvals
unfolding invalidate_open_approvals
invalidate_open_approvals-NoneOpen [] reason now s t h c =
    let same : s ≡ t = ground arith in subst (λ x. NoneOpen x.approvals) same c
invalidate_open_approvals-NoneOpen (row ∷ rows) reason now s t h c =
    let (u, p, q) =
      >>=-eq-ok (if is_open_approval row.status then invalidate_approval row reason now s else ok s)
        _ h in
    invalidate_open_approvals-NoneOpen rows reason now u t q
      (turn-NoneOpen (is_open_approval row.status) row reason now s u p c)
  where
    turn-NoneOpen :
        (b : Bool) (row : Approval) (reason : String) (now : ℕ) (s u : StateStore)
        → (if b then invalidate_approval row reason now s else ok s) ≡ ok u
        → NoneOpen s.approvals
        → NoneOpen u.approvals
    turn-NoneOpen true row reason now s u h c = invalidate_approval-NoneOpen row reason now s u h c
    turn-NoneOpen false row reason now s u h c =
        let same : s ≡ u = ground arith in subst (λ x. NoneOpen x.approvals) same c

-- What the invalidation of attempts leaves alone, and that it opens no approval.
pub record ClosesAttempts (s t : StateStore) : Type 0 where
  pub evidence : t.evidence ≡ s.evidence
  pub label_events : t.label_events ≡ s.label_events
  pub reconciliations : t.reconciliations ≡ s.reconciliations
  pub opens_none : NoneOpen s.approvals → NoneOpen t.approvals

pub invalidate_job_attempts-ClosesAttempts :
    (ids : List ℕ) (reason : String) (now : ℕ) (s t : StateStore)
    → invalidate_job_attempts ids reason now s ≡ ok t
    → ClosesAttempts s t
unfolding invalidate_job_attempts
invalidate_job_attempts-ClosesAttempts [] reason now s t h =
    let same : s ≡ t = ground arith in
    subst (λ x. ClosesAttempts s x) same
      (record { evidence = refl; label_events = refl; reconciliations = refl; opens_none = λ c. c })
invalidate_job_attempts-ClosesAttempts (i ∷ ids) reason now s t h =
    let (u, p, q) =
      >>=-eq-ok (invalidate_open_approvals (approvals_of_jobs (i ∷ ids) s) reason now s) _ h in
    let w = invalidate_open_approvals-SameWork (approvals_of_jobs (i ∷ ids) s) reason now s u p in
    let same : t.approvals ≡ u.approvals = ground arith in
    record {
      evidence = ground (arith, w);
      label_events = ground (arith, w);
      reconciliations = ground (arith, w);
      opens_none = λ c.
          rw same
            (invalidate_open_approvals-NoneOpen (approvals_of_jobs (i ∷ ids) s) reason now s u p c);
    }
