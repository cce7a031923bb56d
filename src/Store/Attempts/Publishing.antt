-- ===== src/Store/Attempts/Publishing.antt =====
-- A review is sent to GitHub at most once for an attempt, and an activation is repeatable.
use dohwa_hermes_stack.Base.{
  ℕ, ◌≡◌, refl, subst, ◌∙◌, Bool, true, ◌&&◌, Option, none, some, String, Value, arith, eq_iff,
  ◌==◌, ◌=t◌, opt_eq, opt_eq-text, any, find_row, find_row_passes, find_row-All, find_row-update_at,
  count_rows, update_rows, ok, err, runtime_error, >>=-eq-ok, require_ok, refuse_ok, ltb,
  Bool-cases, inl, ◌⊎◌, inr,
}
use dohwa_hermes_stack.Models.{ReviewJob}
use dohwa_hermes_stack.Approval.Checks.{max_int64}
use dohwa_hermes_stack.Approval.Status.{ReviewAttemptStatus}
use dohwa_hermes_stack.Store.Tables.{
  ReviewContextRow, ReviewAttempt, StateStore, not_sent, maybe_sent, confirmed, ◌=p◌,
}
use dohwa_hermes_stack.Store.Consistent.{HasShape, IsConsistent}
use dohwa_hermes_stack.Store.Ingest.{is_job}
use dohwa_hermes_stack.Store.Attempts.{
  is_context, must_have, update_attempt, mark_review_attempt_publish_maybe_sent, sending, is_unsent,
  has_review, positive_id, activate_row, activating, is_unconfirmed, activate_review_attempt,
}
use dohwa_hermes_stack.Store.Attempts.Prepare.{◌=r◌, validate_review_job_context, is_content, must}

must-some {ℓ} : {A : Type ℓ} (o : Option A) (a : A) → must o ≡ ok a → o ≡ some a
must-some none a h = cc
must-some (some b) a h = ground arith

-- After a review was recorded as possibly sent, a second sending of the same attempt is refused at
-- any later time.
pub mark_review_attempt_publish_maybe_sent_once :
    (now later : ℕ) (i : String) (s t : StateStore)
    → mark_review_attempt_publish_maybe_sent now i s ≡ ok t
    → mark_review_attempt_publish_maybe_sent later i t
      ≡ err (runtime_error "review publish may already have been sent; reconcile marker instead")
unfolding mark_review_attempt_publish_maybe_sent update_attempt
mark_review_attempt_publish_maybe_sent_once now later i s t h =
    let (a, m, h1) = >>=-eq-ok (must (find_row (is_context i) s.attempts)) _ h in
    let (p, h2) = require_ok (a.status =r ReviewAttemptStatus.prepared) _ _ h1 in
    let (q, h3) = require_ok (a.publish_state =p not_sent) _ _ h2 in
    let (_, h4) = require_ok (count_rows (is_unsent i) s.attempts == 1) _ _ h3 in
    let found = must-some _ a m in
    let again =
      find_row-update_at (is_context i) (is_unsent i) (sending now) (λ x e. ground arith) (λ x e. e)
        s.attempts a found
        (let c = find_row_passes (is_context i) s.attempts found in ground arith) in
    let attempts : t.attempts ≡ update_rows (is_unsent i) (sending now) s.attempts = ground arith in
    rw (attempts, again) (ground arith)

-- What an activation leaves for the context: an active attempt bound to the review.
abbrev pub IsBound : ℕ → String → String → StateStore → Type 0
IsBound review at i t =
    (b : ReviewAttempt) × (find_row (is_context i) t.attempts ≡ some b)
    × (b.status ≡ ReviewAttemptStatus.active)
    × (b.publish_state ≡ confirmed)
    × (b.github_review_id ≡ some review)
    × (b.submitted_at ≡ some at)

module _ (now review : ℕ) (at : String) (a : ReviewAttempt) (s t : StateStore) where
  -- An activation that succeeds on a stored row has changed nothing of an active attempt that is
  -- bound to the same review, or has confirmed an attempt that was possibly sent.
  activate_row_cases :
      find_row (is_context a.review_context_id) s.attempts ≡ some a
      → activate_row now review at a s ≡ ok t
      → ((t ≡ s)
          × (a.status ≡ ReviewAttemptStatus.active)
          × (a.github_review_id ≡ some review)
          × (a.submitted_at ≡ some at))
        ⊎ ((a.publish_state ≡ maybe_sent)
            × (find_row (is_context a.review_context_id) t.attempts
                ≡ some (activating now review at a))
            × (t.jobs ≡ s.jobs)
            × (t.contents ≡ s.contents))
  unfolding activate_row update_attempt
  activate_row_cases found h = elim (Bool-cases (a.status =r ReviewAttemptStatus.active)) [
    | inl e ↦
        let (b, g) =
          require_ok
            (opt_eq ◌==◌ a.github_review_id (some review) && opt_eq ◌=t◌ a.submitted_at (some at)) _
            _ (rw e at h) in
        inl (
          ground arith,
          ground arith,
          ground arith,
          ground (arith, opt_eq-text a.submitted_at (some at)),
        )
    | inr e ↦
        let (p, h1) = require_ok (a.status =r ReviewAttemptStatus.prepared) _ _ (rw e at h) in
        let (q, h2) = require_ok (a.publish_state =p maybe_sent) _ _ h1 in
        let (_, h21) = refuse_ok (ltb max_int64 review) _ _ h2 in
        let (_, h3) =
          refuse_ok (any (has_review a.repository_id review a.review_context_id) s.attempts) _ _
            h21 in
        let (_, h4) =
          require_ok (count_rows (is_unconfirmed a.review_context_id) s.attempts == 1) _ _ h3 in
        let attempts : t.attempts
            ≡ update_rows (is_unconfirmed a.review_context_id) (activating now review at)
                s.attempts =
          ground arith in
        inr (
          ground arith,
          rw attempts (
              find_row-update_at (is_context a.review_context_id)
                (is_unconfirmed a.review_context_id) (activating now review at)
                (λ x e. ground arith) (λ x e. e) s.attempts a found
                (let c = find_row_passes (is_context a.review_context_id) s.attempts found in
                  ground arith)),
          ground arith,
          ground arith,
        )
  ]

must_have-some {ℓ} : {A : Type ℓ} (o : Option A) (a : A) → must_have o ≡ ok a → o ≡ some a
must_have-some none a h = cc
must_have-some (some b) a h = ground arith

-- On a row that is active and bound to the review, an activation changes nothing.
activate_row_again :
    (later review : ℕ) (at : String) (b : ReviewAttempt) (t : StateStore)
    → b.status ≡ ReviewAttemptStatus.active
    → b.github_review_id ≡ some review
    → b.submitted_at ≡ some at
    → activate_row later review at b t ≡ ok t
unfolding activate_row
activate_row_again later review at b t p q r = ground (arith, opt_eq-text b.submitted_at (some at))

-- The checks of an activation that stand before the work on the row, all passed.
module _ (is_github_timestamp : String → Bool) (i : String) (v : Value) (at : String) (review : ℕ)
    (b : ReviewAttempt) (job : ReviewJob) (content : ReviewContextRow) (t : StateStore) where
  activate_at :
      (now : ℕ)
      → positive_id v ≡ ok review
      → is_github_timestamp at ≡ true
      → find_row (is_context i) t.attempts ≡ some b
      → find_row (is_job b.job_id) t.jobs ≡ some job
      → find_row (is_content b.content_id) t.contents ≡ some content
      → validate_review_job_context job content ≡ ok tt
      → (b.review_decision =t "pass") ≡ true
      → opt_eq ◌=t◌ job.review_decision (some "pass") ≡ true
      → activate_review_attempt is_github_timestamp now i v at t ≡ activate_row now review at b t
  unfolding activate_review_attempt
  activate_at now p q r x y z d w = rw (p, q, r, x, y, z, d, w) refl

-- The work on the row leaves the attempt bound, and can be repeated.
module _ (is_github_timestamp : String → Bool) (now later review : ℕ) (v : Value) (at : String)
    (a : ReviewAttempt) (job : ReviewJob) (content : ReviewContextRow) (s t : StateStore) where
  activate_row-IsBound :
      IsConsistent s
      → positive_id v ≡ ok review
      → is_github_timestamp at ≡ true
      → find_row (is_context a.review_context_id) s.attempts ≡ some a
      → find_row (is_job a.job_id) s.jobs ≡ some job
      → find_row (is_content a.content_id) s.contents ≡ some content
      → validate_review_job_context job content ≡ ok tt
      → (a.review_decision =t "pass") ≡ true
      → opt_eq ◌=t◌ job.review_decision (some "pass") ≡ true
      → activate_row now review at a s ≡ ok t
      → IsBound review at a.review_context_id t
        × (activate_review_attempt is_github_timestamp later a.review_context_id v at t ≡ ok t)
  activate_row-IsBound c p q found x y z d w h =
      elim (activate_row_cases now review at a s t found h) [
        | inl (same, active, bound, stamp) ↦
            let shape : HasShape a =
              find_row-All HasShape (is_context a.review_context_id) s.attempts found c.shapes in
            (
              (a, rw same found, active, ground arith, bound, stamp),
              activate_at is_github_timestamp a.review_context_id v at review a job content t later
                    p q (rw same found) (rw same x) (rw same y) z d w
                  ∙ activate_row_again later review at a t active bound stamp,
            )
        | inr (sent, row, jobs, contents) ↦ (
          (activating now review at a, row, refl, refl, refl, refl),
          activate_at is_github_timestamp a.review_context_id v at review
                (activating now review at a) job content t later p q row (rw jobs x) (rw contents y)
                z d w
              ∙ activate_row_again later review at (activating now review at a) t refl refl refl,
        )
      ]

-- An activation that succeeds on a consistent store leaves the attempt active, confirmed and bound
-- to the review; the store had the attempt, with the decision `pass`, and its job, with the decision
-- `pass`, and its context, which match each other; and the same activation at any later time succeeds
-- and changes nothing more.
pub activate_review_attempt-IsBound :
    (is_github_timestamp : String → Bool) (now later : ℕ) (i : String) (v : Value) (at : String)
    (s t : StateStore)
    → IsConsistent s
    → activate_review_attempt is_github_timestamp now i v at s ≡ ok t
    → (review : ℕ) × (positive_id v ≡ ok review)
      × IsBound review at i t
      × ((a : ReviewAttempt) × (job : ReviewJob) × (content : ReviewContextRow) × (find_row
              (is_context i)
              s.attempts
            ≡ some a)
          × (find_row (is_job a.job_id) s.jobs ≡ some job)
          × (find_row (is_content a.content_id) s.contents ≡ some content)
          × (validate_review_job_context job content ≡ ok tt)
          × ((a.review_decision =t "pass") ≡ true)
          × (opt_eq ◌=t◌ job.review_decision (some "pass") ≡ true))
      × (activate_review_attempt is_github_timestamp later i v at t ≡ ok t)
unfolding activate_review_attempt
activate_review_attempt-IsBound is_github_timestamp now later i v at s t c h =
    let (review, p, h1) = >>=-eq-ok (positive_id v) _ h in
    let (stamp, h2) = require_ok (is_github_timestamp at) _ _ h1 in
    let (a, ma, h3) = >>=-eq-ok (must (find_row (is_context i) s.attempts)) _ h2 in
    let (job, mj, h4) = >>=-eq-ok (must_have (find_row (is_job a.job_id) s.jobs)) _ h3 in
    let (content, mc, h5) =
      >>=-eq-ok (must_have (find_row (is_content a.content_id) s.contents)) _ h4 in
    let (_, valid, h6) = >>=-eq-ok (validate_review_job_context job content) _ h5 in
    let (pass, h7) = require_ok (a.review_decision =t "pass") _ _ h6 in
    let (passed, h8) = require_ok (opt_eq ◌=t◌ job.review_decision (some "pass")) _ _ h7 in
    let found = must-some _ a ma in
    let has_job = must_have-some _ job mj in
    let has_content = must_have-some _ content mc in
    let same : a.review_context_id ≡ i =
      (eq_iff a.review_context_id i).0 (find_row_passes (is_context i) s.attempts found) in
    let (bound, again) =
      activate_row-IsBound is_github_timestamp now later review v at a job content s t c p stamp
        (rw same found) has_job has_content valid pass passed h8 in
    (
      review,
      p,
      subst (λ k. IsBound review at k t) same bound,
      (a, job, content, found, has_job, has_content, valid, pass, passed),
      subst (λ k. activate_review_attempt is_github_timestamp later k v at t ≡ ok t) same again,
    )
