-- ===== src/Store/Attempts/Keeps.antt =====
-- The methods of a review attempt's life keep the invariant of the state store.
use dohwa_hermes_stack.Base.{
  ℕ, ◌<◌, ◌≡◌, refl, subst, Bool, true, false, ◌&&◌, Option, none, some, [], ◌∷◌, ◌++◌, String,
  Value, arith, ◌==◌, ◌=t◌, opt_eq, any, All, All-append, All-imp, All-imp₂, any-find_row,
  Apart-append, Apart-update, find_row, find_row-none, find_row-only, count_rows, update_rows,
  update_rows-All, ok, >>=-eq-ok, require, require_ok, refuse_ok, ltb, runtime_error, Bool-cases,
  inl, inr,
}
use dohwa_hermes_stack.Models.{ReviewJob}
use dohwa_hermes_stack.Approval.Checks.{is_hex, max_int64}
use dohwa_hermes_stack.Approval.Status.{ReviewAttemptStatus}
use dohwa_hermes_stack.Store.Tables.{
  ReviewContextRow, ReviewAttempt, StateStore, not_sent, maybe_sent, is_open, ◌=p◌,
}
use dohwa_hermes_stack.Store.Invalidate.{has_left}
use dohwa_hermes_stack.Store.Consistent.{fits, clash, HasShape, knows, IsConsistent}
use dohwa_hermes_stack.Store.Ingest.{is_job}
use dohwa_hermes_stack.Store.Attempts.{
  is_context, must_have, update_attempt, mark_review_attempt_publish_maybe_sent, sending, is_unsent,
  activate_row, activating, is_unconfirmed, has_review, positive_id, is_attributed, must_fail,
  activate_review_attempt, ending, invalidate_review_attempt, attribute_row, attributing,
  is_unattributed, confirm_invalidated_review_attempt_publication,
}
use dohwa_hermes_stack.Store.Attempts.Prepare.{
  ◌=r◌, validate_review_job_context, is_open_for, is_unresolved_for, new_attempt,
  has_unresolved_review_publication, must, insert_attempt, prepare_unless_open,
  prepare_review_attempt, is_content,
}

-- An update of attempts that opens none, keeps their identities and gives the columns of their
-- status keeps the invariant.
pub update_attempt-IsConsistent :
    (p : ReviewAttempt → Bool) (f : ReviewAttempt → ReviewAttempt) (message : String)
    (s t : StateStore)
    → ((a : ReviewAttempt) → p a ≡ true → is_open (f a).status ≡ true → is_open a.status ≡ true)
    → ((a : ReviewAttempt)
        → ((f a).job_id ≡ a.job_id)
          × ((f a).repository_id ≡ a.repository_id)
          × ((f a).pull_number ≡ a.pull_number))
    → ((a : ReviewAttempt) → HasShape a → p a ≡ true → HasShape (f a))
    → update_attempt p f message s ≡ ok t
    → IsConsistent s
    → IsConsistent t
unfolding update_attempt
update_attempt-IsConsistent p f message s t opens same shape h c =
    let (_, _, e) =
      >>=-eq-ok (require (count_rows p s.attempts == 1) (runtime_error message)) _ h in
    let jobs : t.jobs ≡ s.jobs = ground arith in
    let attempts : t.attempts ≡ update_rows p f s.attempts = ground arith in
    rw (jobs, attempts)
      (record {
        job_keys = c.job_keys;
        no_stale =
            All-imp _ _
              (λ j r.
                update_rows-All (λ a. fits j a ≡ true) (λ a. fits j a ≡ true) p f
                  (λ a k q. ground (arith, opens a q, same a)) (λ a k q. k) s.attempts r)
              s.jobs c.no_stale;
        one_open =
            Apart-update _ p f (λ a b k. ground (arith, opens a, opens b, same a, same b))
              s.attempts c.one_open;
        shapes = update_rows-All HasShape HasShape p f shape (λ a k q. k) s.attempts c.shapes;
        known =
            update_rows-All (λ a. knows s.jobs a ≡ true) (λ a. knows s.jobs a ≡ true) p f
              (λ a k q. rw (same a).0 k) (λ a k q. k) s.attempts c.known;
      })

same-IsConsistent : (s t : StateStore) → ok s ≡ ok t → IsConsistent s → IsConsistent t
same-IsConsistent s t e c = let same : s ≡ t = ground arith in subst IsConsistent same c

-- To record that a review may have been sent keeps the invariant.
pub mark_review_attempt_publish_maybe_sent-IsConsistent :
    (now : ℕ) (i : String) (s t : StateStore)
    → mark_review_attempt_publish_maybe_sent now i s ≡ ok t
    → IsConsistent s
    → IsConsistent t
unfolding mark_review_attempt_publish_maybe_sent
mark_review_attempt_publish_maybe_sent-IsConsistent now i s t h c =
    let (a, _, h1) = >>=-eq-ok (must (find_row (is_context i) s.attempts)) _ h in
    let (_, h2) = require_ok (a.status =r ReviewAttemptStatus.prepared) _ _ h1 in
    let (_, h3) = require_ok (a.publish_state =p not_sent) _ _ h2 in
    update_attempt-IsConsistent (is_unsent i) (sending now) "review publish state CAS failed" s t
      (λ a q o. o) (λ a. (refl, refl, refl)) (λ a k q. ground arith) h3 c

activate_row-IsConsistent :
    (now review : ℕ) (submitted_at : String) (a : ReviewAttempt) (s t : StateStore)
    → 0 < review
    → activate_row now review submitted_at a s ≡ ok t
    → IsConsistent s
    → IsConsistent t
unfolding activate_row
activate_row-IsConsistent now review submitted_at a s t positive h c =
    elim (Bool-cases (a.status =r ReviewAttemptStatus.active)) [
      | inl e ↦ let (_, g) = require_ok _ _ _ (rw e at h) in same-IsConsistent s t g c
      | inr e ↦
          let (_, h1) = require_ok (a.status =r ReviewAttemptStatus.prepared) _ _ (rw e at h) in
          let (_, h2) = require_ok (a.publish_state =p maybe_sent) _ _ h1 in
          let (_, h21) = refuse_ok (ltb max_int64 review) _ _ h2 in
          let (_, h3) =
            refuse_ok (any (has_review a.repository_id review a.review_context_id) s.attempts) _ _
              h21 in
          update_attempt-IsConsistent (is_unconfirmed a.review_context_id)
            (activating now review submitted_at) "review attempt activation CAS failed" s t
            (λ a q o. ground arith) (λ a. (refl, refl, refl)) (λ a k q. ground arith) h3 c
    ]

positive_id_pos : (v : Value) (n : ℕ) → positive_id v ≡ ok n → 0 < n
positive_id_pos v n h = ground arith

-- The activation of an attempt keeps the invariant.
pub activate_review_attempt-IsConsistent :
    (is_github_timestamp : String → Bool) (now : ℕ) (i : String) (v : Value) (submitted_at : String)
    (s t : StateStore)
    → activate_review_attempt is_github_timestamp now i v submitted_at s ≡ ok t
    → IsConsistent s
    → IsConsistent t
unfolding activate_review_attempt
activate_review_attempt-IsConsistent is_github_timestamp now i v submitted_at s t h c =
    let (review, p, h1) = >>=-eq-ok (positive_id v) _ h in
    let (_, h2) = require_ok (is_github_timestamp submitted_at) _ _ h1 in
    let (a, _, h3) = >>=-eq-ok (must (find_row (is_context i) s.attempts)) _ h2 in
    let (job, _, h4) = >>=-eq-ok (must_have (find_row (is_job a.job_id) s.jobs)) _ h3 in
    let (content, _, h5) =
      >>=-eq-ok (must_have (find_row (is_content a.content_id) s.contents)) _ h4 in
    let (_, _, h6) = >>=-eq-ok (validate_review_job_context job content) _ h5 in
    let (_, h7) = require_ok (a.review_decision =t "pass") _ _ h6 in
    let (_, h8) = require_ok (opt_eq ◌=t◌ job.review_decision (some "pass")) _ _ h7 in
    activate_row-IsConsistent now review submitted_at a s t (positive_id_pos v review p) h8 c

-- The invalidation of an attempt keeps the invariant.
pub invalidate_review_attempt-IsConsistent :
    (now : ℕ) (i reason : String) (s t : StateStore)
    → invalidate_review_attempt now i reason s ≡ ok t
    → IsConsistent s
    → IsConsistent t
unfolding invalidate_review_attempt
invalidate_review_attempt-IsConsistent now i reason s t h c =
    let (_, h1) = refuse_ok (reason =t "") _ _ h in
    let (a, _, h2) = >>=-eq-ok (must (find_row (is_context i) s.attempts)) _ h1 in
    elim (Bool-cases (a.status =r ReviewAttemptStatus.invalidated)) [
      | inl e ↦ let (_, g) = require_ok _ _ _ (rw e at h2) in same-IsConsistent s t g c
      | inr e ↦
          update_attempt-IsConsistent (λ r. is_context i r && is_open r.status) (ending now reason)
            "review attempt invalidation CAS failed" s t (λ r q o. absurd (cc))
            (λ r. (refl, refl, refl)) (λ r k q. ground arith) (rw e at h2) c
    ]

attribute_row-IsConsistent :
    (now review : ℕ) (submitted_at : String) (a : ReviewAttempt) (s t : StateStore)
    → attribute_row now review submitted_at a s ≡ ok t
    → IsConsistent s
    → IsConsistent t
unfolding attribute_row
attribute_row-IsConsistent now review submitted_at a s t h c =
    elim (Bool-cases (is_attributed review submitted_at a)) [
      | inl e ↦ same-IsConsistent s t (rw e at h) c
      | inr e ↦
          let (_, h1) = require_ok (is_unattributed a) _ _ (rw e at h) in
          let (job, _, h2) = >>=-eq-ok (must_have (find_row (is_job a.job_id) s.jobs)) _ h1 in
          let (content, _, h3) =
            >>=-eq-ok (must_have (find_row (is_content a.content_id) s.contents)) _ h2 in
          let (_, _, h4) = >>=-eq-ok (must_fail (validate_review_job_context job content)) _ h3 in
          let (_, h41) = refuse_ok (ltb max_int64 review) _ _ h4 in
          let (_, h5) =
            refuse_ok (any (has_review a.repository_id review a.review_context_id) s.attempts) _ _
              h41 in
          update_attempt-IsConsistent (λ r. is_context a.review_context_id r && is_unattributed r)
            (attributing now review submitted_at) "review publication attribution CAS failed" s t
            (λ r q o. ground arith) (λ r. (refl, refl, refl)) (λ r k q. ground arith) h5 c
    ]

-- The attribution of a review to an invalidated attempt keeps the invariant.
pub confirm_invalidated_review_attempt_publication-IsConsistent :
    (is_github_timestamp : String → Bool) (now : ℕ) (i : String) (v : Value) (submitted_at : String)
    (s t : StateStore)
    → confirm_invalidated_review_attempt_publication is_github_timestamp now i v submitted_at s
      ≡ ok t
    → IsConsistent s
    → IsConsistent t
unfolding confirm_invalidated_review_attempt_publication
confirm_invalidated_review_attempt_publication-IsConsistent is_github_timestamp now i v submitted_at
      s t h c =
    let (review, _, h1) = >>=-eq-ok (positive_id v) _ h in
    let (_, h2) = require_ok (is_github_timestamp submitted_at) _ _ h1 in
    let (a, _, h3) = >>=-eq-ok (must (find_row (is_context i) s.attempts)) _ h2 in
    attribute_row-IsConsistent now review submitted_at a s t h3 c

-- A new attempt of a job that still stands behind its review, where the pull request has no open
-- attempt, keeps the invariant.
insert_attempt-IsConsistent :
    (a : ReviewAttempt) (s : StateStore) (r : ReviewAttempt × StateStore)
    → insert_attempt a s ≡ ok r
    → All (λ j. fits j a ≡ true) s.jobs
    → knows s.jobs a ≡ true
    → All (λ b. clash b a ≡ false) s.attempts
    → HasShape a
    → IsConsistent s
    → IsConsistent r.1
unfolding insert_attempt
insert_attempt-IsConsistent a s r h fit known apart shape c =
    let jobs : r.1.jobs ≡ s.jobs = ground arith in
    let attempts : r.1.attempts ≡ s.attempts ++ a ∷ [] = ground arith in
    rw (jobs, attempts)
      (record {
        job_keys = c.job_keys;
        no_stale =
            All-imp₂ _ _ _ (λ j f k. All-append _ s.attempts (a ∷ []) k (f, tt)) s.jobs fit
              c.no_stale;
        one_open = Apart-append _ s.attempts a c.one_open apart;
        shapes = All-append _ s.attempts (a ∷ []) c.shapes (shape, tt);
        known = All-append _ s.attempts (a ∷ []) c.known (known, tt);
      })

must_ok {ℓ} : {A : Type ℓ} (o : Option A) {a : A} → must o ≡ ok a → o ≡ some a
must_ok none h = cc
must_ok (some a) h = ground arith

validated :
    (job : ReviewJob) (content : ReviewContextRow)
    → validate_review_job_context job content ≡ ok tt
    → has_left job.state ≡ false
unfolding validate_review_job_context has_left
validated job content h = ground arith

prepare_unless_open-IsConsistent :
    (now : ℕ) (i : String) (k : ℕ) (job : ReviewJob) (content : ReviewContextRow) (s : StateStore)
    (x : Option ReviewAttempt) (r : ReviewAttempt × StateStore)
    → prepare_unless_open now i k content s x ≡ ok r
    → find_row (is_open_for content.repository_id content.pull_number) s.attempts ≡ x
    → find_row (is_job k) s.jobs ≡ some job
    → has_left job.state ≡ false
    → IsConsistent s
    → IsConsistent r.1
unfolding prepare_unless_open new_attempt
prepare_unless_open-IsConsistent now i k job content s (some a) r h e found stays c =
    elim (Bool-cases (a.job_id == k && a.content_id =t content.content_id)) [
      | inl same ↦
          let g : ok (a, s) ≡ ok r = rw same at h in
          let kept : s ≡ r.1 = ground arith in subst IsConsistent kept c
      | inr other ↦ absurd (ground arith)
    ]
prepare_unless_open-IsConsistent now i k job content s none r h e found stays c =
    let (_, h1) =
      refuse_ok (any (is_unresolved_for content.repository_id content.pull_number) s.attempts) _ _
        h in
    insert_attempt-IsConsistent (new_attempt now i k content) s r h1
      (All-imp _ _ (λ j only. ground (arith, only)) s.jobs
        (find_row-only (λ j. j.id) k s.jobs c.job_keys found))
      (any-find_row (is_job k) s.jobs found)
      (All-imp _ _ (λ b q. ground arith) s.attempts
        (find_row-none (is_open_for content.repository_id content.pull_number) s.attempts e))
      refl c

-- The preparation of an attempt keeps the invariant: in particular a pull request never has two
-- open attempts.
pub prepare_review_attempt-IsConsistent :
    (now : ℕ) (i : String) (k : ℕ) (content_id decision : String) (s : StateStore)
    (r : ReviewAttempt × StateStore)
    → prepare_review_attempt now i k content_id decision s ≡ ok r
    → IsConsistent s
    → IsConsistent r.1
unfolding prepare_review_attempt
prepare_review_attempt-IsConsistent now i k content_id decision s r h c =
    let (_, h1) = require_ok (is_hex 64 content_id) _ _ h in
    let (_, h2) = require_ok (decision =t "pass") _ _ h1 in
    let (job, p, h3) = >>=-eq-ok (must (find_row (is_job k) s.jobs)) _ h2 in
    let (content, _, h4) = >>=-eq-ok (must (find_row (is_content content_id) s.contents)) _ h3 in
    let (_, valid, h5) = >>=-eq-ok (validate_review_job_context job content) _ h4 in
    let (_, h6) =
      refuse_ok (has_unresolved_review_publication content.repository_id content.pull_number s) _ _
        h5 in
    prepare_unless_open-IsConsistent now i k job content s
      (find_row (is_open_for content.repository_id content.pull_number) s.attempts) r h6 refl
      (must_ok (find_row (is_job k) s.jobs) p) (validated job content valid) c
