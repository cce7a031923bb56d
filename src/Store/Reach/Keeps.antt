-- ===== src/Store/Reach/Keeps.antt =====
-- The invariant of the state store holds after every history.
use dohwa_hermes_stack.Base.{
  ℕ, ◌≡◌, refl, subst, Bool, false, not, ◌&&◌, ◌||◌, Option, none, some, String, arith, ◌==◌,
  opt_eq, is_none, any, find_row, first_row, update_rows, count_rows, ok, require_ok, refuse_ok,
  ltb, >>=-eq-ok, if_ok, Bool-cases, Option-cases, inl, inr, Value, null, bool, int, str, datetime,
  array, object, pos, negsuc,
}
use dohwa_hermes_stack.Models.{ReviewJob, WebhookEvent}
use dohwa_hermes_stack.Approval.Checks.{max_int64}
use dohwa_hermes_stack.Store.Tables.{OutboxRow, ReviewPublication, StateStore, confirmed, ◌=p◌}
use dohwa_hermes_stack.Store.Tables.Signed.{ReconciliationRow}
use dohwa_hermes_stack.Store.Consistent.{fits, IsConsistent}
use dohwa_hermes_stack.Store.Consistent.Keeps.{update_jobs-Consistent}
use dohwa_hermes_stack.Store.Ingest.{
  is_job, has_delivery, record_delivery, archive_webhook_delivery,
}
use dohwa_hermes_stack.Store.Ingest.Keeps.{ingest-IsConsistent}
use dohwa_hermes_stack.Store.Jobs.{bind_job_repository_id}
use dohwa_hermes_stack.Store.Jobs.Keeps.{
  transition-IsConsistent, claim_next-IsConsistent, recover_after_restart-IsConsistent,
}
use dohwa_hermes_stack.Store.Attempts.{positive_id}
use dohwa_hermes_stack.Store.Attempts.Prepare.{must, is_unresolved_for}
use dohwa_hermes_stack.Store.Attempts.Keeps.{
  prepare_review_attempt-IsConsistent, mark_review_attempt_publish_maybe_sent-IsConsistent,
  activate_review_attempt-IsConsistent, invalidate_review_attempt-IsConsistent,
  confirm_invalidated_review_attempt_publication-IsConsistent,
}
use dohwa_hermes_stack.Store.Publications.{
  is_event, is_marker_size, has_marker, is_outstanding, published_before, is_busy_with,
  new_publication, insert_publication, begin_row, begin_for, must_know, begin_review_publication,
  is_same_publication, is_possibly_sent, confirm_row, confirm_review_publication,
}
use dohwa_hermes_stack.Store.Publications.Once.{begin_row_ok}
use dohwa_hermes_stack.Store.Reconciliations.{
  is_free_reconciliation, claim_reconciliation_row, claim_next_approval_reconciliation,
  owns_reconciliation, is_owned_reconciliation, retry_reconciliation_row,
  retry_approval_reconciliation,
}
use dohwa_hermes_stack.Store.Outbox.{
  is_free_outbox, owns_outbox, is_owned_outbox, claim_outbox_row, claim_next_approval_outbox,
  write_owned, complete_approval_outbox, retry_approval_outbox,
}
use dohwa_hermes_stack.Store.Reach.{
  Step, ingested, archived, transitioned, identity_bound, job_claimed, recovered, attempt_prepared,
  attempt_sent, attempt_activated, attempt_invalidated, attempt_attributed, publication_begun,
  publication_confirmed, outbox_claimed, outbox_completed, outbox_postponed, reconciliation_claimed,
  reconciliation_postponed, reconciliation_enqueued, reconciliation_completed,
  reconciliation_timed_out, label_decided, approvals_expired, descriptor_stored, request_created,
  context_stored, Reach, start, then_step,
}
use dohwa_hermes_stack.Store.Contexts.{store_review_context-IsConsistent}
use dohwa_hermes_stack.Store.Requests.Once.{create_ci_request-IsConsistent}
use dohwa_hermes_stack.Store.Descriptors.Stored.{store_merge_descriptor-IsConsistent}
use dohwa_hermes_stack.Store.Labels.Stays.{
  apply_github_label_approval-IsConsistent, enqueue_approval_reconciliation-IsConsistent,
  complete_approval_reconciliation-IsConsistent,
  reject_timed_out_approval_reconciliation-IsConsistent, expire_github_label_approvals-IsConsistent,
}

-- The jobs and the attempts are the same.
record SameReviews (s t : StateStore) : Type 0 where
  jobs : t.jobs ≡ s.jobs
  attempts : t.attempts ≡ s.attempts

SameReviews-IsConsistent : (s t : StateStore) → SameReviews s t → IsConsistent s → IsConsistent t
SameReviews-IsConsistent s t w c = rw (w.jobs, w.attempts) c

archive-SameReviews :
    (now : ℕ) (e : WebhookEvent) (s : StateStore)
    → SameReviews s (archive_webhook_delivery now e s).1
unfolding archive_webhook_delivery record_delivery
archive-SameReviews now e s = elim (Bool-cases (has_delivery e.delivery_id s)) [
  | inl y ↦ rw y (record { jobs = refl; attempts = refl })
  | inr n ↦ rw n (record { jobs = refl; attempts = refl })
]

insert-SameReviews :
    (p : ReviewPublication) (s t : StateStore) → t ≡ insert_publication p s → SameReviews s t
unfolding insert_publication
insert-SameReviews p s t same = elim (Bool-cases (any (has_marker p.marker) s.publications)) [
  | inl y ↦ ground arith
  | inr n ↦ ground arith
]

begin-SameReviews :
    (now k : ℕ) (marker event : String) (s : StateStore) (r : Bool × StateStore)
    → begin_review_publication now k marker event s ≡ ok r
    → SameReviews s r.1
unfolding begin_review_publication begin_for
begin-SameReviews now k marker event s r h =
    let (_, h1) = require_ok (is_marker_size marker) _ _ h in
    let (_, h2) = require_ok (is_event event) _ _ h1 in
    let (j, _, h3) = >>=-eq-ok (must (find_row (is_job k) s.jobs)) _ h2 in
    let (i, _, h4) = >>=-eq-ok (must_know j.repository_id) _ h3 in
    let u = insert_publication (new_publication now j.id marker event) s in
    let new = not (any (has_marker marker) s.publications) in
    if_ok
      (is_busy_with marker
          (first_row published_before (is_outstanding s.jobs i j.pull_number) s.publications)
        || any (is_unresolved_for i j.pull_number) s.attempts)
      (ok (false, s)) (begin_row j.id event new u (find_row (has_marker marker) u.publications)) h4
      (λ _ x. ground arith)
      (λ _ x.
        insert-SameReviews (new_publication now j.id marker event) s r.1
          (begin_row_ok j.id event new r.0 u r.1 _ x).1)

confirm_row-SameReviews :
    (now k review : ℕ) (marker event : String) (s t : StateStore) (x : Option ReviewPublication)
    → confirm_row now k marker event review s x ≡ ok t
    → SameReviews s t
unfolding confirm_row
confirm_row-SameReviews now k review marker event s t none h =
    let (_, h0) = refuse_ok (ltb max_int64 k || ltb max_int64 review) _ _ h in
    let (_, h1) = require_ok (is_marker_size marker) _ _ h0 in
    let (_, h2) = require_ok (any (is_job k) s.jobs) _ _ h1 in ground arith
confirm_row-SameReviews now k review marker event s t (some p) h =
    let (_, h1) = require_ok (is_same_publication k event p) _ _ h in
    elim (Bool-cases (p.publish_state =p confirmed)) [
      | inl e ↦
          let (_, g) = require_ok (opt_eq ◌==◌ p.github_review_id (some review)) _ _ (rw e at h1) in
          ground arith
      | inr e ↦
          let (_, h2) = refuse_ok (ltb max_int64 review) _ _ (rw e at h1) in
          let (_, g) =
            require_ok (count_rows (is_possibly_sent marker) s.publications == 1) _ _ h2 in
          ground arith
    ]

confirm-SameReviews :
    (now k : ℕ) (marker event : String) (v : Value) (s t : StateStore)
    → confirm_review_publication now k marker event v s ≡ ok t
    → SameReviews s t
unfolding confirm_review_publication
confirm-SameReviews now k marker event v s t h =
    let (review, _, h1) = >>=-eq-ok (positive_id v) _ h in
    let (_, h2) = require_ok (is_event event) _ _ h1 in
    confirm_row-SameReviews now k review marker event s t _ h2

claim_outbox-SameReviews :
    (now : ℕ) (s : StateStore) (x : Option OutboxRow) → SameReviews s (claim_outbox_row now s x).1
unfolding claim_outbox_row
claim_outbox-SameReviews now s none = record { jobs = refl; attempts = refl }
claim_outbox-SameReviews now s (some row) =
    elim (Bool-cases (count_rows (is_free_outbox row.id now) s.outbox == 1)) [
      | inl e ↦ rw e (record { jobs = refl; attempts = refl })
      | inr e ↦ rw e (record { jobs = refl; attempts = refl })
    ]

write_owned-SameReviews :
    (i claimed_at attempt_count : ℕ) (f : OutboxRow → OutboxRow) (message : String)
    (s t : StateStore) (x : Option OutboxRow)
    → write_owned i claimed_at attempt_count f message s x ≡ ok t
    → SameReviews s t
unfolding write_owned
write_owned-SameReviews i c n f message s t none h = absurd (cc)
write_owned-SameReviews i c n f message s t (some row) h =
    elim (Bool-cases (not (is_none row.delivered_at))) [
      | inl e ↦ let g : ok s ≡ ok t = rw e at h in ground arith
      | inr e ↦
          let (_, h1) = require_ok (owns_outbox c n row) _ _ (rw e at h) in
          let (_, h2) = require_ok (count_rows (is_owned_outbox i c n) s.outbox == 1) _ _ h1 in
          ground arith
    ]

claim_reconciliation-SameReviews :
    (now : ℕ) (s : StateStore) (x : Option ReconciliationRow)
    → SameReviews s (claim_reconciliation_row now s x).1
unfolding claim_reconciliation_row
claim_reconciliation-SameReviews now s none = record { jobs = refl; attempts = refl }
claim_reconciliation-SameReviews now s (some row) =
    elim (Bool-cases (count_rows (is_free_reconciliation row.id now) s.reconciliations == 1)) [
      | inl e ↦ rw e (record { jobs = refl; attempts = refl })
      | inr e ↦ rw e (record { jobs = refl; attempts = refl })
    ]

retry_reconciliation-SameReviews :
    (now i c n : ℕ) (error : String) (s t : StateStore) (x : Option ReconciliationRow)
    → retry_reconciliation_row now i error c n s x ≡ ok t
    → SameReviews s t
unfolding retry_reconciliation_row
retry_reconciliation-SameReviews now i c n error s t none h = absurd (cc)
retry_reconciliation-SameReviews now i c n error s t (some row) h =
    elim (Bool-cases (not (is_none row.completed_at))) [
      | inl e ↦ let g : ok s ≡ ok t = rw e at h in ground arith
      | inr e ↦
          let (_, h1) = require_ok (owns_reconciliation c n row) _ _ (rw e at h) in
          let (_, h2) =
            require_ok (count_rows (is_owned_reconciliation i c n) s.reconciliations == 1) _ _ h1 in
          ground arith
    ]

bind-IsConsistent :
    (now k : ℕ) (v : Value) (s : StateStore) (r : ReviewJob × StateStore)
    → bind_job_repository_id now k v s ≡ ok r
    → IsConsistent s
    → IsConsistent r.1
unfolding bind_job_repository_id
bind-IsConsistent now k (int (pos n)) s r h c = elim (Option-cases (find_row (is_job k) s.jobs)) [
  | inl e ↦ absurd (ground arith)
  | inr (row, e) ↦ elim (Option-cases row.repository_id) [
    | inl free ↦
        let jobs : r.1.jobs
            ≡ update_rows (λ (j : ReviewJob). j.id == k && is_none j.repository_id)
                (λ j. record j { repository_id = some n; updated_at = now }) s.jobs =
          ground arith in
        let attempts : r.1.attempts ≡ s.attempts = ground arith in
        rw (jobs, attempts)
          (update_jobs-Consistent fits fits (λ j. j.id == k && is_none j.repository_id)
            (λ j. record j { repository_id = some n; updated_at = now }) (λ j. refl)
            (λ j a f. ground arith) s.jobs s.attempts c)
    | inr (i, known) ↦ let same : s ≡ r.1 = ground arith in subst IsConsistent same c
  ]
]
bind-IsConsistent now k (int (negsuc n)) s r h c = absurd (cc)
bind-IsConsistent now k null s r h c = absurd (cc)
bind-IsConsistent now k (bool b) s r h c = absurd (cc)
bind-IsConsistent now k (str t) s r h c = absurd (cc)
bind-IsConsistent now k (datetime u t) s r h c = absurd (cc)
bind-IsConsistent now k (array t) s r h c = absurd (cc)
bind-IsConsistent now k (object t) s r h c = absurd (cc)

module _ (is_github_timestamp : String → Bool) where
  -- Every operation keeps the invariant, at any time.
  pub Step-IsConsistent :
      (now : ℕ) (s t : StateStore)
      → Step is_github_timestamp now s t
      → IsConsistent s
      → IsConsistent t
  unfolding claim_next_approval_outbox complete_approval_outbox retry_approval_outbox
      claim_next_approval_reconciliation retry_approval_reconciliation
  Step-IsConsistent now s t (ingested e r h) c = ingest-IsConsistent now e s r h c
  Step-IsConsistent now s t (archived e) c =
      SameReviews-IsConsistent s _ (archive-SameReviews now e s) c
  Step-IsConsistent now s t (transitioned k target expected u r h) c =
      transition-IsConsistent now k target expected u s r h c
  Step-IsConsistent now s t (identity_bound k v r h) c = bind-IsConsistent now k v s r h c
  Step-IsConsistent now s t job_claimed c = claim_next-IsConsistent now s c
  Step-IsConsistent now s t recovered c = recover_after_restart-IsConsistent now s c
  Step-IsConsistent now s t (attempt_prepared i k content_id decision r h) c =
      prepare_review_attempt-IsConsistent now i k content_id decision s r h c
  Step-IsConsistent now s t (attempt_sent i u h) c =
      mark_review_attempt_publish_maybe_sent-IsConsistent now i s u h c
  Step-IsConsistent now s t (attempt_activated i v at u h) c =
      activate_review_attempt-IsConsistent is_github_timestamp now i v at s u h c
  Step-IsConsistent now s t (attempt_invalidated i reason u h) c =
      invalidate_review_attempt-IsConsistent now i reason s u h c
  Step-IsConsistent now s t (attempt_attributed i v at u h) c =
      confirm_invalidated_review_attempt_publication-IsConsistent is_github_timestamp now i v at s u
        h c
  Step-IsConsistent now s t (publication_begun k marker event r h) c =
      SameReviews-IsConsistent s r.1 (begin-SameReviews now k marker event s r h) c
  Step-IsConsistent now s t (publication_confirmed k marker event v u h) c =
      SameReviews-IsConsistent s u (confirm-SameReviews now k marker event v s u h) c
  Step-IsConsistent now s t outbox_claimed c =
      SameReviews-IsConsistent s _ (claim_outbox-SameReviews now s _) c
  Step-IsConsistent now s t (outbox_completed i claimed_at n u h) c =
      SameReviews-IsConsistent s u (write_owned-SameReviews i claimed_at n _ _ s u _ h) c
  Step-IsConsistent now s t (outbox_postponed i error claimed_at n u h) c =
      SameReviews-IsConsistent s u (write_owned-SameReviews i claimed_at n _ _ s u _ h) c
  Step-IsConsistent now s t reconciliation_claimed c =
      SameReviews-IsConsistent s _ (claim_reconciliation-SameReviews now s _) c
  Step-IsConsistent now s t (reconciliation_postponed i error claimed_at n u h) c =
      SameReviews-IsConsistent s u
        (retry_reconciliation-SameReviews now i claimed_at n error s u _ h) c
  Step-IsConsistent now s t (reconciliation_enqueued e policy window r h) c =
      enqueue_approval_reconciliation-IsConsistent is_github_timestamp now e policy window s r h c
  Step-IsConsistent now s t (reconciliation_completed k u h) c =
      complete_approval_reconciliation-IsConsistent now k s u h c
  Step-IsConsistent now s t (reconciliation_timed_out k reason affects r h) c =
      reject_timed_out_approval_reconciliation-IsConsistent now k reason affects s r h c
  Step-IsConsistent now s t
        (label_decided p lower n d clock m fresh e received_at id claimed_at attempt_count r h w)
        c =
      apply_github_label_approval-IsConsistent p lower n d clock m fresh now e received_at id
        claimed_at attempt_count s r h w c
  Step-IsConsistent now s t
        (approvals_expired repository_id repository pull_number clock monotonic r h) c =
      expire_github_label_approvals-IsConsistent now repository_id repository pull_number clock
        monotonic s r h c
  Step-IsConsistent now s t (descriptor_stored sha1_hex sha256_hex dumps loads job_id d r h) c =
      store_merge_descriptor-IsConsistent sha1_hex sha256_hex dumps loads job_id d now s r h c
  Step-IsConsistent now s t (context_stored sha256_hex dumps loads value r h) c =
      store_review_context-IsConsistent sha256_hex dumps loads value now s r h c
  Step-IsConsistent now s t
        (request_created sha1_hex sha256_hex reformat dumps loads digest i state reason r h) c =
      create_ci_request-IsConsistent sha1_hex sha256_hex reformat dumps loads digest i state reason
        now s r h c

-- In every store that the program reaches from the empty one, by the modelled operations in any
-- order with any arguments, but for label decisions that name a new approval, job identities are
-- unique, no job that has left its review has an open attempt, a pull request has at most one open
-- attempt, and every attempt has the columns of its status and a job.
pub Reach-IsConsistent :
    (is_github_timestamp : String → Bool) (s : StateStore)
    → Reach is_github_timestamp s
    → IsConsistent s
Reach-IsConsistent is_github_timestamp s start = record {
  job_keys = tt;
  no_stale = tt;
  one_open = tt;
  shapes = tt;
  known = tt;
}
Reach-IsConsistent is_github_timestamp s (then_step now u t reached step) =
    Step-IsConsistent is_github_timestamp now u t step
      (Reach-IsConsistent is_github_timestamp u reached)
