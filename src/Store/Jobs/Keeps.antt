-- ===== src/Store/Jobs/Keeps.antt =====
-- The methods that move jobs keep the invariant of the state store.
use dohwa_hermes_stack.Base.{
  ℕ, ◌≡◌, refl, Option, none, some, arith, ◌==◌, find_row, find_row-update, count_rows, update_rows,
  ok, >>=-eq-ok, Bool-cases, inl, inr, require, runtime_error,
}
use dohwa_hermes_stack.Models.{ReviewState, ReviewJob, validate_transition}
use dohwa_hermes_stack.Store.Tables.{StateStore}
use dohwa_hermes_stack.Store.Invalidate.{
  has_left, left_reason, invalidate_if_job_left_review_context,
}
use dohwa_hermes_stack.Store.Invalidate.Effects.{invalidate_if_job_left_review_context-Settles}
use dohwa_hermes_stack.Store.Consistent.{fits, fits_but, IsConsistent}
use dohwa_hermes_stack.Store.Consistent.Keeps.{update_jobs-Consistent, settled, settled-Consistent}
use dohwa_hermes_stack.Store.Ingest.{is_job}
use dohwa_hermes_stack.Store.Jobs.{
  JobUpdate, moved, is_expected, transition_row, transition, is_queued_job, claimed, claim_row,
  claim_next, is_reviewing, interrupted, recover_after_restart,
}

transition_row-IsConsistent :
    (now k : ℕ) (target : ReviewState) (expected : Option ReviewState) (u : JobUpdate)
    (s : StateStore) (x : Option ReviewJob) (r : ReviewJob × StateStore)
    → transition_row now k target expected u s x ≡ ok r
    → find_row (is_job k) s.jobs ≡ x
    → IsConsistent s
    → IsConsistent r.1
unfolding transition_row
transition_row-IsConsistent now k target expected u s none r h found c = absurd (cc)
transition_row-IsConsistent now k target expected u s (some row) r h found c =
    let jobs = update_rows (is_job k) (moved now target u) s.jobs in
    let (_, _, h1) =
      >>=-eq-ok
        (require (is_expected expected row.state)
          (runtime_error "job is not in the expected state"))
        _ h in
    let (_, _, h2) = >>=-eq-ok (validate_transition row.state target) _ h1 in
    let (t, p, q) =
      >>=-eq-ok (invalidate_if_job_left_review_context k target now (record s { jobs = jobs })) _
        h2 in
    let w =
      invalidate_if_job_left_review_context-Settles k target now (record s { jobs = jobs }) t p in
    let moved_jobs : r.1.jobs ≡ jobs = ground (arith, w.jobs) in
    let kept : r.1.attempts ≡ settled k target (left_reason target) now s.attempts =
      ground (arith, w.attempts) in
    rw (moved_jobs, kept)
      (settled-Consistent k (moved now target u row) (left_reason target) now jobs s.attempts
        (find_row-update (is_job k) (moved now target u) (λ x e. e) s.jobs row found)
        (update_jobs-Consistent fits (fits_but k) (is_job k) (moved now target u) (λ j. refl)
          (λ j a f. ground arith) s.jobs s.attempts c))

-- A transition that succeeds keeps the invariant: in particular, a job that leaves its review
-- leaves no open attempt behind.
pub transition-IsConsistent :
    (now k : ℕ) (target : ReviewState) (expected : Option ReviewState) (u : JobUpdate)
    (s : StateStore) (r : ReviewJob × StateStore)
    → transition now k target expected u s ≡ ok r
    → IsConsistent s
    → IsConsistent r.1
unfolding transition
transition-IsConsistent now k target expected u s r h c =
    transition_row-IsConsistent now k target expected u s (find_row (is_job k) s.jobs) r h refl c

claim_row-IsConsistent :
    (now : ℕ) (s : StateStore) (x : Option ReviewJob)
    → IsConsistent s
    → IsConsistent (claim_row now s x).1
unfolding claim_row claimed has_left
claim_row-IsConsistent now s none c = c
claim_row-IsConsistent now s (some row) c =
    elim (Bool-cases (count_rows (is_queued_job row.id) s.jobs == 1)) [
      | inl e ↦ rw e (
          update_jobs-Consistent fits fits (is_queued_job row.id) (claimed now) (λ j. refl)
            (λ j a f. ground arith) s.jobs s.attempts c)
      | inr n ↦ rw n c
    ]

-- A claim keeps the invariant.
pub claim_next-IsConsistent :
    (now : ℕ) (s : StateStore) → IsConsistent s → IsConsistent (claim_next now s).1
unfolding claim_next
claim_next-IsConsistent now s c = claim_row-IsConsistent now s _ c

-- The recovery after a restart keeps the invariant.
pub recover_after_restart-IsConsistent :
    (now : ℕ) (s : StateStore) → IsConsistent s → IsConsistent (recover_after_restart now s).1
unfolding recover_after_restart has_left
recover_after_restart-IsConsistent now s c =
    update_jobs-Consistent fits fits is_reviewing (interrupted now) (λ j. refl)
      (λ j a f. ground arith) s.jobs s.attempts c
