-- ===== src/Store/Consistent.antt =====
-- The invariant of the state store of reviewer/state.py: what its keys, its CHECK constraints and
-- its methods keep true of the jobs and of their review attempts.
pub mod Keeps
use dohwa_hermes_stack.Base.{
  ℕ, ◌≡◌, ◌≤◌, ◌<◌, ◌≢◌, Bool, true, false, not, ◌&&◌, ◌||◌, Option, none, some, List, [], ◌∷◌,
  ◌==◌, ltb, is_none, is_some, any, All, Pairs, Apart, UniqueKeys,
}
use dohwa_hermes_stack.Models.{ReviewJob}
use dohwa_hermes_stack.Approval.Status.{ReviewAttemptStatus}
use dohwa_hermes_stack.Store.Tables.{
  ReviewAttempt, PublishState, StateStore, not_sent, maybe_sent, confirmed, is_open, ◌=p◌,
}
use dohwa_hermes_stack.Store.Invalidate.{has_left}

-- An open attempt belongs to no job that has left its review.
abbrev pub fits : ReviewJob → ReviewAttempt → Bool
fits j a = not (j.id == a.job_id && (is_open a.status && has_left j.state))

-- Two open attempts for one pull request.
abbrev pub clash : ReviewAttempt → ReviewAttempt → Bool
clash a b =
    (is_open a.status && is_open b.status)
    && (a.repository_id == b.repository_id && a.pull_number == b.pull_number)

abbrev positive : Option ℕ → Bool
positive none = false
positive (some n) = ltb 0 n

-- The times of a publication that each publish state has and has not.
abbrev publish_shape : PublishState → ReviewAttempt → Bool
publish_shape not_sent a = is_none a.publish_started_at && is_none a.publish_confirmed_at
publish_shape maybe_sent a = is_some a.publish_started_at && is_none a.publish_confirmed_at
publish_shape confirmed a = is_some a.publish_started_at && is_some a.publish_confirmed_at

-- The columns that each status of an attempt has and has not: the CHECK constraint of the table,
-- and the trigger `review_attempts_publish_invariant_update`.
abbrev pub shape_of : ReviewAttemptStatus → ReviewAttempt → Bool
shape_of ReviewAttemptStatus.prepared a =
    (is_none a.github_review_id && is_none a.submitted_at)
    && ((is_none a.activated_at && is_none a.invalidated_at)
        && ((is_none a.invalidation_reason && not (a.publish_state =p confirmed))
            && publish_shape a.publish_state a))
shape_of ReviewAttemptStatus.active a =
    (positive a.github_review_id && is_some a.submitted_at)
    && ((is_some a.activated_at && is_none a.invalidated_at)
        && ((is_none a.invalidation_reason && a.publish_state =p confirmed)
            && publish_shape a.publish_state a))
shape_of ReviewAttemptStatus.invalidated a =
    (is_some a.invalidated_at && is_some a.invalidation_reason) && publish_shape a.publish_state a

abbrev pub HasShape : ReviewAttempt → Type 0
HasShape a = shape_of a.status a ≡ true

-- A job with the identity of the attempt's job.
abbrev pub knows : List ReviewJob → ReviewAttempt → Bool
knows jobs a = any (λ j. j.id == a.job_id) jobs

-- A job that has just moved may still have open attempts, until they are invalidated.
abbrev pub fits_but : ℕ → ReviewJob → ReviewAttempt → Bool
fits_but k j a = j.id == k || fits j a

pub record Consistent (fit : ReviewJob → ReviewAttempt → Bool) (jobs : List ReviewJob)
    (attempts : List ReviewAttempt) : Type 0 where
  pub job_keys : UniqueKeys (λ (j : ReviewJob). j.id) jobs
  pub no_stale : Pairs (λ j a. fit j a ≡ true) jobs attempts
  pub one_open : Apart (λ a b. clash a b ≡ false) attempts
  pub shapes : All HasShape attempts
  pub known : All (λ a. knows jobs a ≡ true) attempts

-- The invariant: job identities are unique, no job that has left its review has an open attempt, a
-- pull request has at most one open attempt, every attempt has the columns of its status, and its
-- job is there.
abbrev pub IsConsistent : StateStore → Type 0
IsConsistent s = Consistent fits s.jobs s.attempts
