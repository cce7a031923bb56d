-- ===== src/Examples/Attempts.antt =====
-- One review attempt, sent and activated.
use dohwa_hermes_stack.Base.{
  ℕ, ◌≡◌, refl, Bool, true, none, some, [], ◌∷◌, String, ◌=t◌, opt_eq, ok, err, runtime_error, int,
  find_row, pos,
}
use dohwa_hermes_stack.Models.{reviewing, ReviewJob}
use dohwa_hermes_stack.Store.Tables.{
  ReviewAttempt, ReviewContextRow, StateStore, not_sent, maybe_sent,
}
use dohwa_hermes_stack.Store.Ingest.{is_job}
use dohwa_hermes_stack.Store.Invalidate.{has_left}
use dohwa_hermes_stack.Store.Invalidate.Effects.{ended}
use dohwa_hermes_stack.Store.Consistent.{IsConsistent}
use dohwa_hermes_stack.Store.Attempts.{
  mark_review_attempt_publish_maybe_sent, update_attempt, activate_row, activate_review_attempt,
  activating, positive_id, is_context,
}
use dohwa_hermes_stack.Store.Attempts.Prepare.{validate_review_job_context, is_content}
use dohwa_hermes_stack.Store.Attempts.Publishing.{
  IsBound, mark_review_attempt_publish_maybe_sent_once, activate_review_attempt-IsBound,
}
use dohwa_hermes_stack.Examples.Data.{context_id, attempt_in, store_with}

abbrev unsent : StateStore
unsent = store_with reviewing (attempt_in not_sent none ∷ [])

abbrev sent : StateStore
sent = store_with reviewing (attempt_in maybe_sent (some 200) ∷ [])

abbrev activated : StateStore
activated =
    store_with reviewing
      (activating 300 77 "2026-01-01T00:00:00Z" (attempt_in maybe_sent (some 200)) ∷ [])

mark_review_attempt_publish_maybe_sent_once_example :
    mark_review_attempt_publish_maybe_sent 250 context_id sent
    ≡ err (runtime_error "review publish may already have been sent; reconcile marker instead")
unfolding mark_review_attempt_publish_maybe_sent update_attempt
mark_review_attempt_publish_maybe_sent_once_example =
    mark_review_attempt_publish_maybe_sent_once 200 250 context_id unsent sent refl

sent-IsConsistent : IsConsistent sent
unfolding has_left
sent-IsConsistent = record {
  job_keys = (tt, tt);
  no_stale = ((refl, tt), tt);
  one_open = (tt, tt);
  shapes = (refl, tt);
  known = (refl, tt);
}

abbrev accepts_all : String → Bool
accepts_all at = true

activate_review_attempt-IsBound_example :
    (review : ℕ) × (positive_id (int (pos 77)) ≡ ok review)
    × IsBound review "2026-01-01T00:00:00Z" context_id activated
    × ((a : ReviewAttempt) × (job : ReviewJob) × (content : ReviewContextRow) × (find_row
            (is_context context_id)
            sent.attempts
          ≡ some a)
        × (find_row (is_job a.job_id) sent.jobs ≡ some job)
        × (find_row (is_content a.content_id) sent.contents ≡ some content)
        × (validate_review_job_context job content ≡ ok tt)
        × ((a.review_decision =t "pass") ≡ true)
        × (opt_eq ◌=t◌ job.review_decision (some "pass") ≡ true))
    × (activate_review_attempt accepts_all 400 context_id
          (int (pos 77))
          "2026-01-01T00:00:00Z"
          activated
        ≡ ok activated)
unfolding activate_review_attempt activate_row validate_review_job_context update_attempt
activate_review_attempt-IsBound_example =
    activate_review_attempt-IsBound accepts_all 300 400 context_id (int (pos 77))
      "2026-01-01T00:00:00Z" sent activated sent-IsConsistent refl

abbrev given_up : StateStore
given_up = record sent { attempts = ended (1 ∷ []) "JOB_CLOSED" 400 sent.attempts }
