-- ===== src/Examples/Deliveries.antt =====
-- A delivery that opens a pull request, and the same delivery once more.
use dohwa_hermes_stack.Base.{
  ◌≡◌, refl, true, false, some, [], ◌∷◌, ok, err, invalid_state_transition, ◌&&◌, if◌then◌else◌,
}
use dohwa_hermes_stack.Models.{
  queued, merged, closed, ReviewJob, WebhookEvent, IngestResult, ◌=s◌, validate_transition,
}
use dohwa_hermes_stack.Store.Tables.{StateStore, empty_store}
use dohwa_hermes_stack.Store.Invalidate.{
  invalidate_if_job_left_review_context, obsolete_other_heads,
}
use dohwa_hermes_stack.Store.Ingest.{record_delivery, ingest, link_delivery}
use dohwa_hermes_stack.Store.Ingest.Targets.{initial_state, event_may_transition, new_job}
use dohwa_hermes_stack.Store.Ingest.Replay.{ingest_again, event_may_transition-validate_transition}
use dohwa_hermes_stack.Examples.Data.{event_at, head_sha}

abbrev pub opened : WebhookEvent
opened = event_at "delivery-1" "opened"

abbrev first_job : ReviewJob
first_job = new_job 100 opened "dohwa/hermes" 12 head_sha queued 1

abbrev pub after_opened : IngestResult × StateStore
after_opened = (
  record { accepted_delivery = true; created_job = true; job = some first_job },
  link_delivery "delivery-1" 1
      (record (record_delivery 100 opened empty_store) { jobs = first_job ∷ [] }),
)

pub opened_once : ingest 100 opened empty_store ≡ ok after_opened
unfolding ingest initial_state invalidate_if_job_left_review_context obsolete_other_heads
opened_once = refl

ingest_again_example :
    ingest 200 opened after_opened.1
    ≡ ok (
      record { accepted_delivery = false; created_job = false; job = some first_job },
      after_opened.1,
    )
ingest_again_example = ingest_again 100 200 opened opened empty_store after_opened opened_once refl

event_may_transition-validate_transition_example :
    validate_transition closed (initial_state (event_at "delivery-2" "reopened")) ≡ (
      if closed =s closed && initial_state (event_at "delivery-2" "reopened") =s merged
      then err invalid_state_transition
      else ok tt)
unfolding event_may_transition initial_state
event_may_transition-validate_transition_example =
    event_may_transition-validate_transition (event_at "delivery-2" "reopened") closed refl
