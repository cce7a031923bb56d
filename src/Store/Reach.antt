-- ===== src/Store/Reach.antt =====
-- reviewer/state.py: the histories of the state store, as sequences of the operations of the
-- modelled classes in any order, with any arguments, among which only the successful ones change
-- the store (`_transaction` rolls a raised error back). A label decision is a step where it names no
-- new approval.
pub mod Keeps
use dohwa_hermes_stack.Base.{ℕ, ◌≡◌, Bool, Option, List, String, Result, ok, Value, Fields}
use dohwa_hermes_stack.Models.{ReviewState, ReviewJob, WebhookEvent, IngestResult, CiRequestState}
use dohwa_hermes_stack.Store.Tables.{ReviewAttempt, StateStore, empty_store}
use dohwa_hermes_stack.Store.Ingest.{ingest, archive_webhook_delivery}
use dohwa_hermes_stack.Store.Jobs.{
  JobUpdate, transition, bind_job_repository_id, claim_next, recover_after_restart,
}
use dohwa_hermes_stack.Store.Attempts.{
  mark_review_attempt_publish_maybe_sent, activate_review_attempt, invalidate_review_attempt,
  confirm_invalidated_review_attempt_publication,
}
use dohwa_hermes_stack.Store.Attempts.Prepare.{prepare_review_attempt}
use dohwa_hermes_stack.Store.Publications.{begin_review_publication, confirm_review_publication}
use dohwa_hermes_stack.Store.Reconciliations.{
  claim_next_approval_reconciliation, retry_approval_reconciliation,
}
use dohwa_hermes_stack.Store.Outbox.{
  claim_next_approval_outbox, complete_approval_outbox, retry_approval_outbox,
}
use dohwa_hermes_stack.Approval.Ttl.{GithubClockObservation}
use dohwa_hermes_stack.Store.Labels.Record.{Claim, LabelResult}
use dohwa_hermes_stack.Store.Labels.Timeline.{Snapshot}
use dohwa_hermes_stack.Store.Labels.Judge.{Settings}
use dohwa_hermes_stack.Store.Labels.Accept.{Runtime}
use dohwa_hermes_stack.Store.Labels.Apply.{apply_github_label_approval}
use dohwa_hermes_stack.Store.Labels.Expire.{expire_github_label_approvals}
use dohwa_hermes_stack.Store.Labels.Queue.{
  enqueue_approval_reconciliation, complete_approval_reconciliation,
  reject_timed_out_approval_reconciliation,
}
use dohwa_hermes_stack.Store.Labels.Stays.{NamesNone}
use dohwa_hermes_stack.Merge.{MergeDescriptor}
use dohwa_hermes_stack.Merge.Inputs.{CiRequestInputs}
use dohwa_hermes_stack.Approval.Context.{ReviewContextContent}
use dohwa_hermes_stack.Store.Contexts.{StoredReviewContext, store_review_context}
use dohwa_hermes_stack.Store.Requests.{create_ci_request}
use dohwa_hermes_stack.Store.Tables.Plans.{StoredMergeDescriptor, CiRequestPlan}
use dohwa_hermes_stack.Store.Descriptors.{store_merge_descriptor}

-- One call that succeeds, at the time `now`.
pub data Step (is_github_timestamp : String → Bool) (now : ℕ) (s : StateStore)
    : StateStore → Type 0 where
  ingested :
      (e : WebhookEvent) (r : IngestResult × StateStore)
      → ingest now e s ≡ ok r
      → Step is_github_timestamp now s r.1
  archived :
      (e : WebhookEvent) → Step is_github_timestamp now s (archive_webhook_delivery now e s).1
  transitioned :
      (k : ℕ) (target : ReviewState) (expected : Option ReviewState) (u : JobUpdate)
      (r : ReviewJob × StateStore)
      → transition now k target expected u s ≡ ok r
      → Step is_github_timestamp now s r.1
  identity_bound :
      (k : ℕ) (v : Value) (r : ReviewJob × StateStore)
      → bind_job_repository_id now k v s ≡ ok r
      → Step is_github_timestamp now s r.1
  job_claimed : Step is_github_timestamp now s (claim_next now s).1
  recovered : Step is_github_timestamp now s (recover_after_restart now s).1
  attempt_prepared :
      (i : String) (k : ℕ) (content_id decision : String) (r : ReviewAttempt × StateStore)
      → prepare_review_attempt now i k content_id decision s ≡ ok r
      → Step is_github_timestamp now s r.1
  attempt_sent :
      (i : String) (t : StateStore)
      → mark_review_attempt_publish_maybe_sent now i s ≡ ok t
      → Step is_github_timestamp now s t
  attempt_activated :
      (i : String) (v : Value) (at : String) (t : StateStore)
      → activate_review_attempt is_github_timestamp now i v at s ≡ ok t
      → Step is_github_timestamp now s t
  attempt_invalidated :
      (i reason : String) (t : StateStore)
      → invalidate_review_attempt now i reason s ≡ ok t
      → Step is_github_timestamp now s t
  attempt_attributed :
      (i : String) (v : Value) (at : String) (t : StateStore)
      → confirm_invalidated_review_attempt_publication is_github_timestamp now i v at s ≡ ok t
      → Step is_github_timestamp now s t
  publication_begun :
      (k : ℕ) (marker event : String) (r : Bool × StateStore)
      → begin_review_publication now k marker event s ≡ ok r
      → Step is_github_timestamp now s r.1
  publication_confirmed :
      (k : ℕ) (marker event : String) (v : Value) (t : StateStore)
      → confirm_review_publication now k marker event v s ≡ ok t
      → Step is_github_timestamp now s t
  outbox_claimed : Step is_github_timestamp now s (claim_next_approval_outbox now s).1
  outbox_completed :
      (i claimed_at attempt_count : ℕ) (t : StateStore)
      → complete_approval_outbox now i claimed_at attempt_count s ≡ ok t
      → Step is_github_timestamp now s t
  outbox_postponed :
      (i : ℕ) (error : String) (claimed_at attempt_count : ℕ) (t : StateStore)
      → retry_approval_outbox now i error claimed_at attempt_count s ≡ ok t
      → Step is_github_timestamp now s t
  reconciliation_claimed :
      Step is_github_timestamp now s (claim_next_approval_reconciliation now s).1
  reconciliation_postponed :
      (i : ℕ) (error : String) (claimed_at attempt_count : ℕ) (t : StateStore)
      → retry_approval_reconciliation now i error claimed_at attempt_count s ≡ ok t
      → Step is_github_timestamp now s t
  reconciliation_enqueued :
      (e : WebhookEvent) (policy : String) (window : ℕ) (r : Bool × StateStore)
      → enqueue_approval_reconciliation is_github_timestamp now e policy window s ≡ ok r
      → Step is_github_timestamp now s r.1
  reconciliation_completed :
      (c : Claim) (t : StateStore)
      → complete_approval_reconciliation now c s ≡ ok t
      → Step is_github_timestamp now s t
  reconciliation_timed_out :
      (c : Claim) (reason : String) (affects : Bool) (r : LabelResult × StateStore)
      → reject_timed_out_approval_reconciliation now c reason affects s ≡ ok r
      → Step is_github_timestamp now s r.1
  label_decided :
      (p : Runtime) (lower : String → String) (n : Snapshot) (c : Settings)
      (clock : GithubClockObservation) (m : Value) (fresh : String) (e : WebhookEvent)
      (received_at id claimed_at attempt_count : Option ℕ) (r : LabelResult × StateStore)
      → apply_github_label_approval p lower now n e c clock m received_at id claimed_at
          attempt_count fresh s
        ≡ ok r
      → NamesNone r.0
      → Step is_github_timestamp now s r.1
  approvals_expired :
      (repository_id : ℕ) (repository : String) (pull_number : ℕ) (clock : GithubClockObservation)
      (monotonic : String → Value) (r : List (String × String) × StateStore)
      → expire_github_label_approvals now repository_id repository pull_number clock monotonic s
        ≡ ok r
      → Step is_github_timestamp now s r.1
  descriptor_stored :
      (sha1_hex sha256_hex : List ℕ → String) (dumps : Fields → List ℕ)
      (loads : List ℕ → Result Value) (job_id : ℕ) (d : MergeDescriptor)
      (r : StoredMergeDescriptor × StateStore)
      → store_merge_descriptor sha1_hex sha256_hex dumps loads job_id d now s ≡ ok r
      → Step is_github_timestamp now s r.1
  context_stored :
      (sha256_hex : List ℕ → String) (dumps : Fields → List ℕ) (loads : List ℕ → Result Value)
      (value : ReviewContextContent) (r : StoredReviewContext × StateStore)
      → store_review_context sha256_hex dumps loads value now s ≡ ok r
      → Step is_github_timestamp now s r.1
  request_created :
      (sha1_hex sha256_hex : List ℕ → String) (reformat : String → Option String)
      (dumps : Fields → List ℕ) (loads : List ℕ → Result Value) (digest : String)
      (i : CiRequestInputs) (state : CiRequestState) (reason : Option String)
      (r : CiRequestPlan × StateStore)
      → create_ci_request sha1_hex sha256_hex reformat dumps loads digest i state reason now s
        ≡ ok r
      → Step is_github_timestamp now s r.1

-- The stores that the program can reach from the empty one.
pub data Reach (is_github_timestamp : String → Bool) : StateStore → Type 0 where
  start : Reach is_github_timestamp empty_store
  then_step :
      (now : ℕ) (s t : StateStore)
      → Reach is_github_timestamp s
      → Step is_github_timestamp now s t
      → Reach is_github_timestamp t
